-- ===== src/Helper/Turns.antt =====
-- What runs and what is set up after one turn of the daemon.
use ssh_rocket.Base.{
  ℕ, ◌≡◌, refl, ◌∙◌, Bool, true, false, ◌&&◌, ◌||◌, List, [], ◌∷◌, ◌++◌, Option, none, some,
  if◌then◌else◌, Bool-cases, inl, inr,
}
use ssh_rocket.Config.{AppConfig}
use ssh_rocket.Outcome.{Outcome, returned, absent, panicked, exhausted}
use ssh_rocket.Helper.{
  HelperEvent, active, error, Effect, clean_stale_resources, World, ActiveSession,
  start_proxy_session, Shutdown, was_finished, in_time, timed_out, stop_session,
}
use ssh_rocket.Helper.Daemon
use ssh_rocket.Helper.Daemon.{
  SyncWorld, Turn, Next, go_on, leave_loop, fail_with, crash, Step, before, Synced, synced,
  sync_panicked, send, restarted, with_file, sync_active_rules, mtime_eq, after_sync, after_tick,
  stop_old, started, stop_or_clean, is_some, is_finished, on_event, step, End, in_loop, ended,
  failed, crashed, follow, append_end, run_loop, run_daemon,
}
use ssh_rocket.Helper.Ledger.{
  Ledger, off, on, post, post-append, Leaves, start_proxy_session-Leaves,
}
use ssh_rocket.Helper.Signature.{Signature, same_signature}

abbrev pub expected : {N : Type 0} → Option (ActiveSession N) → Ledger
expected none = off
expected (some s) = on

-- What a turn leads to fits the ledger.
abbrev pub Fits : {N : Type 0} → Next N → Ledger → Type 0
Fits (go_on s) l = l ≡ expected s
Fits (leave_loop s) l = l ≡ expected s
Fits (fail_with s) l = l ≡ expected s
Fits crash l = Unit

abbrev pub FitsFrom : {N : Type 0} → Ledger → Step N → Type 0
FitsFrom l m = Fits m.1 (post m.0 l)

stop_session-off : (dns tun : Shutdown) → post (stop_session dns tun) on ≡ off
unfolding stop_session post
stop_session-off was_finished was_finished = refl
stop_session-off was_finished in_time = refl
stop_session-off was_finished timed_out = refl
stop_session-off in_time was_finished = refl
stop_session-off in_time in_time = refl
stop_session-off in_time timed_out = refl
stop_session-off timed_out was_finished = refl
stop_session-off timed_out in_time = refl
stop_session-off timed_out timed_out = refl

Fits-before :
    {N : Type 0} (es : List Effect) (m : Step N) (l k : Ledger)
    → post es l ≡ k
    → FitsFrom k m
    → FitsFrom l (before es m)
Fits-before es (fs, go_on s) l k e h = post-append es fs l ∙ rw e h
Fits-before es (fs, leave_loop s) l k e h = post-append es fs l ∙ rw e h
Fits-before es (fs, fail_with s) l k e h = post-append es fs l ∙ rw e h
Fits-before es (fs, crash) l k e h = tt

module _ {N : Type 0} (to_vec : Signature N → List ℕ) where
  send-Fits :
      (writable : Bool) (e : HelperEvent) (s : Option (ActiveSession N))
      → FitsFrom (expected s) (send to_vec writable e s)
  unfolding send post
  send-Fits true e none = refl
  send-Fits true e (some s) = refl
  send-Fits false e none = refl
  send-Fits false e (some s) = refl

  pub stop_old-off :
      (s : Option (ActiveSession N)) (dns tun : Shutdown)
      → post (stop_old to_vec s dns tun) (expected s) ≡ off
  unfolding post
  stop_old-off none dns tun = refl
  stop_old-off (some s) dns tun = stop_session-off dns tun

  stop_or_clean-off :
      (s : Option (ActiveSession N)) (dns tun : Shutdown)
      → post (stop_or_clean to_vec s dns tun) (expected s) ≡ off
  unfolding post
  stop_or_clean-off none dns tun = refl
  stop_or_clean-off (some s) dns tun = stop_session-off dns tun

  started-Fits :
      (writable : Bool) (es : List Effect) (o : Outcome (ActiveSession N))
      → Leaves (λ s. on) off o (post es off)
      → FitsFrom off (before es (started to_vec writable o))
  unfolding post
  started-Fits writable es (returned s) h =
      Fits-before es (send to_vec writable active (some s)) off on h
        (send-Fits writable active (some s))
  started-Fits writable es absent h =
      Fits-before es (before (clean_stale_resources ∷ []) (send to_vec writable error none)) off off
        h
        (Fits-before (clean_stale_resources ∷ []) (send to_vec writable error none) off off refl
          (send-Fits writable error none))
  started-Fits writable es panicked h = tt
  started-Fits writable es exhausted h = tt

  -- What a synchronisation ends with fits the ledger.
  FitsSynced : Synced to_vec → Ledger → Type 0
  FitsSynced (synced s ok) l = l ≡ expected s
  FitsSynced sync_panicked l = Unit

  restarted-Fits :
      (o : Outcome (ActiveSession N)) (l : Ledger)
      → Leaves (λ s. on) off o l
      → FitsSynced (restarted to_vec o) l
  unfolding FitsSynced
  restarted-Fits (returned s) l h = h
  restarted-Fits absent l h = h
  restarted-Fits panicked l h = tt
  restarted-Fits exhausted l h = tt

  restart-Fits :
      (w : World N) (dns tun : Shutdown)
      → FitsSynced
          (restarted to_vec (start_proxy_session w).1)
          (post (stop_session dns tun ++ (start_proxy_session w).0) on)
  restart-Fits w dns tun =
      rw (post-append (stop_session dns tun) (start_proxy_session w).0 on, stop_session-off dns tun)
        (restarted-Fits (start_proxy_session w).1 _ (start_proxy_session-Leaves w))

  with_file-Fits :
      (s : ActiveSession N) (w : SyncWorld N) (dns tun : Shutdown) (file : Option (AppConfig N))
      → FitsSynced
          (with_file to_vec s w dns tun file).1
          (post (with_file to_vec s w dns tun file).0 on)
  unfolding FitsSynced post
  with_file-Fits s w dns tun none = refl
  with_file-Fits s w dns tun (some config) =
      elim (Bool-cases (same_signature to_vec config s.config)) [
        | inl e ↦ rw e refl
        | inr e ↦ rw e (restart-Fits w.restart dns tun)
      ]

  sync_active_rules-Fits :
      (s : Option (ActiveSession N)) (w : SyncWorld N) (dns tun : Shutdown)
      → FitsSynced
          (sync_active_rules to_vec s w dns tun).1
          (post (sync_active_rules to_vec s w dns tun).0 (expected s))
  unfolding sync_active_rules post FitsSynced
  sync_active_rules-Fits none w dns tun = refl
  sync_active_rules-Fits (some s) w dns tun =
      elim (Bool-cases (mtime_eq w.current_mtime s.config_mtime)) [
        | inl e ↦ rw e refl
        | inr e ↦ rw e (with_file-Fits s w dns tun w.file)
      ]

  after_sync-Fits :
      (writable : Bool) (es : List Effect) (o : Synced to_vec) (l : Ledger)
      → FitsSynced o (post es l)
      → FitsFrom l (before es (after_sync to_vec writable o))
  unfolding FitsSynced
  after_sync-Fits writable es (synced s true) l h =
      Fits-before es _ l (expected s) h (send-Fits writable _ s)
  after_sync-Fits writable es (synced s false) l h =
      Fits-before es _ l (expected s) h (send-Fits writable _ s)
  after_sync-Fits writable es sync_panicked l h = tt

  after_tick-Fits :
      (es : List Effect) (o : Synced to_vec) (l : Ledger)
      → FitsSynced o (post es l)
      → FitsFrom l (before es (after_tick to_vec o))
  unfolding FitsSynced post
  after_tick-Fits es (synced s ok) l h = post-append es [] l ∙ h
  after_tick-Fits es sync_panicked l h = tt

  if-Fits :
      (b : Bool) (l : Ledger) (m n : Step N)
      → FitsFrom l m
      → FitsFrom l n
      → FitsFrom l (if b then m else n)
  if-Fits true l m n h k = h
  if-Fits false l m n h k = k

  pub on_event-Fits :
      (s : Option (ActiveSession N)) (t : Turn N) (e : Daemon.Event N)
      → FitsFrom (expected s) (on_event to_vec s t e)
  unfolding on_event post
  on_event-Fits s t Daemon.interrupt = refl
  on_event-Fits s t Daemon.terminate = refl
  on_event-Fits s t Daemon.stdin_closed = refl
  on_event-Fits s t Daemon.stdin_failed = refl
  on_event-Fits s t Daemon.blank_line = refl
  on_event-Fits s t Daemon.invalid_line = send-Fits t.writable error s
  on_event-Fits s t (Daemon.command_start w) =
      Fits-before (stop_old to_vec s t.dns t.tun) _ (expected s) off (stop_old-off s t.dns t.tun) (
        started-Fits t.writable (start_proxy_session w).0 (start_proxy_session w).1
          (start_proxy_session-Leaves w))
  on_event-Fits s t Daemon.command_stop =
      Fits-before (stop_or_clean to_vec s t.dns t.tun) _ (expected s) off
        (stop_or_clean-off s t.dns t.tun) (send-Fits t.writable _ none)
  on_event-Fits s t Daemon.command_status =
      if-Fits (is_some to_vec s && (is_finished t.tun || is_finished t.dns)) (expected s) _ _
        (Fits-before (stop_old to_vec s t.dns t.tun) _ (expected s) off (stop_old-off s t.dns t.tun)
          (send-Fits t.writable error none))
        (send-Fits t.writable _ s)
  on_event-Fits s t Daemon.command_quit = refl
  on_event-Fits s t (Daemon.command_sync_rules w) =
      after_sync-Fits t.writable (sync_active_rules to_vec s w t.dns t.tun).0
        (sync_active_rules to_vec s w t.dns t.tun).1 (expected s)
        (sync_active_rules-Fits s w t.dns t.tun)
  on_event-Fits none t Daemon.tun_exited = refl
  on_event-Fits (some s) t Daemon.tun_exited =
      Fits-before (stop_session t.dns was_finished) _ on off (stop_session-off t.dns was_finished)
        (send-Fits t.writable error none)
  on_event-Fits s t (Daemon.tick orphaned w) =
      if-Fits orphaned (expected s) ([], leave_loop s) _ refl
        (after_tick-Fits (sync_active_rules to_vec s w t.dns t.tun).0
          (sync_active_rules to_vec s w t.dns t.tun).1 (expected s)
          (sync_active_rules-Fits s w t.dns t.tun))

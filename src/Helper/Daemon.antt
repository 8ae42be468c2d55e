-- ===== src/Helper/Daemon.antt =====
-- crates/ssh-rocket-runtime/src/bin/helper.rs: the loop of the daemon, over the turns that happen, and
-- `sync_active_rules`.
use ssh_rocket.Base.{
  ℕ, Bool, true, false, ◌&&◌, ◌||◌, List, [], ◌∷◌, ◌++◌, Option, none, some, ◌==◌, if◌then◌else◌,
}
use ssh_rocket.Config.{AppConfig}
use ssh_rocket.Outcome.{Outcome, returned, absent, panicked, exhausted}
use ssh_rocket.Helper.{
  HelperEvent, ready, active, stopped, rules_synced, error, status, Effect, clean_stale_resources,
  assign_apps, send_event, World, ActiveSession, start_proxy_session, Shutdown, was_finished,
  stop_session,
}
use ssh_rocket.Helper.Signature.{Signature, same_signature}

-- What `sync_active_rules` finds: the time and the content of the file, whether the processes can be
-- assigned, and the answers to a new start.
pub record SyncWorld (N : Type 0) : Type 0 where
  pub current_mtime : Option ℕ
  pub file : Option (AppConfig N)
  pub assigned : Bool
  pub restart : World N

-- What the `select!` of the loop yields. A command line is blank, invalid or a command.
pub data Event (N : Type 0) : Type 0 where
  interrupt terminate stdin_closed stdin_failed blank_line invalid_line : Event N
  command_start : World N → Event N
  command_stop command_status command_quit : Event N
  command_sync_rules : SyncWorld N → Event N
  tun_exited : Event N
  tick : Bool → SyncWorld N → Event N

-- One turn: what happens, whether events can be written, and how the tasks of the session end if it
-- is stopped in this turn.
pub record Turn (N : Type 0) : Type 0 where
  pub event : Event N
  pub writable : Bool
  pub dns : Shutdown
  pub tun : Shutdown

-- Where a turn leads: on, out of the loop, out of the function with an error, or to a panic.
pub data Next (N : Type 0) : Type 0 where
  go_on leave_loop fail_with : Option (ActiveSession N) → Next N
  crash : Next N

abbrev pub Step : Type 0 → Type 0
Step N = List Effect × Next N

abbrev pub before : {N : Type 0} → List Effect → Step N → Step N
before es (fs, n) = (es ++ fs, n)

abbrev pub is_finished : Shutdown → Bool
is_finished was_finished = true
is_finished _ = false

abbrev pub mtime_eq : Option ℕ → Option ℕ → Bool
mtime_eq (some a) (some b) = a == b
mtime_eq _ _ = false

module _ {N : Type 0} (to_vec : Signature N → List ℕ) where
  -- `send_event(..).await?`
  unfoldable pub send : Bool → HelperEvent → Option (ActiveSession N) → Step N
  send true e session = (send_event e ∷ [], go_on session)
  send false e session = ([], fail_with session)

  -- How a synchronisation ends: the session, and whether there was no error; a panic has none.
  pub data Synced : Type 0 where
    synced : Option (ActiveSession N) → Bool → Synced
    sync_panicked : Synced

  abbrev pub restarted : Outcome (ActiveSession N) → Synced
  restarted (returned s) = synced (some s) true
  restarted absent = synced none false
  restarted panicked = sync_panicked
  restarted exhausted = sync_panicked

  abbrev pub with_file :
      ActiveSession N
      → SyncWorld N
      → Shutdown
      → Shutdown
      → Option (AppConfig N)
      → List Effect × Synced
  with_file s w dns tun none = ([], synced (some s) false)
  with_file s w dns tun (some config) =
      if same_signature to_vec config s.config
      then (
        assign_apps ∷ [],
        synced
            (some (record s {
              config_mtime = w.current_mtime;
              config = record s.config {
                settings = record s.config.settings { app_rules = config.settings.app_rules };
              };
            }))
            w.assigned,
      )
      else (
        stop_session dns tun ++ (start_proxy_session w.restart).0,
        restarted (start_proxy_session w.restart).1,
      )

  unfoldable pub sync_active_rules :
      Option (ActiveSession N) → SyncWorld N → Shutdown → Shutdown → List Effect × Synced
  sync_active_rules none w dns tun = ([], synced none true)
  sync_active_rules (some s) w dns tun =
      if mtime_eq w.current_mtime s.config_mtime
      then (assign_apps ∷ [], synced (some s) w.assigned)
      else with_file s w dns tun w.file

  abbrev pub after_sync : Bool → Synced → Step N
  after_sync writable (synced session true) = send writable rules_synced session
  after_sync writable (synced session false) = send writable error session
  after_sync writable sync_panicked = ([], crash)

  -- An error of the regular synchronisation is only logged.
  abbrev pub after_tick : Synced → Step N
  after_tick (synced session ok) = ([], go_on session)
  after_tick sync_panicked = ([], crash)

  abbrev pub stop_old : Option (ActiveSession N) → Shutdown → Shutdown → List Effect
  stop_old none dns tun = []
  stop_old (some s) dns tun = stop_session dns tun

  abbrev pub started : Bool → Outcome (ActiveSession N) → Step N
  started writable (returned s) = send writable active (some s)
  started writable absent = before (clean_stale_resources ∷ []) (send writable error none)
  started writable panicked = ([], crash)
  started writable exhausted = ([], crash)

  abbrev pub stop_or_clean : Option (ActiveSession N) → Shutdown → Shutdown → List Effect
  stop_or_clean none dns tun = clean_stale_resources ∷ []
  stop_or_clean (some s) dns tun = stop_session dns tun

  abbrev pub is_some : Option (ActiveSession N) → Bool
  is_some none = false
  is_some (some s) = true

  unfoldable pub on_event : Option (ActiveSession N) → Turn N → Event N → Step N
  on_event session t interrupt = ([], leave_loop session)
  on_event session t terminate = ([], leave_loop session)
  on_event session t stdin_closed = ([], leave_loop session)
  on_event session t stdin_failed = ([], fail_with session)
  on_event session t blank_line = ([], go_on session)
  on_event session t invalid_line = send t.writable error session
  on_event session t (command_start w) =
      before (stop_old session t.dns t.tun)
        (before (start_proxy_session w).0 (started t.writable (start_proxy_session w).1))
  on_event session t command_stop =
      before (stop_or_clean session t.dns t.tun) (send t.writable stopped none)
  on_event session t command_status =
      if is_some session && (is_finished t.tun || is_finished t.dns)
      then before (stop_old session t.dns t.tun) (send t.writable error none)
      else send t.writable (status (is_some session)) session
  on_event session t command_quit = ([], leave_loop session)
  on_event session t (command_sync_rules w) =
      before (sync_active_rules session w t.dns t.tun).0
        (after_sync t.writable (sync_active_rules session w t.dns t.tun).1)
  on_event session t tun_exited =
      if is_some session
      then before (stop_old session t.dns was_finished) (send t.writable error none)
      else ([], go_on none)
  on_event session t (tick orphaned w) =
      if orphaned
      then ([], leave_loop session)
      else before (sync_active_rules session w t.dns t.tun).0
          (after_tick (sync_active_rules session w t.dns t.tun).1)

  abbrev pub step : Option (ActiveSession N) → Turn N → Step N
  step session t = on_event session t t.event

  -- How the daemon is left after some turns: still in its loop, ended, failed with what was active
  -- then, or crashed.
  pub data End : Type 0 where
    in_loop : Option (ActiveSession N) → End
    ended : End
    failed : Option (ActiveSession N) → End
    crashed : End

  -- What follows a turn, given what the turns behind it would do from a session on.
  unfoldable pub follow :
      Turn N → Next N → (Option (ActiveSession N) → List Effect × End) → List Effect × End
  follow t (go_on session) rest = rest session
  follow t (leave_loop session) rest =
      (stop_old session t.dns t.tun ++ clean_stale_resources ∷ [], ended)
  follow t (fail_with session) rest = ([], failed session)
  follow t crash rest = ([], crashed)

  abbrev pub append_end : List Effect → List Effect × End → List Effect × End
  append_end es (fs, e) = (es ++ fs, e)

  unfoldable pub run_loop : List (Turn N) → Option (ActiveSession N) → List Effect × End
  run_loop [] session = ([], in_loop session)
  run_loop (t ∷ ts) session =
      append_end (step session t).0 (follow t (step session t).1 (run_loop ts))

  -- The daemon, with whether its first event can be written, and whether it can then listen for the
  -- signal of termination.
  unfoldable pub run_daemon : Bool → Bool → List (Turn N) → List Effect × End
  run_daemon true true ts =
      append_end (clean_stale_resources ∷ send_event ready ∷ []) (run_loop ts none)
  run_daemon true false ts = (clean_stale_resources ∷ send_event ready ∷ [], failed none)
  run_daemon false listening ts = (clean_stale_resources ∷ [], failed none)

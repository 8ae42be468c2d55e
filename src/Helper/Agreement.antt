-- ===== src/Helper/Agreement.antt =====
-- What the client holds against what the daemon does.
use ssh_rocket.Base.{
  ℕ, ◌≡◌, refl, Bool, true, false, ◌&&◌, ◌||◌, List, [], ◌∷◌, ◌++◌, Option, none, some, arith,
  if◌then◌else◌,
}
use ssh_rocket.Helper.{
  HelperEvent, stopped, error, status, Effect, send_event, ActiveSession, Shutdown, was_finished,
  in_time, timed_out, stop_session,
}
use ssh_rocket.Helper.Client.{PrivilegedHelperSession, send_command, client_status, client_stop}
use ssh_rocket.Helper.Daemon
use ssh_rocket.Helper.Daemon.{
  Turn, Next, go_on, leave_loop, fail_with, crash, Step, send, before, on_event, stop_old,
  stop_or_clean, is_some, is_finished,
}
use ssh_rocket.Helper.Signature.{Signature}

-- The events among effects.
abbrev pub events_of : List Effect → List HelperEvent
events_of [] = []
events_of (send_event e ∷ es) = e ∷ events_of es
events_of (_ ∷ es) = events_of es

events_of-append : (es fs : List Effect) → events_of (es ++ fs) ≡ events_of es ++ events_of fs
events_of-append [] fs = refl
events_of-append (e ∷ es) fs = ground (arith, events_of-append es fs)

events_of-stop_session : (dns tun : Shutdown) → events_of (stop_session dns tun) ≡ []
unfolding stop_session
events_of-stop_session was_finished was_finished = refl
events_of-stop_session was_finished in_time = refl
events_of-stop_session was_finished timed_out = refl
events_of-stop_session in_time was_finished = refl
events_of-stop_session in_time in_time = refl
events_of-stop_session in_time timed_out = refl
events_of-stop_session timed_out was_finished = refl
events_of-stop_session timed_out in_time = refl
events_of-stop_session timed_out timed_out = refl

-- A client that waits for no other event.
abbrev pub quiet : Bool → PrivilegedHelperSession
quiet b = record { is_active = b; waiting = [] }

module _ {N : Type 0} (to_vec : Signature N → List ℕ) where
  -- Whether the daemon goes on, with a session or without.
  abbrev pub GoesOn : Bool → Next N → Type 0
  GoesOn b (go_on s) = is_some to_vec s ≡ b
  GoesOn b _ = ⊥

  -- A client that has read one event, and knows whether the daemon has a session.
  abbrev pub Agrees : PrivilegedHelperSession → Step N → Type 0
  Agrees c m = GoesOn c.is_active m.1 × (c.waiting ≡ [])

  StatusAgrees : Bool → Step N → Type 0
  StatusAgrees b m = Agrees (client_status true (some (events_of m.0)) (quiet b)).0 m

  StopAgrees : Bool → Step N → Type 0
  StopAgrees b m = Agrees (client_stop true (some (events_of m.0)) (quiet b)).0 m

  error-StatusAgrees :
      (b w : Bool) (es : List Effect)
      → w ≡ true
      → events_of es ≡ []
      → StatusAgrees b (before es (send to_vec w error none))
  unfolding StatusAgrees client_status send_command send
  error-StatusAgrees b true es e h =
      rw (events_of-append es (send_event error ∷ []), h) (refl, refl)
  error-StatusAgrees b false es e h = ground (arith, e)

  status-StatusAgrees :
      (b w : Bool) (s : Option (ActiveSession N))
      → w ≡ true
      → StatusAgrees b (send to_vec w (status (is_some to_vec s)) s)
  unfolding StatusAgrees client_status send_command send
  status-StatusAgrees b true s e = (refl, refl)
  status-StatusAgrees b false s e = ground (arith, e)

  if-StatusAgrees :
      (b c : Bool) (m n : Step N)
      → StatusAgrees b m
      → StatusAgrees b n
      → StatusAgrees b (if c then m else n)
  if-StatusAgrees b true m n h k = h
  if-StatusAgrees b false m n h k = k

  events_of-stop_old :
      (s : Option (ActiveSession N)) (dns tun : Shutdown)
      → events_of (stop_old to_vec s dns tun) ≡ []
  events_of-stop_old none dns tun = refl
  events_of-stop_old (some s) dns tun = events_of-stop_session dns tun

  events_of-stop_or_clean :
      (s : Option (ActiveSession N)) (dns tun : Shutdown)
      → events_of (stop_or_clean to_vec s dns tun) ≡ []
  events_of-stop_or_clean none dns tun = refl
  events_of-stop_or_clean (some s) dns tun = events_of-stop_session dns tun

  stopped-StopAgrees :
      (b w : Bool) (es : List Effect)
      → w ≡ true
      → events_of es ≡ []
      → StopAgrees b (before es (send to_vec w stopped none))
  unfolding StopAgrees client_stop send_command send
  stopped-StopAgrees b true es e h =
      rw (events_of-append es (send_event stopped ∷ []), h) (refl, refl)
  stopped-StopAgrees b false es e h = ground (arith, e)

  -- If the daemon can write and no event waits in the pipe, then after a status command and after
  -- a stop command the client holds an active session exactly if the daemon goes on with one, and
  -- no event waits in the pipe, whatever the client and the daemon held before.
  pub client-on_event :
      (s : Option (ActiveSession N)) (t : Turn N) (b : Bool)
      → t.writable ≡ true
      → Agrees
          (client_status true
            (some (events_of (on_event to_vec s t Daemon.command_status).0))
            (quiet b)).0
          (on_event to_vec s t Daemon.command_status)
        × Agrees
            (client_stop true
              (some (events_of (on_event to_vec s t Daemon.command_stop).0))
              (quiet b)).0
            (on_event to_vec s t Daemon.command_stop)
  unfolding on_event StatusAgrees StopAgrees
  client-on_event s t b w = (
    if-StatusAgrees b (is_some to_vec s && (is_finished t.tun || is_finished t.dns)) _ _
        (error-StatusAgrees b t.writable (stop_old to_vec s t.dns t.tun) w
          (events_of-stop_old s t.dns t.tun))
        (status-StatusAgrees b t.writable s w),
    stopped-StopAgrees b t.writable (stop_or_clean to_vec s t.dns t.tun) w
        (events_of-stop_or_clean s t.dns t.tun),
  )

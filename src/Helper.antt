-- ===== src/Helper.antt =====
-- crates/ssh-rocket-runtime/src/bin/helper.rs: the start and the end of a proxy session, as runs with
-- their effects. What the system answers is the argument `w`.
pub mod Signature
pub mod Ledger
pub mod Daemon
pub mod Turns
pub mod Exits
pub mod Client
pub mod Agreement
mod Examples
mod ClientExamples
use ssh_rocket.Base.{
  ℕ, zero, suc, ◌+◌, Bool, true, false, not, ◌&&◌, List, [], ◌∷◌, ◌++◌, Option, none, some, ltb,
  ◌==◌, if◌then◌else◌,
}
use ssh_rocket.Config.{AppConfig}
use ssh_rocket.Outcome.{Outcome, returned, absent, panicked, exhausted}

abbrev pub max_tun_retries : ℕ
max_tun_retries = 3

pub data HelperEvent : Type 0 where
  ready active stopped rules_synced error : HelperEvent
  status : Bool → HelperEvent

pub data Effect : Type 0 where
  clean_stale_resources ensure_persistent_tun : Effect
  sleep : ℕ → Effect
  spawn_tun join_tun abort_tun tun_finished : Effect
  spawn_dns join_dns abort_dns dns_finished : Effect
  cancel_tasks bind_dns bind_resolver configure_system_resolver : Effect
  setup cleanup assign_apps : Effect
  send_event : HelperEvent → Effect

-- What a fallible action does, and how it ends: `absent` is an error.
abbrev pub Run : Type 0 → Type 0
Run A = List Effect × Outcome A

abbrev pub behind : {A : Type 0} → List Effect → Run A → Run A
behind es (fs, o) = (es ++ fs, o)

infixl 5 ◌>>=◌
abbrev pub ◌>>=◌ : {A B : Type 0} → Run A → (A → Run B) → Run B
(es, returned a) >>= f = behind es (f a)
(es, absent) >>= f = (es, absent)
(es, panicked) >>= f = (es, panicked)
(es, exhausted) >>= f = (es, exhausted)

infixl 5 ◌>>◌
abbrev pub ◌>>◌ : {A B : Type 0} → Run A → Run B → Run B
m >> n = m >>= λ a. n

abbrev pub return : {A : Type 0} → A → Run A
return a = ([], returned a)

abbrev pub perform : List Effect → Run Unit
perform es = (es, returned tt)

-- An action that fails unless the test holds, with what is done before the error is returned.
abbrev pub or_fail : Bool → List Effect → Run Unit
or_fail true es = perform []
or_fail false es = (es, absent)

abbrev pub some_or_fail : {A : Type 0} → Option A → Run A
some_or_fail none = ([], absent)
some_or_fail (some a) = return a

-- How one attempt with the TUN device goes: the device cannot be made, the task ends by itself, the
-- interface does not come up in time, or the device is ready. `busy` says what the error names.
pub data TunAttempt : Type 0 where
  tun_unavailable tun_ready : TunAttempt
  task_ended check_failed : Bool → TunAttempt

-- The files and sockets of one start. `await_again` is what awaiting a task does whose result has been
-- taken already.
pub record World (N : Type 0) : Type 0 where
  pub config : Option (AppConfig N)
  pub config_mtime : Option ℕ
  pub proxy_valid : Bool
  pub attempt : ℕ → TunAttempt
  pub await_again : Outcome {0} Unit
  pub dns_bound : Bool
  pub setup_done : Bool
  pub resolver_bound : Bool
  pub resolver_configured : Bool

-- The state of an active session that decides on later commands.
pub record ActiveSession (N : Type 0) : Type 0 where
  pub config : AppConfig N
  pub config_mtime : Option ℕ

abbrev pub retry_effects : Bool → ℕ → List Effect
retry_effects busy attempt =
    if busy && ltb attempt max_tun_retries
    then clean_stale_resources ∷ sleep 1000 ∷ []
    else if ltb attempt max_tun_retries
    then clean_stale_resources ∷ sleep 1000 ∷ []
    else []

-- From the running TUN task on, with the answers of the system.
unfoldable pub enable_steps : {S : Type 0} → Bool → Bool → Bool → Bool → S → Run S
enable_steps dns_bound setup_done resolver_bound resolver_configured session = do
  perform (bind_dns ∷ [])
  or_fail dns_bound (cancel_tasks ∷ join_tun ∷ clean_stale_resources ∷ [])
  perform (setup ∷ [])
  or_fail setup_done (cancel_tasks ∷ join_tun ∷ cleanup ∷ clean_stale_resources ∷ [])
  perform (bind_resolver ∷ [])
  or_fail resolver_bound (cancel_tasks ∷ join_tun ∷ cleanup ∷ clean_stale_resources ∷ [])
  perform (configure_system_resolver ∷ [])
  or_fail resolver_configured (cancel_tasks ∷ join_tun ∷ cleanup ∷ clean_stale_resources ∷ [])
  perform (spawn_dns ∷ [])
  return session

-- The loop ends with the first task that runs.
abbrev pub or_next : Run Bool → Bool → Run Bool
or_next rest true = return true
or_next rest false = rest

module _ {N : Type 0} (w : World N) where
  -- One attempt: whether the task runs.
  abbrev pub run_attempt : ℕ → TunAttempt → Run Bool
  run_attempt n tun_unavailable = ([], absent)
  run_attempt n tun_ready = (spawn_tun ∷ sleep 150 ∷ [], returned true)
  run_attempt n (task_ended busy) = do
    perform (spawn_tun ∷ tun_finished ∷ cancel_tasks ∷ [])
    ([], w.await_again)
    perform (retry_effects busy n)
    return false
  run_attempt n (check_failed busy) = do
    perform (spawn_tun ∷ cancel_tasks ∷ join_tun ∷ retry_effects busy n)
    return false

  -- The loop over the attempts, with the attempts left and the number of the next one.
  unfoldable pub attach_tun : ℕ → ℕ → Run Bool
  attach_tun zero n = return false
  attach_tun (suc left) n =
      let rest = attach_tun left (suc n) in
      (do
        perform (clean_stale_resources ∷ sleep 100 ∷ ensure_persistent_tun ∷ [])
        run_attempt n (w.attempt n) >>= or_next rest)

  abbrev pub enable_routing : AppConfig N → Run (ActiveSession N)
  enable_routing config =
      enable_steps w.dns_bound w.setup_done w.resolver_bound w.resolver_configured
        (record { config = config; config_mtime = w.config_mtime })

  unfoldable pub start_with : AppConfig N → Run (ActiveSession N)
  start_with config = do
    attached ← attach_tun max_tun_retries 1
    or_fail attached (clean_stale_resources ∷ [])
    enable_routing config

  unfoldable pub start_proxy_session : Run (ActiveSession N)
  start_proxy_session = do
    config ← some_or_fail w.config
    or_fail w.proxy_valid []
    start_with config

-- How a task ends when the session is stopped.
pub data Shutdown : Type 0 where
  was_finished in_time timed_out : Shutdown

abbrev pub stop_dns : Shutdown → List Effect
stop_dns was_finished = dns_finished ∷ []
stop_dns in_time = join_dns ∷ []
stop_dns timed_out = abort_dns ∷ join_dns ∷ []

abbrev pub stop_tun : Shutdown → List Effect
stop_tun was_finished = tun_finished ∷ []
stop_tun in_time = join_tun ∷ []
stop_tun timed_out = abort_tun ∷ join_tun ∷ []

-- `ActiveSession::stop`
unfoldable pub stop_session : Shutdown → Shutdown → List Effect
stop_session dns tun =
    cancel_tasks ∷ (stop_dns dns ++ (stop_tun tun ++ cleanup ∷ clean_stale_resources ∷ []))

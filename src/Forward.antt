-- ===== src/Forward.antt =====
-- crates/ssh-rocket-runtime/src/forward.rs: the supervisor of a port forwarding and the manager.
pub mod Command
pub mod Quote
pub mod Backoff
pub mod Tasks
pub mod Running
mod Examples
use ssh_rocket.Base.{
  ◌+◌, ℕ, ◌*◌, min, Bool, true, false, not, List, [], ◌∷◌, ◌++◌, map, Option, none, some, ◌==◌,
  if◌then◌else◌,
}
use ssh_rocket.Config.{ForwardType, local, remote}
use ssh_rocket.Text.{Text, codes, str_eq}

abbrev pub initial_retry_delay_secs : ℕ
initial_retry_delay_secs = 1

abbrev pub max_retry_delay_secs : ℕ
max_retry_delay_secs = 30

abbrev pub u64_max : ℕ
u64_max = 18446744073709551615

unfoldable pub next_retry_delay : ℕ → ℕ
next_retry_delay current = min (min (current * 2) u64_max) max_retry_delay_secs

unfoldable pub forwarding_ready : Text → ForwardType → Text → Bool
forwarding_ready line local expected_remote_reply =
    str_eq line (codes "debug1: Entering interactive session.")
forwarding_ready line remote expected_remote_reply = str_eq line expected_remote_reply

-- `str::replace` of a character
unfoldable pub replace : ℕ → Text → Text → Text
replace x to [] = []
replace x to (c ∷ s) = (if c == x then to else c ∷ []) ++ replace x to s

unfoldable pub shell_quote : Text → Text
shell_quote value = codes "'" ++ (replace b'\'' (codes "'\"'\"'") value ++ codes "'")

pub data ForwardState : Type 0 where
  stopped connecting connected : ForwardState

-- What happens outside the loop in one turn: how the attempt to start ends, how the session ends,
-- and whether the pause before the next attempt ends.
pub data Pause : Type 0 where
  pause_cancelled pause_over : Pause

pub data Turn : Type 0 where
  attempt_cancelled : Turn
  attempt_failed : Pause → Turn
  session_cancelled : Turn
  session_exited : Pause → Turn

pub data Effect : Type 0 where
  send_state : ForwardState → Effect
  send_log : Effect
  stop_session : Effect
  sleep : ℕ → Effect

-- One turn of the loop: its effects, and the delay for the next turn if there is one.
abbrev pub After : Type 0
After = List Effect × Option ℕ

unfoldable pub pause : Pause → ℕ → After
pause pause_cancelled delay = (sleep delay ∷ [], none)
pause pause_over delay = (sleep delay ∷ [], some (next_retry_delay delay))

abbrev pub behind : List Effect → After → After
behind es (fs, next) = (es ++ fs, next)

unfoldable pub turn : ℕ → Turn → After
turn delay attempt_cancelled = (send_state connecting ∷ [], none)
turn delay (attempt_failed p) = behind (send_state connecting ∷ send_log ∷ []) (pause p delay)
turn delay session_cancelled =
    (send_state connecting ∷ send_state connected ∷ send_log ∷ stop_session ∷ [], none)
turn delay (session_exited p) =
    behind
      (send_state connecting
        ∷ send_state connected
        ∷ send_log
        ∷ send_state connecting
        ∷ send_log
        ∷ [])
      (pause p initial_retry_delay_secs)

-- The loop, over the turns that happen; it ends with the first turn in which it is cancelled.
unfoldable pub supervise : ℕ → List Turn → List Effect
supervise delay [] = []
supervise delay (t ∷ ts) =
    let after = turn delay t in
    after.0 ++ elim after.1 [ none ↦ [] | some next ↦ supervise next ts ]

unfoldable pub supervise_forward : List Turn → List Effect
supervise_forward ts = supervise initial_retry_delay_secs ts

-- The tasks by their rule; a task is a number, and `finished` says whether its handle is finished.
abbrev pub Tasks : Type 0
Tasks = List (ℕ × ℕ)

-- The manager, the tasks spawned so far and those cancelled and waited for.
pub record ForwardManager : Type 0 where
  pub tasks : Tasks
  pub spawned : ℕ
  pub cancelled : List ℕ

-- `HashMap::get`
unfoldable pub lookup : ℕ → Tasks → Option ℕ
lookup id [] = none
lookup id ((k, t) ∷ m) = if k == id then some t else lookup id m

-- `HashMap::remove`
unfoldable pub remove : ℕ → Tasks → Tasks
remove id [] = []
remove id ((k, t) ∷ m) = let rest = remove id m in if k == id then rest else (k, t) ∷ rest

abbrev pub new_manager : ForwardManager
new_manager = record { tasks = []; spawned = 0; cancelled = [] }

-- What `stop` does with what `remove` returns: the task is cancelled and waited for.
unfoldable pub stop_task : ForwardManager → ℕ → Option ℕ → ForwardManager
stop_task m rule_id none = m
stop_task m rule_id (some t) = record m {
  tasks = remove rule_id m.tasks;
  cancelled = t ∷ m.cancelled;
}

unfoldable pub stop : ForwardManager → ℕ → ForwardManager
stop m rule_id = stop_task m rule_id (lookup rule_id m.tasks)

unfoldable pub start : ForwardManager → ℕ → ForwardManager
start m rule_id =
    let s = stop m rule_id in
    record s { tasks = (rule_id, s.spawned) ∷ s.tasks; spawned = s.spawned + 1 }

abbrev pub tasks_of : Tasks → List ℕ
tasks_of m = map (λ e. e.1) m

unfoldable pub stop_all : ForwardManager → ForwardManager
stop_all m = record m { tasks = []; cancelled = tasks_of m.tasks ++ m.cancelled }

abbrev pub is_unfinished : (ℕ → Bool) → Option ℕ → Bool
is_unfinished finished none = false
is_unfinished finished (some t) = not (finished t)

unfoldable pub is_running : (ℕ → Bool) → ForwardManager → ℕ → Bool
is_running finished m rule_id = is_unfinished finished (lookup rule_id m.tasks)

unfoldable pub active_of : (ℕ → Bool) → Tasks → List ℕ
active_of finished [] = []
active_of finished ((k, t) ∷ m) =
    let rest = active_of finished m in if finished t then rest else k ∷ rest

unfoldable pub active_rule_ids : (ℕ → Bool) → ForwardManager → List ℕ
active_rule_ids finished m = active_of finished m.tasks

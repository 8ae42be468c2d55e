-- ===== src/Forward/Examples.antt =====
-- Tests of the supervisor and the manager, and the theorems at concrete inputs.
use ssh_rocket.Base.{arith, ◌≡◌, refl, false, not, true, List, [], ◌∷◌, some, ◌==◌, if◌then◌else◌}
use ssh_rocket.Config.{local}
use ssh_rocket.Text.{codes, str_eq}
use ssh_rocket.Forward.{
  Turn, attempt_failed, session_exited, session_cancelled, pause_over, supervise_forward, supervise,
  turn, pause, shell_quote, replace, ForwardManager, new_manager, start, stop, stop_task, lookup,
  remove, is_running, forwarding_ready, next_retry_delay, active_rule_ids, active_of,
}
use ssh_rocket.Forward.Backoff.{sleeps, pauses, supervise_forward-pauses}
use ssh_rocket.Forward.Quote.{plain, shell_word, shell_word-shell_quote}
use ssh_rocket.Forward.Running.{is_running-start}
use ssh_rocket.Forward.Tasks.{
  Call, call_start, call_stop, perform_all, IsManaged, perform_all-IsManaged,
}

abbrev turns : List Turn
turns =
    attempt_failed pause_over
    ∷ attempt_failed pause_over
    ∷ session_exited pause_over
    ∷ attempt_failed pause_over
    ∷ session_cancelled
    ∷ []

pauses_of_turns : sleeps (supervise_forward turns) ≡ 1 ∷ 2 ∷ 1 ∷ 2 ∷ []
unfolding supervise_forward supervise turn pause next_retry_delay
pauses_of_turns = refl

quoted : shell_quote (codes "it's") ≡ codes "'it'\"'\"'s'"
unfolding shell_quote replace
quoted = refl

ready : forwarding_ready (codes "debug1: Entering interactive session.") local [] ≡ true
unfolding forwarding_ready str_eq
ready = refl

supervise_forward-pauses_example : sleeps (supervise_forward turns) ≡ pauses 0 turns
supervise_forward-pauses_example = supervise_forward-pauses turns

shell_word-shell_quote_example :
    shell_word plain (shell_quote (codes "$(rm -rf ~); it's")) ≡ some (codes "$(rm -rf ~); it's")
shell_word-shell_quote_example = shell_word-shell_quote (codes "$(rm -rf ~); it's")

abbrev calls : List Call
calls = call_start 7 ∷ call_start 8 ∷ call_start 7 ∷ call_stop 8 ∷ []

abbrev manager : ForwardManager
manager = perform_all new_manager calls

manager_tasks : manager ≡ record { tasks = (7, 2) ∷ []; spawned = 3; cancelled = 1 ∷ 0 ∷ [] }
unfolding start stop stop_task lookup remove
manager_tasks = refl

active : active_rule_ids (λ t. false) manager ≡ 7 ∷ []
unfolding start stop stop_task lookup remove active_rule_ids active_of
active = refl

perform_all-IsManaged_example : IsManaged manager
perform_all-IsManaged_example = perform_all-IsManaged new_manager calls (refl, λ t lt. ground arith)

is_running-start_example :
    is_running (λ t. false) (start manager 8) 7
    ≡ (if 8 == 7 then not false else is_running (λ t. false) manager 7)
is_running-start_example = is_running-start (λ t. false) manager 8 7

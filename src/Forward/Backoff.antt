-- ===== src/Forward/Backoff.antt =====
-- The pauses between the attempts of the supervisor.
use ssh_rocket.Base.{ℕ, suc, ◌^◌, min, ◌≡◌, refl, List, [], ◌∷◌, arith}
use ssh_rocket.Forward.{
  Turn, attempt_cancelled, attempt_failed, session_cancelled, session_exited, pause_cancelled,
  pause_over, pause, turn, Effect, send_state, send_log, stop_session, sleep, next_retry_delay,
  supervise, supervise_forward,
}

abbrev pub sleeps : List Effect → List ℕ
sleeps [] = []
sleeps (sleep n ∷ es) = n ∷ sleeps es
sleeps (send_state s ∷ es) = sleeps es
sleeps (send_log ∷ es) = sleeps es
sleeps (stop_session ∷ es) = sleeps es

-- The pause after `k` failures in a row.
abbrev pub backoff : ℕ → ℕ
backoff k = min (2 ^ k) 30

-- The pauses by counting the failures since the start or the last session.
abbrev pub pauses : ℕ → List Turn → List ℕ
pauses k [] = []
pauses k (attempt_cancelled ∷ ts) = []
pauses k (attempt_failed pause_cancelled ∷ ts) = backoff k ∷ []
pauses k (attempt_failed pause_over ∷ ts) = backoff k ∷ pauses (suc k) ts
pauses k (session_cancelled ∷ ts) = []
pauses k (session_exited pause_cancelled ∷ ts) = 1 ∷ []
pauses k (session_exited pause_over ∷ ts) = 1 ∷ pauses 1 ts

next_retry_delay-backoff : (k : ℕ) → next_retry_delay (backoff k) ≡ backoff (suc k)
unfolding next_retry_delay
next_retry_delay-backoff k = omega arith

sleeps-supervise : (k : ℕ) (ts : List Turn) → sleeps (supervise (backoff k) ts) ≡ pauses k ts
unfolding supervise turn pause
sleeps-supervise k [] = refl
sleeps-supervise k (attempt_cancelled ∷ ts) = refl
sleeps-supervise k (attempt_failed pause_cancelled ∷ ts) = refl
sleeps-supervise k (attempt_failed pause_over ∷ ts) =
    rw (next_retry_delay-backoff k, sleeps-supervise (suc k) ts) refl
sleeps-supervise k (session_cancelled ∷ ts) = refl
sleeps-supervise k (session_exited pause_cancelled ∷ ts) = refl
sleeps-supervise k (session_exited pause_over ∷ ts) =
    rw (next_retry_delay-backoff 0, sleeps-supervise 1 ts) refl

-- For every run of the supervisor, it pauses for 1 second after a session that ended by itself,
-- and after a failed attempt for the least of 2 ^ k and 30 seconds, where k is the number of
-- pauses since the start, or since the end of the last such session with the pause behind it
-- counted.
pub supervise_forward-pauses : (ts : List Turn) → sleeps (supervise_forward ts) ≡ pauses 0 ts
unfolding supervise_forward
supervise_forward-pauses ts = sleeps-supervise 0 ts

-- ===== src/Helper/Ledger.antt =====
-- Which tasks are held and what is set up after some effects, and that a start that fails leaves
-- nothing. A task is held from its spawning until it is awaited, is aborted, or is found to have
-- ended; it may end by itself while it is held.
use ssh_rocket.Base.{
  append-nil, ℕ, zero, suc, ◌+◌, ◌-◌, ◌≡◌, refl, ◌∙◌, Bool, true, false, List, [], ◌∷◌, ◌++◌,
  Option, none, some, arith,
}
use ssh_rocket.Config.{AppConfig}
use ssh_rocket.Outcome.{Outcome, returned, absent, panicked, exhausted}
use ssh_rocket.Helper.{
  or_next, Effect, clean_stale_resources, ensure_persistent_tun, sleep, spawn_tun, join_tun,
  tun_finished, spawn_dns, join_dns, dns_finished, cancel_tasks, setup, cleanup, Run, behind, ◌>>=◌,
  ◌>>◌, return, perform, or_fail, some_or_fail, World, TunAttempt, tun_unavailable, tun_ready,
  task_ended, check_failed, run_attempt, retry_effects, attach_tun, enable_routing, enable_steps,
  start_with, start_proxy_session,
}

-- The tasks that are held, and whether routes and rules may be set up.
pub record Ledger : Type 0 where
  pub tun : ℕ
  pub dns : ℕ
  pub routing : Bool

abbrev pub off : Ledger
off = record { tun = 0; dns = 0; routing = false }

abbrev pub on : Ledger
on = record { tun = 1; dns = 1; routing = true }

-- A task leaves the ledger when it is awaited or aborted, or found to have ended, not when it ends.
-- Both kinds of cleaning remove the routes and rules of the program.
abbrev pub enter : Effect → Ledger → Ledger
enter spawn_tun l = record l { tun = l.tun + 1 }
enter join_tun l = record l { tun = l.tun - 1 }
enter tun_finished l = record l { tun = l.tun - 1 }
enter spawn_dns l = record l { dns = l.dns + 1 }
enter join_dns l = record l { dns = l.dns - 1 }
enter dns_finished l = record l { dns = l.dns - 1 }
enter setup l = record l { routing = true }
enter cleanup l = record l { routing = false }
enter clean_stale_resources l = record l { routing = false }
enter _ l = l

unfoldable pub post : List Effect → Ledger → Ledger
post [] l = l
post (e ∷ es) l = post es (enter e l)

pub post-append : (es fs : List Effect) (l : Ledger) → post (es ++ fs) l ≡ post fs (post es l)
unfolding post
post-append [] fs l = refl
post-append (e ∷ es) fs l = post-append es fs (enter e l)

-- What is known behind an action: a ledger for each result, and one for an error.
abbrev pub Leaves : {A : Type 0} → (A → Ledger) → Ledger → Outcome A → Ledger → Type 0
Leaves done failed (returned a) l = l ≡ done a
Leaves done failed absent l = l ≡ failed
Leaves done failed panicked l = Unit
Leaves done failed exhausted l = Unit

abbrev pub LeavesFrom : {A : Type 0} → Ledger → Run A → (A → Ledger) → Ledger → Type 0
LeavesFrom l m done failed = Leaves done failed m.1 (post m.0 l)

Leaves-behind :
    {A : Type 0} (es : List Effect) (m : Run A) (l : Ledger) (done : A → Ledger) (failed : Ledger)
    → LeavesFrom (post es l) m done failed
    → LeavesFrom l (behind es m) done failed
Leaves-behind es (fs, returned a) l done failed h = post-append es fs l ∙ h
Leaves-behind es (fs, absent) l done failed h = post-append es fs l ∙ h
Leaves-behind es (fs, panicked) l done failed h = tt
Leaves-behind es (fs, exhausted) l done failed h = tt

pub Leaves-bind :
    {A B : Type 0} (m : Run A) (f : A → Run B) (l : Ledger) (mid : A → Ledger) (done : B → Ledger)
    (failed : Ledger)
    → LeavesFrom l m mid failed
    → ((a : A) → LeavesFrom (mid a) (f a) done failed)
    → LeavesFrom l (m >>= f) done failed
Leaves-bind (es, returned a) f l mid done failed h k =
    Leaves-behind es (f a) l done failed (rw h (k a))
Leaves-bind (es, absent) f l mid done failed h k = h
Leaves-bind (es, panicked) f l mid done failed h k = tt
Leaves-bind (es, exhausted) f l mid done failed h k = tt

retry_off : (busy : Bool) (n : ℕ) → post (retry_effects busy n) off ≡ off
unfolding post
retry_off busy n = ground arith

abbrev running : Bool → Ledger
running true = record { tun = 1; dns = 0; routing = false }
running false = off

enable_steps-Leaves :
    {S : Type 0} (a b c d : Bool) (s : S)
    → LeavesFrom (running true) (enable_steps a b c d s) (λ s. on) off
unfolding enable_steps post
enable_steps-Leaves false b c d s = refl
enable_steps-Leaves true false c d s = refl
enable_steps-Leaves true true false d s = refl
enable_steps-Leaves true true true false s = refl
enable_steps-Leaves true true true true s = refl

or_next-Leaves :
    (rest : Run Bool)
    → LeavesFrom off rest running off
    → (ran : Bool) → LeavesFrom (running ran) (or_next rest ran) running off
unfolding post
or_next-Leaves rest h true = refl
or_next-Leaves rest h false = h

module _ {N : Type 0} (w : World N) where
  await_again-Leaves :
      (o : Outcome {0} Unit) (busy : Bool) (n : ℕ)
      → LeavesFrom off (([], o) >> (perform (retry_effects busy n) >> return false)) running off
  unfolding post
  await_again-Leaves (returned tt) busy n = rw append-nil (retry_off busy n)
  await_again-Leaves absent busy n = refl
  await_again-Leaves panicked busy n = tt
  await_again-Leaves exhausted busy n = tt

  run_attempt-Leaves : (n : ℕ) (a : TunAttempt) → LeavesFrom off (run_attempt w n a) running off
  unfolding post
  run_attempt-Leaves n tun_unavailable = refl
  run_attempt-Leaves n tun_ready = refl
  run_attempt-Leaves n (task_ended busy) =
      Leaves-behind (spawn_tun ∷ tun_finished ∷ cancel_tasks ∷ [])
        (([], w.await_again) >> (perform (retry_effects busy n) >> return false)) off running off
        (await_again-Leaves w.await_again busy n)
  run_attempt-Leaves n (check_failed busy) = rw append-nil (retry_off busy n)

  attach_tun-Leaves : (left n : ℕ) → LeavesFrom off (attach_tun w left n) running off
  unfolding attach_tun post
  attach_tun-Leaves zero n = refl
  attach_tun-Leaves (suc left) n =
      Leaves-behind (clean_stale_resources ∷ sleep 100 ∷ ensure_persistent_tun ∷ [])
        (run_attempt w n (w.attempt n) >>= or_next (attach_tun w left (suc n))) off running off
        (Leaves-bind (run_attempt w n (w.attempt n)) (or_next (attach_tun w left (suc n))) off
          running running off (run_attempt-Leaves n (w.attempt n))
          (or_next-Leaves (attach_tun w left (suc n)) (attach_tun-Leaves left (suc n))))

  or_fail_attached :
      (attached : Bool) (config : AppConfig N)
      → LeavesFrom
          (running attached)
          (or_fail attached (clean_stale_resources ∷ []) >> enable_routing w config)
          (λ s. on)
          off
  unfolding post
  or_fail_attached true config =
      Leaves-behind [] (enable_routing w config) (running true) (λ s. on) off
        (enable_steps-Leaves w.dns_bound w.setup_done w.resolver_bound w.resolver_configured
          (record { config = config; config_mtime = w.config_mtime }))
  or_fail_attached false config = refl

  start_with-Leaves : (config : AppConfig N) → LeavesFrom off (start_with w config) (λ s. on) off
  unfolding start_with
  start_with-Leaves config =
      Leaves-bind (attach_tun w 3 1)
        (λ attached. or_fail attached (clean_stale_resources ∷ []) >> enable_routing w config) off
        running (λ s. on) off (attach_tun-Leaves 3 1) (λ attached. or_fail_attached attached config)

  checked_start :
      (valid : Bool) (config : Option (AppConfig N))
      → LeavesFrom off
          (some_or_fail config >>= λ c. or_fail valid [] >> start_with w c)
          (λ s. on)
          off
  unfolding post
  checked_start valid none = refl
  checked_start true (some c) =
      Leaves-behind [] (or_fail true [] >> start_with w c) off (λ s. on) off
        (Leaves-behind [] (start_with w c) off (λ s. on) off (start_with-Leaves c))
  checked_start false (some c) = refl

  -- Whatever the system answers, a start that ends with an error leaves no task running and
  -- nothing set up, and a start that succeeds leaves one TUN task, one DNS task and the routes.
  pub start_proxy_session-Leaves : LeavesFrom off (start_proxy_session w) (λ s. on) off
  unfolding start_proxy_session
  start_proxy_session-Leaves = checked_start w.proxy_valid w.config

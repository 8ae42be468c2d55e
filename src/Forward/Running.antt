-- ===== src/Forward/Running.antt =====
-- Starting and stopping a rule changes what is said of that rule, and of no other.
use ssh_rocket.Base.{
  sym, ℕ, ◌≡◌, refl, ap, ◌∙◌, Bool, false, not, [], ◌∷◌, Option, none, some, ◌==◌, if◌then◌else◌,
  Bool-cases, inl, inr, arith, ==_iff,
}
use ssh_rocket.Forward.{
  Tasks, ForwardManager, lookup, remove, stop_task, stop, start, is_running, is_unfinished,
}

lookup-remove :
    (k id : ℕ) (m : Tasks) → lookup k (remove id m) ≡ (if id == k then none else lookup k m)
unfolding lookup remove
lookup-remove k id [] = ground arith
lookup-remove k id ((j, t) ∷ m) = ground (arith, lookup-remove k id m)

lookup-stop_task :
    (m : ForwardManager) (k id : ℕ) (o : Option ℕ)
    → lookup id m.tasks ≡ o
    → lookup k (stop_task m id o).tasks ≡ (if id == k then none else lookup k m.tasks)
unfolding stop_task
lookup-stop_task m k id none e = elim (Bool-cases (id == k)) [
  | inl f ↦ rw (f, sym ((==_iff id k).0 f)) e
  | inr f ↦ rw f refl
]
lookup-stop_task m k id (some t) e = lookup-remove k id m.tasks

unfinished-if :
    (finished : ℕ → Bool) (b : Bool) (o : Option ℕ)
    → is_unfinished finished (if b then none else o)
      ≡ (if b then false else is_unfinished finished o)
unfinished-if finished b o = ground arith

lookup-stop :
    (m : ForwardManager) (k id : ℕ)
    → lookup k (stop m id).tasks ≡ (if id == k then none else lookup k m.tasks)
unfolding stop
lookup-stop m k id = lookup-stop_task m k id (lookup id m.tasks) refl

-- After stop for a rule, is_running denies that rule, and says of each other rule what it said
-- before.
pub is_running-stop :
    (finished : ℕ → Bool) (m : ForwardManager) (id k : ℕ)
    → is_running finished (stop m id) k ≡ (if id == k then false else is_running finished m k)
unfolding is_running
is_running-stop finished m id k =
    ap (is_unfinished finished) (lookup-stop m k id)
    ∙ unfinished-if finished (id == k) (lookup k m.tasks)

spawned-stop_task :
    (m : ForwardManager) (id : ℕ) (o : Option ℕ) → (stop_task m id o).spawned ≡ m.spawned
unfolding stop_task
spawned-stop_task m id none = refl
spawned-stop_task m id (some t) = refl

-- After start for a rule, is_running says of that rule whether the task spawned then is not
-- finished, and of each other rule what it said before.
pub is_running-start :
    (finished : ℕ → Bool) (m : ForwardManager) (id k : ℕ)
    → is_running finished (start m id) k
      ≡ (if id == k then not (finished m.spawned) else is_running finished m k)
unfolding is_running start lookup
is_running-start finished m id k = elim (Bool-cases (id == k)) [
  | inl e ↦
      rw e (ap (λ t. not (finished t)) (unfold stop in spawned-stop_task m id (lookup id m.tasks)))
  | inr e ↦ rw e (ap (is_unfinished finished) (rw (lookup-stop m k id, e) refl))
]

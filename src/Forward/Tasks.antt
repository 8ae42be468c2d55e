-- ===== src/Forward/Tasks.antt =====
-- No supervisor is lost: each task that was spawned is in the map or has been cancelled.
use ssh_rocket.Base.{
  ==_iff, sym, ℕ, ◌+◌, ◌<◌, ◌≡◌, refl, Bool, true, false, not, ◌&&◌, ◌||◌, List, [], ◌∷◌, Option,
  none, some, ◌==◌, Bool-cases, inl, inr, arith, any, any-append,
}
use ssh_rocket.Forward.{
  stop_task, Tasks, tasks_of, ForwardManager, lookup, remove, start, stop, stop_all,
}

abbrev is_task : ℕ → ℕ → Bool
is_task t u = u == t

-- A task is in the map.
abbrev pub holds : ℕ → Tasks → Bool
holds t [] = false
holds t ((k, u) ∷ m) = u == t || holds t m

-- A rule has a task.
abbrev pub has : ℕ → Tasks → Bool
has id [] = false
has id ((k, t) ∷ m) = k == id || has id m

-- No rule has two tasks.
abbrev pub distinct : Tasks → Bool
distinct [] = true
distinct ((k, t) ∷ m) = not (has k m) && distinct m

remove_absent : (id : ℕ) (m : Tasks) → has id m ≡ false → remove id m ≡ m
unfolding remove
remove_absent id [] h = refl
remove_absent id ((k, t) ∷ m) h = ground (arith, remove_absent id m)

has-remove : (id : ℕ) (m : Tasks) → has id (remove id m) ≡ false
unfolding remove
has-remove id [] = refl
has-remove id ((k, t) ∷ m) = ground (arith, has-remove id m)

has-remove_other : (k id : ℕ) (m : Tasks) → has k m ≡ false → has k (remove id m) ≡ false
unfolding remove
has-remove_other k id [] h = refl
has-remove_other k id ((j, t) ∷ m) h = ground (arith, has-remove_other k id m)

distinct-remove : (id : ℕ) (m : Tasks) → distinct m ≡ true → distinct (remove id m) ≡ true
unfolding remove
distinct-remove id [] h = refl
distinct-remove id ((k, t) ∷ m) h = ground (arith, distinct-remove id m, has-remove_other k id m)

has-lookup-none : (id : ℕ) (m : Tasks) → lookup id m ≡ none → has id m ≡ false
unfolding lookup
has-lookup-none id [] h = refl
has-lookup-none id ((k, t) ∷ m) h = ground (arith, has-lookup-none id m)

has-twice :
    (k id w : ℕ) (m : Tasks) → (k == id) ≡ true → distinct ((k, w) ∷ m) ≡ true → has id m ≡ false
has-twice k id w m e d = rw (sym ((==_iff k id).0 e)) (ground arith)

-- Only the task that was looked up leaves the map.
holds-remove :
    (t id u : ℕ) (m : Tasks)
    → distinct m ≡ true
    → lookup id m ≡ some u
    → holds t m ≡ true
    → (u == t || holds t (remove id m)) ≡ true
unfolding lookup remove
holds-remove t id u [] d l h = ground arith
holds-remove t id u ((k, w) ∷ m) d l h = elim (Bool-cases (k == id)) [
  | inl e ↦ ground (arith, e, remove_absent id m (has-twice k id w m e d))
  | inr e ↦ ground (arith, e, holds-remove t id u m)
]

abbrev pub IsManaged : ForwardManager → Type 0
IsManaged m =
    (distinct m.tasks ≡ true)
    × ((t : ℕ) → t < m.spawned → (holds t m.tasks || any (is_task t) m.cancelled) ≡ true)

stop_task-IsManaged :
    (m : ForwardManager) (id : ℕ) (o : Option ℕ)
    → lookup id m.tasks ≡ o
    → IsManaged m
    → IsManaged (stop_task m id o)
unfolding stop_task
stop_task-IsManaged m id none e c = c
stop_task-IsManaged m id (some u) e (d, kept) = (
  distinct-remove id m.tasks d,
  λ t lt. ground (arith, kept t lt, holds-remove t id u m.tasks d e),
)

stop-IsManaged : (m : ForwardManager) (id : ℕ) → IsManaged m → IsManaged (stop m id)
unfolding stop
stop-IsManaged m id c = stop_task-IsManaged m id (lookup id m.tasks) refl c

has-stop_task :
    (m : ForwardManager) (id : ℕ) (o : Option ℕ)
    → lookup id m.tasks ≡ o
    → has id (stop_task m id o).tasks ≡ false
unfolding stop_task
has-stop_task m id none e = has-lookup-none id m.tasks e
has-stop_task m id (some u) e = has-remove id m.tasks

spawn-IsManaged :
    (m : ForwardManager) (id : ℕ)
    → has id m.tasks ≡ false
    → IsManaged m
    → IsManaged (record m { tasks = (id, m.spawned) ∷ m.tasks; spawned = m.spawned + 1 })
spawn-IsManaged m id h (d, kept) = (
  rw (h, d) refl,
  λ t lt. elim (Bool-cases (m.spawned == t)) [
    | inl e ↦ rw e refl
    | inr e ↦ rw e (kept t (ground arith))
  ],
)

start-IsManaged : (m : ForwardManager) (id : ℕ) → IsManaged m → IsManaged (start m id)
unfolding start
start-IsManaged m id c =
    spawn-IsManaged (stop m id) id (unfold stop in has-stop_task m id (lookup id m.tasks) refl)
      (stop-IsManaged m id c)

holds-tasks_of : (t : ℕ) (m : Tasks) → any (is_task t) (tasks_of m) ≡ holds t m
holds-tasks_of t [] = refl
holds-tasks_of t ((k, u) ∷ m) = rw (holds-tasks_of t m) refl

stop_all-IsManaged : (m : ForwardManager) → IsManaged m → IsManaged (stop_all m)
unfolding stop_all
stop_all-IsManaged m (d, kept) =
    (refl, λ t lt. rw (any-append (is_task t), holds-tasks_of t m.tasks) (kept t lt))

-- The calls of the manager.
pub data Call : Type 0 where
  call_start call_stop : ℕ → Call
  call_stop_all : Call

abbrev pub perform : ForwardManager → Call → ForwardManager
perform m (call_start id) = start m id
perform m (call_stop id) = stop m id
perform m call_stop_all = stop_all m

abbrev pub perform_all : ForwardManager → List Call → ForwardManager
perform_all m [] = m
perform_all m (c ∷ cs) = perform_all (perform m c) cs

perform-IsManaged : (m : ForwardManager) (c : Call) → IsManaged m → IsManaged (perform m c)
perform-IsManaged m (call_start id) c = start-IsManaged m id c
perform-IsManaged m (call_stop id) c = stop-IsManaged m id c
perform-IsManaged m call_stop_all c = stop_all-IsManaged m c

-- If a manager has at most one task for each rule, and each task spawned so far is in its map or
-- has been cancelled, then this holds after any sequence of start, stop and stop_all.
pub perform_all-IsManaged :
    (m : ForwardManager) (cs : List Call) → IsManaged m → IsManaged (perform_all m cs)
perform_all-IsManaged m [] c = c
perform_all-IsManaged m (op ∷ cs) c =
    perform_all-IsManaged (perform m op) cs (perform-IsManaged m op c)

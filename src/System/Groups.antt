-- ===== src/System/Groups.antt =====
-- Where each process is after the moves.
use ssh_rocket.Base.{
  ◌&&◌, ℕ, ◌≡◌, refl, ap, ◌∙◌, Bool, true, List, [], ◌∷◌, ◌++◌, Option, none, some, ◌==◌,
  if◌then◌else◌, arith, ==_iff,
}
use ssh_rocket.Config.{RuleAction, direct, proxy, block, AppRule}
use ssh_rocket.System.Apps.{
  Groups, group_of, Move, restore, place, is_in, is_none, restore_moves, place_moves, assign_apps,
  desired_pids, app_map, Process,
}
use ssh_rocket.Text.{Text}

-- The group of one process after moves that all succeed, from its group before them.
abbrev pub after : ℕ → Option RuleAction → List Move → Option RuleAction
after pid g [] = g
after pid g (restore q ∷ ms) = after pid (if q == pid then none else g) ms
after pid g (place q a ∷ ms) = after pid (if q == pid then some a else g) ms

after-append :
    (pid : ℕ) (g : Option RuleAction) (ms ns : List Move)
    → after pid g (ms ++ ns) ≡ after pid (after pid g ms) ns
after-append pid g [] ns = refl
after-append pid g (restore q ∷ ms) ns = after-append pid (if q == pid then none else g) ms ns
after-append pid g (place q a ∷ ms) ns = after-append pid (if q == pid then some a else g) ms ns

is_in→eq : (a : RuleAction) (o : Option RuleAction) → is_in a o ≡ true → o ≡ some a
is_in→eq direct (some direct) h = refl
is_in→eq proxy (some proxy) h = refl
is_in→eq block (some block) h = refl
is_in→eq _ _ h = ground arith

-- Restoring takes a process out if it is listed and not desired.
after-restore_moves :
    (pid : ℕ) (desired current : Groups) (g : Option RuleAction)
    → after pid g (restore_moves desired current) ≡ (
        if is_none (group_of pid current)
        then g
        else if is_none (group_of pid desired)
        then none
        else g)
unfolding restore_moves group_of
after-restore_moves pid desired [] g = refl
after-restore_moves pid desired ((q, a) ∷ current) g = ground (
  arith,
  ==_iff q pid,
  ap (λ x. group_of x desired) {x = q} {y = pid},
  after-restore_moves pid desired current g,
  after-restore_moves pid desired current none,
)

-- No process is listed twice.
abbrev pub distinct : Groups → Bool
distinct [] = true
distinct ((q, a) ∷ g) = is_none (group_of q g) && distinct g

after-place_moves_absent :
    (pid : ℕ) (current desired : Groups) (g : Option RuleAction)
    → is_none (group_of pid desired) ≡ true
    → after pid g (place_moves current desired) ≡ g
unfolding place_moves group_of
after-place_moves_absent pid current [] g h = refl
after-place_moves_absent pid current ((q, a) ∷ desired) g h =
    ground (arith, after-place_moves_absent pid current desired g)

after-place_moves :
    (pid : ℕ) (current desired : Groups) (a : RuleAction)
    → distinct desired ≡ true
    → group_of pid desired ≡ some a
    → after pid (group_of pid current) (place_moves current desired) ≡ some a
unfolding place_moves group_of
after-place_moves pid current [] a d h = ground arith
after-place_moves pid current ((q, b) ∷ desired) a d h = ground (
  arith,
  ==_iff q pid,
  ap (λ x. group_of x current) {x = q} {y = pid},
  ap (λ x. group_of x desired) {x = q} {y = pid},
  is_in→eq b (group_of q current),
  after-place_moves_absent pid current desired (group_of pid current),
  after-place_moves_absent pid current desired (some b),
  after-place_moves pid current desired a,
)

restored_kept :
    (pid : ℕ) (desired current : Groups) (a : RuleAction)
    → group_of pid desired ≡ some a
    → after pid (group_of pid current) (restore_moves desired current) ≡ group_of pid current
restored_kept pid desired current a h =
    after-restore_moves pid desired current (group_of pid current) ∙ ground (arith, h)

after-both :
    (pid : ℕ) (desired current : Groups) (o : Option RuleAction)
    → distinct desired ≡ true
    → group_of pid desired ≡ o
    → after pid
        (group_of pid current)
        (restore_moves desired current ++ place_moves current desired)
      ≡ o
after-both pid desired current none d h =
    after-append pid (group_of pid current) (restore_moves desired current)
      (place_moves current desired)
    ∙ after-place_moves_absent pid current desired _ (rw h refl)
    ∙ after-restore_moves pid desired current (group_of pid current)
    ∙ ground (arith, h)
after-both pid desired current (some a) d h =
    after-append pid (group_of pid current) (restore_moves desired current)
      (place_moves current desired)
    ∙ rw (restored_kept pid desired current a h) (after-place_moves pid current desired a d h)

-- If no process is listed twice among those that shall be in a group, then after all moves of
-- assign_apps every process is in the group it shall be in, and in none if it shall be in none.
pub after-assign_apps :
    (show : ℕ → Text) (uid : ℕ) (rules : List AppRule) (processes : List Process) (current : Groups)
    (pid : ℕ)
    → distinct (desired_pids show uid (app_map rules []) processes) ≡ true
    → after pid (group_of pid current) (assign_apps show uid rules processes current)
      ≡ group_of pid (desired_pids show uid (app_map rules []) processes)
unfolding assign_apps
after-assign_apps show uid rules processes current pid d =
    after-both pid (desired_pids show uid (app_map rules []) processes) current _ d refl

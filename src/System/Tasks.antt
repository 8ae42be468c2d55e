-- ===== src/System/Tasks.antt =====
-- Commands that are run one after the other: `command(..).await?` stops at a failure, and
-- `let _ = command(..).await` does not.
use ssh_rocket.Base.{
  append-nil, ◌≡◌, refl, ◌∙◌, Bool, true, false, List, [], ◌∷◌, ◌++◌, append_assoc, arith,
  if◌then◌else◌, inl, inr, Bool-cases,
}

pub data Task (C : Type 0) : Type 0 where
  must attempt : C → Task C
  give_up : Task C

module _ {C : Type 0} where
  -- The commands that a list of tasks comes to if no task fails.
  abbrev pub commands_of : List (Task C) → List C
  commands_of [] = []
  commands_of (must c ∷ ts) = c ∷ commands_of ts
  commands_of (attempt c ∷ ts) = c ∷ commands_of ts
  commands_of (give_up ∷ ts) = commands_of ts

  abbrev pub all_must : List C → List (Task C)
  all_must [] = []
  all_must (c ∷ cs) = must c ∷ all_must cs

  -- What has been run so far decides whether the last command succeeds. The result is what was run,
  -- and whether all tasks were done.
  unfoldable pub execute : (List C → Bool) → List C → List (Task C) → List C × Bool
  execute ok done [] = (done, true)
  execute ok done (give_up ∷ ts) = (done, false)
  execute ok done (attempt c ∷ ts) = execute ok (done ++ c ∷ []) ts
  execute ok done (must c ∷ ts) =
      let rest = execute ok (done ++ c ∷ []) ts in
      if ok (done ++ c ∷ []) then rest else (done ++ c ∷ [], false)

  -- A run that does all tasks has run all commands.
  pub execute-commands_of :
      (ok : List C → Bool) (done : List C) (ts : List (Task C))
      → (execute ok done ts).1 ≡ true
      → (execute ok done ts).0 ≡ done ++ commands_of ts
  unfolding execute
  execute-commands_of ok done [] h = rw append-nil refl
  execute-commands_of ok done (give_up ∷ ts) h = ground arith
  execute-commands_of ok done (attempt c ∷ ts) h =
      execute-commands_of ok (done ++ c ∷ []) ts h ∙ append_assoc done (c ∷ []) (commands_of ts)
  execute-commands_of ok done (must c ∷ ts) h = elim (Bool-cases (ok (done ++ c ∷ []))) [
    | inl e ↦ rw e (
        execute-commands_of ok (done ++ c ∷ []) ts (ground (arith, e))
        ∙ append_assoc done (c ∷ []) (commands_of ts))
    | inr e ↦ ground (arith, e)
  ]

  pub commands_of-append :
      (ts us : List (Task C)) → commands_of (ts ++ us) ≡ commands_of ts ++ commands_of us
  commands_of-append [] us = refl
  commands_of-append (must c ∷ ts) us = rw (commands_of-append ts us) refl
  commands_of-append (attempt c ∷ ts) us = rw (commands_of-append ts us) refl
  commands_of-append (give_up ∷ ts) us = commands_of-append ts us

  pub commands_of-all_must : (cs : List C) → commands_of (all_must cs) ≡ cs
  commands_of-all_must [] = refl
  commands_of-all_must (c ∷ cs) = rw (commands_of-all_must cs) refl

  -- A run that does all tasks has done the last ones from some point on.
  pub execute-append :
      (ok : List C → Bool) (done : List C) (ts us : List (Task C))
      → (execute ok done (ts ++ us)).1 ≡ true
      → (mid : List C) × ((execute ok mid us).1 ≡ true)
  unfolding execute
  execute-append ok done [] us h = (done, h)
  execute-append ok done (give_up ∷ ts) us h = ground arith
  execute-append ok done (attempt c ∷ ts) us h = execute-append ok (done ++ c ∷ []) ts us h
  execute-append ok done (must c ∷ ts) us h = elim (Bool-cases (ok (done ++ c ∷ []))) [
    | inl e ↦ execute-append ok (done ++ c ∷ []) ts us (rw e at h)
    | inr e ↦ ground (arith, e)
  ]

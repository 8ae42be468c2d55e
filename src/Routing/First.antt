-- ===== src/Routing/First.antt =====
-- The first rule that passes a test, with its position: how two such searches join.
use ssh_rocket.Base.{
  ℕ, suc, ◌≤◌, ◌≡◌, refl, Bool, ◌||◌, List, [], ◌∷◌, Option, none, some, if◌then◌else◌, find?,
  Bool-cases, inl, inr, arith,
}
use ssh_rocket.Config.{RuleAction, DomainRule}
use ssh_rocket.Routing.{Entry, consider, entry_action}
use ssh_rocket.Routing.Spec.{rule_action}

-- The first rule that passes a test, with its position.
abbrev pub first_at : (DomainRule → Bool) → ℕ → List DomainRule → Option Entry
first_at p i [] = none
first_at p i (r ∷ rs) = if p r then some (i, r.action) else first_at p (suc i) rs

pub entry_action-first_at :
    (p : DomainRule → Bool) (i : ℕ) (rs : List DomainRule)
    → entry_action (first_at p i rs) ≡ rule_action (find? p rs)
entry_action-first_at p i [] = refl
entry_action-first_at p i (r ∷ rs) = ground (arith, entry_action-first_at p (suc i) rs)

pub first_at-ext :
    (p q : DomainRule → Bool)
    → ((r : DomainRule) → p r ≡ q r)
    → (i : ℕ) (rs : List DomainRule) → first_at p i rs ≡ first_at q i rs
first_at-ext p q h i [] = refl
first_at-ext p q h i (r ∷ rs) = rw (h r, first_at-ext p q h (suc i) rs)

-- Positions are at least the first one, and below the last.
abbrev pub IsFrom : ℕ → Option Entry → Type 0
IsFrom i none = Unit
IsFrom i (some (j, a)) = i ≤ j

IsFrom-mono : (i : ℕ) (e : Option Entry) → IsFrom (suc i) e → IsFrom i e
IsFrom-mono i none h = tt
IsFrom-mono i (some (j, a)) h = omega arith

pub first_at-IsFrom :
    (p : DomainRule → Bool) (i : ℕ) (rs : List DomainRule) → IsFrom i (first_at p i rs)
first_at-IsFrom p i [] = tt
first_at-IsFrom p i (r ∷ rs) = elim (Bool-cases (p r)) [
  | inl e ↦ rw e (omega arith)
  | inr e ↦ rw e (IsFrom-mono i (first_at p (suc i) rs) (first_at-IsFrom p (suc i) rs))
]

consider-from_right :
    (i : ℕ) (a : RuleAction) (e : Option Entry)
    → IsFrom (suc i) e
    → consider (some (i, a)) e ≡ some (i, a)
unfolding consider
consider-from_right i a none h = refl
consider-from_right i a (some (j, b)) h = ground arith

consider-from_left :
    (i : ℕ) (a : RuleAction) (e : Option Entry)
    → IsFrom (suc i) e
    → consider e (some (i, a)) ≡ some (i, a)
unfolding consider
consider-from_left i a none h = refl
consider-from_left i a (some (j, b)) h = ground arith

consider_same : (i : ℕ) (a : RuleAction) → consider (some (i, a)) (some (i, a)) ≡ some (i, a)
unfolding consider
consider_same i a = ground arith

-- The better of two first rules is the first rule that passes either test.
pub consider-first_at :
    (p q : DomainRule → Bool) (i : ℕ) (rs : List DomainRule)
    → consider (first_at p i rs) (first_at q i rs) ≡ first_at (λ r. p r || q r) i rs
consider-first_at p q i [] = unfold consider in refl
consider-first_at p q i (r ∷ rs) = ground (
  arith,
  consider-first_at p q (suc i) rs,
  consider_same i r.action,
  consider-from_right i r.action (first_at q (suc i) rs) (first_at-IsFrom q (suc i) rs),
  consider-from_left i r.action (first_at p (suc i) rs) (first_at-IsFrom p (suc i) rs),
)

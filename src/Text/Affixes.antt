-- ===== src/Text/Affixes.antt =====
-- The affix tests say what they should: the text splits around the pattern.
use ssh_rocket.Base.{ℕ, ◌≡◌, refl, ap, ◌↔◌, true, [], ◌∷◌, ◌++◌, arith, inl, inr, Bool-cases}
use ssh_rocket.Text.{Text, str_eq, starts_with, ends_with, contains}
use ssh_rocket.Text.Laws.{str_eq_iff, str_eq_refl}

abbrev pub HasPrefix : Text → Text → Type 0
HasPrefix s p = (rest : Text) × (s ≡ p ++ rest)

abbrev pub HasSuffix : Text → Text → Type 0
HasSuffix s p = (pre : Text) × (s ≡ pre ++ p)

abbrev pub HasPart : Text → Text → Type 0
HasPart s p = (pre : Text) × (rest : Text) × (s ≡ pre ++ (p ++ rest))

cons_prefix : (c x : ℕ) (s p : Text) → c ≡ x → HasPrefix s p → HasPrefix (c ∷ s) (x ∷ p)
cons_prefix c x s p e (rest, h) = (rest, cc)

pub starts_with-HasPrefix : (s p : Text) → starts_with s p ≡ true → HasPrefix s p
unfolding starts_with
starts_with-HasPrefix s [] h = (s, refl)
starts_with-HasPrefix [] (x ∷ p) h = cc
starts_with-HasPrefix (c ∷ s) (x ∷ p) h =
    cons_prefix c x s p (ground arith) (starts_with-HasPrefix s p (ground arith))

pub starts_with-append : (p rest : Text) → starts_with (p ++ rest) p ≡ true
unfolding starts_with
starts_with-append [] [] = refl
starts_with-append [] (c ∷ rest) = refl
starts_with-append (x ∷ p) rest = ground (arith, starts_with-append p rest)

pub starts_with_iff : (s p : Text) → (starts_with s p ≡ true) ↔ HasPrefix s p
starts_with_iff s p = (starts_with-HasPrefix s p, λ h. rw h.1 (starts_with-append p h.0))

cons_suffix : (c : ℕ) (s p : Text) → HasSuffix s p → HasSuffix (c ∷ s) p
cons_suffix c s p (pre, e) = (c ∷ pre, ap (λ t. c ∷ t) e)

ends_with-HasSuffix : (s p : Text) → ends_with s p ≡ true → HasSuffix s p
unfolding ends_with
ends_with-HasSuffix [] p h = ([], (str_eq_iff [] p).0 h)
ends_with-HasSuffix (c ∷ s) p h = elim (Bool-cases (str_eq (c ∷ s) p)) [
  | inl e ↦ ([], (str_eq_iff (c ∷ s) p).0 e)
  | inr e ↦ cons_suffix c s p (ends_with-HasSuffix s p (ground arith))
]

ends_with_self : (p : Text) → ends_with p p ≡ true
unfolding ends_with
ends_with_self [] = str_eq_refl []
ends_with_self (c ∷ p) = ground (arith, str_eq_refl (c ∷ p))

ends_with-append : (pre p : Text) → ends_with (pre ++ p) p ≡ true
unfolding ends_with
ends_with-append [] p = ends_with_self p
ends_with-append (c ∷ pre) p = ground (arith, ends_with-append pre p)

pub ends_with_iff : (s p : Text) → (ends_with s p ≡ true) ↔ HasSuffix s p
ends_with_iff s p = (ends_with-HasSuffix s p, λ h. rw h.1 (ends_with-append h.0 p))

cons_part : (c : ℕ) (s p : Text) → HasPart s p → HasPart (c ∷ s) p
cons_part c s p (pre, rest, e) = (c ∷ pre, rest, ap (λ t. c ∷ t) e)

prefix_part : (s p : Text) → HasPrefix s p → HasPart s p
prefix_part s p (rest, e) = ([], rest, e)

contains-HasPart : (s p : Text) → contains s p ≡ true → HasPart s p
unfolding contains
contains-HasPart [] p h = prefix_part [] p (starts_with-HasPrefix [] p h)
contains-HasPart (c ∷ s) p h = elim (Bool-cases (starts_with (c ∷ s) p)) [
  | inl e ↦ prefix_part (c ∷ s) p (starts_with-HasPrefix (c ∷ s) p e)
  | inr e ↦ cons_part c s p (contains-HasPart s p (ground arith))
]

contains_of_prefix : (s p : Text) → starts_with s p ≡ true → contains s p ≡ true
unfolding contains
contains_of_prefix [] p h = h
contains_of_prefix (c ∷ s) p h = ground arith

contains-append : (pre p rest : Text) → contains (pre ++ (p ++ rest)) p ≡ true
unfolding contains
contains-append [] p rest = contains_of_prefix (p ++ rest) p (starts_with-append p rest)
contains-append (c ∷ pre) p rest = ground (arith, contains-append pre p rest)

pub contains_iff : (s p : Text) → (contains s p ≡ true) ↔ HasPart s p
contains_iff s p = (contains-HasPart s p, λ h. rw h.2 (contains-append h.0 p h.1))

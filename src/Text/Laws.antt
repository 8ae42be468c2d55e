-- ===== src/Text/Laws.antt =====
-- Laws of the string operations.
use ssh_rocket.Base.{ℕ, ◌≡◌, refl, ◌↔◌, true, [], ◌∷◌, arith, bool_ext}
use ssh_rocket.Text.{Text, str_eq, lower, to_ascii_lowercase}

pub str_eq_iff : (a b : Text) → (str_eq a b ≡ true) ↔ (a ≡ b)
unfolding str_eq
str_eq_iff (x ∷ a) (y ∷ b) = ground (arith, str_eq_iff a b)
str_eq_iff _ _ = ground arith

pub str_eq_refl : (a : Text) → str_eq a a ≡ true
str_eq_refl a = (str_eq_iff a a).1 refl

pub str_eq_symm : (a b : Text) → str_eq a b ≡ str_eq b a
str_eq_symm a b =
    bool_ext _ _ (λ h. rw ((str_eq_iff a b).0 h) (str_eq_refl b))
      (λ h. rw ((str_eq_iff b a).0 h) (str_eq_refl a))

lower_idem : (c : ℕ) → lower (lower c) ≡ lower c
unfolding lower
lower_idem c = ground arith

pub to_ascii_lowercase_idem :
    (s : Text) → to_ascii_lowercase (to_ascii_lowercase s) ≡ to_ascii_lowercase s
unfolding to_ascii_lowercase
to_ascii_lowercase_idem [] = refl
to_ascii_lowercase_idem (c ∷ s) = cc (lower_idem c, to_ascii_lowercase_idem s)

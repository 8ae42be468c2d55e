-- ===== src/Routing/Fits.antt =====
-- The specification in words: when a rule fits a domain.
use ssh_rocket.Base.{
  ◌≡◌, ◌≢◌, refl, ◌⊎◌, ◌↔◌, Bool, true, ◌||◌, not, ◌&&◌, [], ◌∷◌, arith, inl, inr,
}
use ssh_rocket.Config.{DomainRuleKind, legacy, domain, domain_suffix, domain_keyword, DomainRule}
use ssh_rocket.Routing.{clean_pattern}
use ssh_rocket.Routing.Spec.{fits, fits_kind}
use ssh_rocket.Text.{Text, str_eq, is_empty, ends_with}
use ssh_rocket.Text.Affixes.{HasSuffix, HasPart, ends_with_iff, contains_iff}
use ssh_rocket.Text.Laws.{str_eq_iff}

-- A `Domain` rule wants the domain itself, a suffix rule the domain or a name below it, and a
-- keyword rule a domain that holds the keyword.
abbrev pub FitsKind : DomainRuleKind → Text → Text → Type 0
FitsKind domain clean d = d ≡ clean
FitsKind domain_suffix clean d = (d ≡ clean) ⊎ HasSuffix d (b'.' ∷ clean)
FitsKind legacy clean d = (d ≡ clean) ⊎ HasSuffix d (b'.' ∷ clean)
FitsKind domain_keyword clean d = HasPart d clean

or_true : (a b : Bool) → (a || b) ≡ true → (a ≡ true) ⊎ (b ≡ true)
or_true a b h = ground arith

suffix_fits :
    (clean d : Text)
    → ((str_eq d clean || ends_with d (b'.' ∷ clean)) ≡ true)
      ↔ ((d ≡ clean) ⊎ HasSuffix d (b'.' ∷ clean))
suffix_fits clean d = (
  λ h. elim (or_true (str_eq d clean) _ h) [
    | inl e ↦ inl ((str_eq_iff d clean).0 e)
    | inr e ↦ inr ((ends_with_iff d (b'.' ∷ clean)).0 e)
  ],
  λ h. elim h [
    | inl e ↦ ground (arith, (str_eq_iff d clean).1 e)
    | inr e ↦ ground (arith, (ends_with_iff d (b'.' ∷ clean)).1 e)
  ],
)

fits_kind_iff :
    (k : DomainRuleKind) (clean d : Text) → (fits_kind k clean d ≡ true) ↔ FitsKind k clean d
fits_kind_iff domain clean d = str_eq_iff d clean
fits_kind_iff domain_suffix clean d = suffix_fits clean d
fits_kind_iff legacy clean d = suffix_fits clean d
fits_kind_iff domain_keyword clean d = contains_iff d clean

is_empty_iff : (t : Text) → (not (is_empty t) ≡ true) ↔ (t ≢ [])
is_empty_iff [] = ((λ h. cc), (λ h. absurd (h refl)))
is_empty_iff (c ∷ t) = ((λ h e. cc), (λ h. refl))

and_true : (a b : Bool) → ((a && b) ≡ true) ↔ ((a ≡ true) × (b ≡ true))
and_true a b = ground arith

-- A rule fits a domain exactly when its cleaned pattern is not empty and the domain is the pattern
-- (exact rule), is the pattern or ends with a dot and the pattern (suffix and legacy rules), or
-- holds the pattern (keyword rule).
pub fits_iff :
    (d : Text) (r : DomainRule)
    → (fits d r ≡ true)
      ↔ ((clean_pattern r.pattern ≢ []) × FitsKind r.kind (clean_pattern r.pattern) d)
fits_iff d r = (
  λ h.
      let (a, b) = (and_true _ _).0 h in
      ((is_empty_iff (clean_pattern r.pattern)).0 a, (fits_kind_iff r.kind _ d).0 b),
  λ h.
      (and_true _ _).1
        ((is_empty_iff (clean_pattern r.pattern)).1 h.0, (fits_kind_iff r.kind _ d).1 h.1),
)

-- ===== src/Importer/Clean.antt =====
-- A clean result: stored patterns are not empty, do not end with a dot and are in lower case, and
-- neither a pattern of one kind nor a network is listed twice.
use ssh_rocket.Base.{
  all, any-append, all-append, bool_ext, ◌≡◌, refl, sym, Bool, true, false, not, ◌&&◌, List, [],
  ◌∷◌, ◌++◌, Bool-cases, inl, inr, arith, any,
}
use ssh_rocket.Config.{RuleAction, DomainRuleKind, DomainRule, IpRule}
use ssh_rocket.Net.{IpNet}
use ssh_rocket.Text.{trim_end_matches, trim, Text, str_eq, is_char, is_empty, to_ascii_lowercase}
use ssh_rocket.Text.Laws.{str_eq_refl, str_eq_symm, to_ascii_lowercase_idem}
use ssh_rocket.Text.Trims.{ends_clear, ends_clear-lowercase, trim_end_matches-ends_clear}
use ssh_rocket.Importer.{
  RuleImportResult, same_key, kind_eq, stored_pattern, push_domain_rule, push_ip_rule, same_network,
  merge, merge_domains, merge_ips,
}

module _ {ℓ} {A : Type ℓ} where
  -- No element is the same as a later one.
  abbrev pub distinct : (A → A → Bool) → List A → Bool
  distinct same [] = true
  distinct same (x ∷ xs) = not (any (same x) xs) && distinct same xs

  module _ (same : A → A → Bool) (symm : (x y : A) → same x y ≡ same y x) where
    distinct-append :
        (xs : List A) (x : A)
        → any (same x) xs ≡ false
        → distinct same xs ≡ true
        → distinct same (xs ++ x ∷ []) ≡ true
    distinct-append [] x h d = refl
    distinct-append (y ∷ xs) x h d = rw any-append (ground (arith, distinct-append xs x, symm x y))

abbrev pub same_rule : DomainRule → DomainRule → Bool
same_rule x r = same_key x.kind x.pattern r

kind_eq_symm : (k l : DomainRuleKind) → kind_eq k l ≡ kind_eq l k
kind_eq_symm k l = ground arith

same_rule_symm : (x y : DomainRule) → same_rule x y ≡ same_rule y x
same_rule_symm x y = rw (kind_eq_symm x.kind y.kind, str_eq_symm x.pattern y.pattern) refl

abbrev pub is_stored : DomainRule → Bool
is_stored r =
    not (is_empty r.pattern)
    && ends_clear (is_char b'.') r.pattern
    && str_eq (to_ascii_lowercase r.pattern) r.pattern

stored-is_stored :
    (value : Text) (a : RuleAction) (k : DomainRuleKind)
    → is_empty (stored_pattern value) ≡ false
    → is_stored (record { pattern = stored_pattern value; action = a; kind = k }) ≡ true
unfolding stored_pattern
stored-is_stored value a k h =
    rw
      (
        h,
        ends_clear-lowercase _ (trim_end_matches-ends_clear (is_char b'.') (trim value)),
        to_ascii_lowercase_idem (trim_end_matches (is_char b'.') (trim value)),
        str_eq_refl,
      )
      refl

abbrev pub AreClean : List DomainRule → Type 0
AreClean rules = (all is_stored rules ≡ true) × (distinct same_rule rules ≡ true)

AreClean-append :
    (rules : List DomainRule) (x : DomainRule)
    → any (same_rule x) rules ≡ false
    → is_stored x ≡ true
    → AreClean rules
    → AreClean (rules ++ x ∷ [])
AreClean-append rules x h s (c, d) = (
  rw (all-append is_stored rules (x ∷ []), c, s) refl,
  distinct-append same_rule same_rule_symm rules x h d,
)

merge_domains-AreClean :
    (rules others : List DomainRule)
    → AreClean rules
    → all is_stored others ≡ true
    → AreClean (merge_domains rules others)
unfolding merge_domains
merge_domains-AreClean rules [] c s = c
merge_domains-AreClean rules (x ∷ xs) c s = elim (Bool-cases (any (same_rule x) rules)) [
  | inl e ↦ rw e (merge_domains-AreClean rules xs c (ground arith))
  | inr e ↦ rw e (
      merge_domains-AreClean (rules ++ x ∷ []) xs (AreClean-append rules x e (ground arith) c)
        (ground arith))
]

module _ {N : Type 0} (net : IpNet N) where
  abbrev pub same_ip : IpRule N → IpRule N → Bool
  same_ip x r = same_network net x.network r

  same_ip_symm : (x y : IpRule N) → same_ip x y ≡ same_ip y x
  same_ip_symm x y =
      bool_ext _ _ (λ h. (net.net_eq_iff _ _).1 (sym ((net.net_eq_iff _ _).0 h)))
        (λ h. (net.net_eq_iff _ _).1 (sym ((net.net_eq_iff _ _).0 h)))

  merge_ips-distinct :
      (rules others : List (IpRule N))
      → distinct same_ip rules ≡ true
      → distinct same_ip (merge_ips net rules others) ≡ true
  unfolding merge_ips
  merge_ips-distinct rules [] d = d
  merge_ips-distinct rules (x ∷ xs) d = elim (Bool-cases (any (same_ip x) rules)) [
    | inl e ↦ rw e (merge_ips-distinct rules xs d)
    | inr e ↦
        rw e (
          merge_ips-distinct (rules ++ x ∷ []) xs
            (distinct-append same_ip same_ip_symm rules x e d))
  ]

  unfoldable pub IsClean : RuleImportResult N → Type 0
  IsClean r = AreClean r.domain_rules × (distinct same_ip r.ip_rules ≡ true)

  pub push_domain_rule-IsClean :
      (r : RuleImportResult N) (value : Text) (a : RuleAction) (k : DomainRuleKind)
      → IsClean r
      → IsClean (push_domain_rule r value a k)
  unfolding push_domain_rule IsClean
  push_domain_rule-IsClean r value a k c = elim (Bool-cases (is_empty (stored_pattern value))) [
    | inl e ↦ rw e c
    | inr e ↦ elim (Bool-cases (any (same_key k (stored_pattern value)) r.domain_rules)) [
      | inl f ↦ rw (e, f) c
      | inr f ↦
          rw (e, f) (AreClean-append r.domain_rules _ f (stored-is_stored value a k e) c.0, c.1)
    ]
  ]

  pub push_ip_rule-IsClean :
      (r : RuleImportResult N) (n : N) (a : RuleAction)
      → IsClean r
      → IsClean (push_ip_rule net r n a)
  unfolding push_ip_rule IsClean
  push_ip_rule-IsClean r n a (c, d) = elim (Bool-cases (any (same_network net n) r.ip_rules)) [
    | inl e ↦ rw e (c, d)
    | inr e ↦ rw e (c, distinct-append same_ip same_ip_symm r.ip_rules _ e d)
  ]

  -- If two results have patterns that are not empty, do not end with a dot and are in lower case,
  -- and list no pattern of a kind and no network twice, then the same holds of the merged result.
  pub merge-IsClean : (a b : RuleImportResult N) → IsClean a → IsClean b → IsClean (merge net a b)
  unfolding merge IsClean
  merge-IsClean a b (c, d) (c', d') = (
    merge_domains-AreClean a.domain_rules b.domain_rules c c'.0,
    merge_ips-distinct a.ip_rules b.ip_rules d,
  )

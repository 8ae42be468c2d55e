-- ===== src/Importer/Routes.antt =====
-- Rules that are left out because they are there already do not change what any flow is told.
use ssh_rocket.Base.{
  ◌≡◌, refl, sym, ap, ◌∙◌, Bool, true, false, List, [], ◌∷◌, ◌++◌, Option, none, some, Bool-cases,
  inl, inr, arith, any, find?, append_assoc, append-nil,
}
use ssh_rocket.Config.{
  RuleAction, DomainRuleKind, DomainRule, IpRule, legacy, domain, domain_suffix, domain_keyword,
}
use ssh_rocket.Net.{IpNet, IpAddr}
use ssh_rocket.Text.{to_ascii_lowercase, trim_end_matches, trim_start_matches, trim, Text, is_empty}
use ssh_rocket.Text.Laws.{str_eq_iff}
use ssh_rocket.Routing.{find_ip_rule, clean_pattern}
use ssh_rocket.Routing.Spec.{fits, first_fit, rule_action}
use ssh_rocket.Importer.{
  RuleImportResult, same_key, kind_eq, stored_pattern, push_domain_rule, same_network, merge,
  merge_domains, merge_ips,
}

module _ {ℓ} {A : Type ℓ} (p : A → Bool) where
  find?-append_found : (xs ys : List A) → any p xs ≡ true → find? p (xs ++ ys) ≡ find? p xs
  find?-append_found [] ys h = ground arith
  find?-append_found (x ∷ xs) ys h = ground (arith, find?-append_found xs ys)

  find?-append_congr :
      (xs ys zs : List A) → find? p ys ≡ find? p zs → find? p (xs ++ ys) ≡ find? p (xs ++ zs)
  find?-append_congr [] ys zs h = h
  find?-append_congr (x ∷ xs) ys zs h = ground (arith, find?-append_congr xs ys zs h)

  -- An element that passes only if a listed one does adds nothing behind the list.
  find?-append_skip :
      (xs ys : List A) (x : A)
      → (p x ≡ true → any p xs ≡ true)
      → find? p (xs ++ x ∷ ys) ≡ find? p (xs ++ ys)
  find?-append_skip xs ys x h = elim (Bool-cases (p x)) [
    | inl e ↦ find?-append_found xs (x ∷ ys) (h e) ∙ sym (find?-append_found xs ys (h e))
    | inr e ↦ find?-append_congr xs (x ∷ ys) ys (rw e refl)
  ]

kind_eq→eq : (k l : DomainRuleKind) → kind_eq k l ≡ true → k ≡ l
kind_eq→eq legacy legacy h = refl
kind_eq→eq domain domain h = refl
kind_eq→eq domain_suffix domain_suffix h = refl
kind_eq→eq domain_keyword domain_keyword h = refl
kind_eq→eq _ _ h = ground arith

module _ (d : Text) where
  fits-same_key : (x r : DomainRule) → same_key x.kind x.pattern r ≡ true → fits d x ≡ fits d r
  fits-same_key x r h =
      rw
        (kind_eq→eq r.kind x.kind (ground arith), (str_eq_iff r.pattern x.pattern).0 (ground arith))
        refl

  any-fits :
      (x : DomainRule) (rules : List DomainRule)
      → any (same_key x.kind x.pattern) rules ≡ true
      → fits d x ≡ true
      → any (fits d) rules ≡ true
  any-fits x [] h f = h
  any-fits x (r ∷ rs) h f = ground (arith, fits-same_key x r, any-fits x rs)

  merge_domains-find? :
      (rules others : List DomainRule)
      → find? (fits d) (merge_domains rules others) ≡ find? (fits d) (rules ++ others)
  unfolding merge_domains
  merge_domains-find? rules [] = rw append-nil refl
  merge_domains-find? rules (x ∷ xs) = elim (Bool-cases (any (same_key x.kind x.pattern) rules)) [
    | inl e ↦ rw e (
        merge_domains-find? rules xs
        ∙ sym (find?-append_skip (fits d) rules xs x (any-fits x rules e)))
    | inr e ↦ rw e (
        merge_domains-find? (rules ++ x ∷ []) xs
        ∙ ap (find? (fits d)) (append_assoc rules (x ∷ []) xs))
  ]

module _ {N : Type 0} (net : IpNet N) (ip : IpAddr) where
  abbrev holds : IpRule N → Bool
  holds r = net.contains r.network ip

  any-holds :
      (x : IpRule N) (rules : List (IpRule N))
      → any (same_network net x.network) rules ≡ true
      → holds x ≡ true
      → any holds rules ≡ true
  any-holds x [] h f = h
  any-holds x (r ∷ rs) h f = elim (Bool-cases (net.net_eq r.network x.network)) [
    | inl e ↦ rw ((net.net_eq_iff r.network x.network).0 e, f) refl
    | inr e ↦ ground (arith, e, any-holds x rs)
  ]

  merge_ips-find? :
      (rules others : List (IpRule N))
      → find? holds (merge_ips net rules others) ≡ find? holds (rules ++ others)
  unfolding merge_ips
  merge_ips-find? rules [] = rw append-nil refl
  merge_ips-find? rules (x ∷ xs) = elim (Bool-cases (any (same_network net x.network) rules)) [
    | inl e ↦
        rw e (
          merge_ips-find? rules xs ∙ sym (find?-append_skip holds rules xs x (any-holds x rules e)))
    | inr e ↦
        rw e
          (merge_ips-find? (rules ++ x ∷ []) xs ∙ ap (find? holds) (append_assoc rules (x ∷ []) xs))
  ]

-- Whatever the two results hold, the first rule of the merged domain rules that fits a domain has
-- the same action as the first of the two lists one behind the other: the rules that merging
-- leaves out change no route.
pub merge-first_fit :
    {N : Type 0} (net : IpNet N) (a b : RuleImportResult N) (d : Text)
    → first_fit (merge net a b).domain_rules d ≡ first_fit (a.domain_rules ++ b.domain_rules) d
unfolding merge
merge-first_fit net a b d = ap rule_action (merge_domains-find? d a.domain_rules b.domain_rules)

-- Whatever the two results hold, looking a destination up in the merged networks finds the same
-- rule as in the two lists one behind the other.
pub merge-find_ip_rule :
    {N : Type 0} (net : IpNet N) (a b : RuleImportResult N) (ip : Option IpAddr)
    → find_ip_rule net (merge net a b).ip_rules ip ≡ find_ip_rule net (a.ip_rules ++ b.ip_rules) ip
unfolding merge find_ip_rule
merge-find_ip_rule net a b none = refl
merge-find_ip_rule net a b (some ip) = merge_ips-find? net ip a.ip_rules b.ip_rules

module _ (d : Text) (rules : List DomainRule) (x : DomainRule) where
  skip-find? :
      (fits d x ≡ true → any (fits d) rules ≡ true)
      → find? (fits d) rules ≡ find? (fits d) (rules ++ x ∷ [])
  skip-find? h =
      sym (find?-append_skip (fits d) rules [] x h ∙ ap (find? (fits d)) (append-nil rules))

is_empty→nil : (s : Text) → is_empty s ≡ true → s ≡ []
is_empty→nil [] h = refl
is_empty→nil (c ∷ s) h = ground arith

fits-empty :
    (d : Text) (a : RuleAction) (k : DomainRuleKind) (s : Text)
    → is_empty s ≡ true
    → fits d (record { pattern = s; action = a; kind = k }) ≡ false
unfolding clean_pattern trim trim_start_matches trim_end_matches to_ascii_lowercase
fits-empty d a k s h = rw (is_empty→nil s h) refl

-- Adding a domain rule to a result routes every domain as the list with the stored rule at its end
-- does, also where the rule is left out as empty or as a duplicate.
pub push_domain_rule-first_fit :
    {N : Type 0} (r : RuleImportResult N) (value : Text) (a : RuleAction) (k : DomainRuleKind)
    (d : Text)
    → first_fit (push_domain_rule r value a k).domain_rules d
      ≡ first_fit
          (r.domain_rules ++ record { pattern = stored_pattern value; action = a; kind = k } ∷ [])
          d
unfolding push_domain_rule
push_domain_rule-first_fit r value a k d = elim (Bool-cases (is_empty (stored_pattern value))) [
  | inl e ↦ rw e (
      ap rule_action (
        skip-find? d r.domain_rules _
          (λ h. ground (arith, fits-empty d a k (stored_pattern value) e))))
  | inr e ↦ elim (Bool-cases (any (same_key k (stored_pattern value)) r.domain_rules)) [
    | inl f ↦
        rw (e, f)
          (ap rule_action (
            skip-find? d r.domain_rules _ (
              any-fits d (record { pattern = stored_pattern value; action = a; kind = k })
                r.domain_rules f)))
    | inr f ↦ rw (e, f) refl
  ]
]

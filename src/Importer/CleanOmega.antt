-- ===== src/Importer/CleanOmega.antt =====
-- Whatever a backup holds, an import that succeeds is clean and has rules.
use ssh_rocket.Base.{
  ◌≡◌, ◌≢◌, refl, Bool, true, false, not, ◌&&◌, ◌||◌, List, [], ◌∷◌, Option, none, some, ltb, ◌==◌,
  if◌then◌else◌, arith,
}
use ssh_rocket.Config.{RuleAction, direct, domain, domain_suffix, domain_keyword}
use ssh_rocket.Net.{IpNet}
use ssh_rocket.Text.{Text, codes, str_eq, is_empty, starts_with, ends_with, utf8_len, trim}
use ssh_rocket.Importer.{RuleImportResult, default_result, parse_network, rule_count}
use ssh_rocket.Importer.Clean.{IsClean, push_domain_rule-IsClean, push_ip_rule-IsClean}
use ssh_rocket.Importer.CleanLists.{if-holds, ignore-IsClean, push_network-IsClean}
use ssh_rocket.Importer.Omega.{
  invalid_json, Json, OmegaResult, imported, rejected, no_switch_profile, no_supported_rules,
  any_network, push_or, push_wildcard, push_host, add_condition, add_entry, add_omega_rule,
  add_omega_rules, add_profile, add_profiles, checked, parse_root, parse_omega_rules,
  is_switch_profile, found_switch_profile, string_or, get_field, extract_host_from_url_wildcard,
}

module _ {N : Type 0} (net : IpNet N) where
  -- An import that succeeds has a clean result with at least one rule.
  abbrev pub IsGood : OmegaResult N → Type 0
  IsGood (imported r) = IsClean net r × (rule_count r ≢ 0)
  IsGood (rejected e) = Unit

  push_or-IsClean :
      (n : Option N) (a : RuleAction) (r names : RuleImportResult N)
      → IsClean net r
      → IsClean net names
      → IsClean net (push_or net n a r names)
  unfolding push_or
  push_or-IsClean none a r names c d = d
  push_or-IsClean (some n) a r names c d = push_ip_rule-IsClean net r n a c

  push_wildcard-IsClean :
      (pattern : Text) (a : RuleAction) (r : RuleImportResult N)
      → IsClean net r
      → IsClean net (push_wildcard net pattern a r)
  unfolding push_wildcard
  push_wildcard-IsClean p a r c =
      if-holds (IsClean net)
        (starts_with p (codes "*.") && (ends_with p (codes ".*") && ltb 4 (utf8_len p)))
        (push_domain_rule-IsClean net r _ a domain_keyword c)
        (if-holds (IsClean net)
          (str_eq p (codes "*.*.cn") || (starts_with p (codes "*.*.") && ltb 4 (utf8_len p)))
          (push_domain_rule-IsClean net r _ a domain_suffix c)
          (if-holds (IsClean net) (starts_with p (codes "*."))
            (push_domain_rule-IsClean net r p a domain_suffix c)
            (push_domain_rule-IsClean net r p a domain c)))

  push_host-IsClean :
      (host : Option Text) (a : RuleAction) (r : RuleImportResult N)
      → IsClean net r
      → IsClean net (push_host net host a r)
  unfolding push_host
  push_host-IsClean none a r c = ignore-IsClean net r c
  push_host-IsClean (some host) a r c = push_or-IsClean (any_network net host) a r _ c (
      if-holds (IsClean net) (starts_with host (codes "*."))
        (push_domain_rule-IsClean net r host a domain_suffix c)
        (push_domain_rule-IsClean net r host a domain c))

  add_condition-IsClean :
      (t p : Text) (a : RuleAction) (r : RuleImportResult N)
      → IsClean net r
      → IsClean net (add_condition net t p a r)
  unfolding add_condition
  add_condition-IsClean t p a r c =
      if-holds (IsClean net) (str_eq t (codes "HostWildcardCondition"))
        (push_or-IsClean (any_network net p) a r _ c (push_wildcard-IsClean p a r c))
        (if-holds (IsClean net) (str_eq t (codes "IpCondition"))
          (push_network-IsClean net (parse_network net p) a r c)
          (if-holds (IsClean net) (str_eq t (codes "BypassCondition"))
            (push_or-IsClean (any_network net p) direct r _ c
              (push_domain_rule-IsClean net r p direct domain c))
            (if-holds (IsClean net) (str_eq t (codes "UrlWildcardCondition"))
              (push_host-IsClean (extract_host_from_url_wildcard p) a r c)
              (ignore-IsClean net r c))))

  module _ {V : Type 0} (json : Json V) where
    add_entry-IsClean :
        (e : Option (List (Text × V))) (a : RuleAction) (r : RuleImportResult N)
        → IsClean net r
        → IsClean net (add_entry net json e a r)
    unfolding add_entry
    add_entry-IsClean none a r c = ignore-IsClean net r c
    add_entry-IsClean (some e) a r c =
        if-holds (IsClean net)
          (is_empty (trim (string_or net json (get_field net json (codes "pattern") e) [])))
          (ignore-IsClean net r c) (add_condition-IsClean _ _ a r c)

    add_omega_rule-IsClean :
        (e : Option (List (Text × V))) (r : RuleImportResult N)
        → IsClean net r
        → IsClean net (add_omega_rule net json e r)
    unfolding add_omega_rule
    add_omega_rule-IsClean none r c = ignore-IsClean net r c
    add_omega_rule-IsClean (some e) r c = add_entry-IsClean _ _ r c

    add_omega_rules-IsClean :
        (vs : List V) (r : RuleImportResult N)
        → IsClean net r
        → IsClean net (add_omega_rules net json vs r)
    unfolding add_omega_rules
    add_omega_rules-IsClean [] r c = c
    add_omega_rules-IsClean (v ∷ vs) r c =
        add_omega_rules-IsClean vs (add_omega_rule net json (json.as_object v) r)
          (add_omega_rule-IsClean (json.as_object v) r c)

    add_profile-IsClean :
        (selected : Bool) (p : Option (List (Text × V))) (r : RuleImportResult N)
        → IsClean net r
        → IsClean net (add_profile net json selected p r)
    unfolding add_profile
    add_profile-IsClean selected none r c = c
    add_profile-IsClean selected (some p) r c =
        if-holds (IsClean net) (selected && is_switch_profile net json p)
          (add_omega_rules-IsClean _ r c) c

    add_profiles-IsClean :
        (entries : List (Text × V)) (r : RuleImportResult N)
        → IsClean net r
        → IsClean net (add_profiles net json entries r)
    unfolding add_profiles
    add_profiles-IsClean [] r c = c
    add_profiles-IsClean ((key, v) ∷ entries) r c =
        add_profiles-IsClean entries
          (add_profile net json (starts_with key (codes "+")) (json.as_object v) r)
          (add_profile-IsClean (starts_with key (codes "+")) (json.as_object v) r c)

    checked-IsGood :
        (found : Bool) (r : RuleImportResult N) (n : Bool)
        → (rule_count r == 0) ≡ n
        → IsClean net r
        → IsGood (
            if not found
            then rejected no_switch_profile
            else if n
            then rejected no_supported_rules
            else imported r)
    checked-IsGood false r n e c = tt
    checked-IsGood true r true e c = tt
    checked-IsGood true r false e c = (c, ground arith)

    parse_root-IsGood : (o : Option (List (Text × V))) → IsGood (parse_root net json o)
    unfolding parse_root checked
    parse_root-IsGood none = tt
    parse_root-IsGood (some obj) =
        checked-IsGood (found_switch_profile net json obj)
          (add_profiles net json obj (default_result N)) _ refl
          (add_profiles-IsClean obj (default_result N) (unfold IsClean in ((refl, refl), refl)))

    parse_value-IsGood :
        (v : Option V)
        → IsGood (elim v [
          | none ↦ rejected invalid_json
          | some root ↦ parse_root net json (json.as_object root)
        ])
    parse_value-IsGood none = tt
    parse_value-IsGood (some v) = parse_root-IsGood (json.as_object v)

    -- Whatever a backup holds, an import of it that succeeds has at least one rule, no pattern
    -- that is empty, ends with a dot or is not in lower case, and no pattern of a kind and no
    -- network twice.
    pub parse_omega_rules-IsGood : (content : Text) → IsGood (parse_omega_rules net json content)
    unfolding parse_omega_rules
    parse_omega_rules-IsGood content = parse_value-IsGood (json.from_str content)

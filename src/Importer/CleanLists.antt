-- ===== src/Importer/CleanLists.antt =====
-- Whatever a list says, the result of parsing it is clean.
use ssh_rocket.Base.{
  ◌++◌, refl, Bool, true, false, ◌&&◌, ◌||◌, List, [], ◌∷◌, Option, none, some, if◌then◌else◌,
}
use ssh_rocket.Config.{DomainRuleKind, RuleAction, direct, domain, domain_suffix}
use ssh_rocket.Net.{IpNet}
use ssh_rocket.Text.{
  Text, codes, is_empty, is_char, str_eq, trim, split, lines, to_ascii_lowercase, starts_with,
}
use ssh_rocket.Importer.{
  RuleSetReference, RuleImportResult, default_result, stored_pattern, ignore, parse_network,
  normalize_action,
}
use ssh_rocket.Importer.Clean.{IsClean, push_domain_rule-IsClean, push_ip_rule-IsClean}
use ssh_rocket.Importer.Shadowrocket.{
  add_name, add_entry, add_other, add_network_or_name, push_network, add_value, add_values,
  is_bypass_key, parse_general_line, add_rule, add_parts, parse_rule_line, parse_section_line,
  parse_lines, parse_shadowrocket_rules, parse_set_lines, parse_rule_set,
}

pub if-holds {ℓ ℓ'} :
    {A : Type ℓ} (P : A → Type ℓ') (b : Bool) {x y : A} → P x → P y → P (if b then x else y)
if-holds P true h k = h
if-holds P false h k = k

module _ {N : Type 0} (net : IpNet N) where
  pub ignore-IsClean : (r : RuleImportResult N) → IsClean net r → IsClean net (ignore r)
  unfolding ignore IsClean
  ignore-IsClean r c = c

  pub push_network-IsClean :
      (n : Option N) (a : RuleAction) (r : RuleImportResult N)
      → IsClean net r
      → IsClean net (push_network net n a r)
  unfolding push_network
  push_network-IsClean none a r c = ignore-IsClean r c
  push_network-IsClean (some n) a r c = push_ip_rule-IsClean net r n a c

  add_name-IsClean :
      (r : RuleImportResult N) (value : Text) (suffix : Option Text)
      → IsClean net r
      → IsClean net (add_name net r value suffix)
  unfolding add_name
  add_name-IsClean r value none c = push_domain_rule-IsClean net r value direct domain c
  add_name-IsClean r value (some s) c = push_domain_rule-IsClean net r s direct domain_suffix c

  add_network_or_name-IsClean :
      (r : RuleImportResult N) (value : Text) (n : Option N)
      → IsClean net r
      → IsClean net (add_network_or_name net r value n)
  unfolding add_network_or_name
  add_network_or_name-IsClean r value none c = add_name-IsClean r value _ c
  add_network_or_name-IsClean r value (some n) c = push_ip_rule-IsClean net r n direct c

  add_value-IsClean :
      (r : RuleImportResult N) (value : Text) → IsClean net r → IsClean net (add_value net r value)
  unfolding add_value
  add_value-IsClean r raw c = if-holds (IsClean net) _ c (
      add_network_or_name-IsClean r (stored_pattern raw) (parse_network net (stored_pattern raw)) c)

  add_values-IsClean :
      (r : RuleImportResult N) (vs : List Text) → IsClean net r → IsClean net (add_values net r vs)
  unfolding add_values
  add_values-IsClean r [] c = c
  add_values-IsClean r (v ∷ vs) c =
      add_values-IsClean (add_value net r v) vs (add_value-IsClean r v c)

  add_entry-IsClean :
      (entry : Option (Text × Text)) (r : RuleImportResult N)
      → IsClean net r
      → IsClean net (add_entry net entry r)
  unfolding add_entry
  add_entry-IsClean none r c = c
  add_entry-IsClean (some (key, values)) r c =
      if-holds (IsClean net) (is_bypass_key net key)
        (add_values-IsClean r (split (is_char b',') values) c) c

  parse_general_line-IsClean :
      (line : Text) (r : RuleImportResult N)
      → IsClean net r
      → IsClean net (parse_general_line net line r)
  unfolding parse_general_line
  parse_general_line-IsClean line r c = add_entry-IsClean _ r c

  with_policy-IsClean :
      (r : RuleImportResult N) (a : RuleAction)
      → IsClean net r
      → IsClean net (record r { default_policy = a })
  unfolding IsClean
  with_policy-IsClean r a c = c

  with_rule_sets-IsClean :
      (r : RuleImportResult N) (sets : List RuleSetReference)
      → IsClean net r
      → IsClean net (record r { rule_sets = sets })
  unfolding IsClean
  with_rule_sets-IsClean r sets c = c

  add_other-IsClean :
      (rule_type value : Text) (a : RuleAction) (collect : Bool) (r : RuleImportResult N)
      → IsClean net r
      → IsClean net (add_other net rule_type value a collect r)
  unfolding add_other
  add_other-IsClean t value a collect r c =
      if-holds (IsClean net) (str_eq t (codes "IP-CIDR") || str_eq t (codes "IP-CIDR6"))
        (push_network-IsClean (parse_network net value) a r c)
        (if-holds (IsClean net) (str_eq t (codes "RULE-SET"))
          (if-holds (IsClean net) (collect && starts_with value (codes "https://"))
            (with_rule_sets-IsClean r (r.rule_sets ++ record { url = value; action = a } ∷ []) c)
            (ignore-IsClean r c))
          (if-holds (IsClean net) (str_eq t (codes "FINAL"))
            (with_policy-IsClean r (normalize_action value) c) (ignore-IsClean r c)))

  add_rule-IsClean :
      (k : Option DomainRuleKind) (rule_type value : Text) (a : RuleAction) (collect : Bool)
      (r : RuleImportResult N)
      → IsClean net r
      → IsClean net (add_rule net k rule_type value a collect r)
  unfolding add_rule
  add_rule-IsClean none t value a collect r c = add_other-IsClean t value a collect r c
  add_rule-IsClean (some k) t value a collect r c = push_domain_rule-IsClean net r value a k c

  add_parts-IsClean :
      (parts : List Text) (inherited : Option RuleAction) (collect : Bool) (r : RuleImportResult N)
      → IsClean net r
      → IsClean net (add_parts net parts inherited collect r)
  unfolding add_parts
  add_parts-IsClean [] inherited collect r c = ignore-IsClean r c
  add_parts-IsClean (p ∷ []) inherited collect r c = ignore-IsClean r c
  add_parts-IsClean (p ∷ v ∷ rest) inherited collect r c = add_rule-IsClean _ _ _ _ collect r c

  parse_rule_line-IsClean :
      (line : Text) (inherited : Option RuleAction) (collect : Bool) (r : RuleImportResult N)
      → IsClean net r
      → IsClean net (parse_rule_line net line inherited collect r)
  unfolding parse_rule_line
  parse_rule_line-IsClean line inherited collect r c = add_parts-IsClean _ inherited collect r c

  parse_section_line-IsClean :
      (section line : Text) (r : RuleImportResult N)
      → IsClean net r
      → IsClean net (parse_section_line net section line r)
  unfolding parse_section_line
  parse_section_line-IsClean section line r c =
      if-holds (IsClean net) (str_eq (to_ascii_lowercase section) (codes "[general]"))
        (parse_general_line-IsClean line r c)
        (if-holds (IsClean net) (str_eq (to_ascii_lowercase section) (codes "[rule]"))
          (parse_rule_line-IsClean line none true r c)
          (if-holds (IsClean net) (is_empty section) c (ignore-IsClean r c)))

  parse_lines-IsClean :
      (ls : List Text) (section : Text) (r : RuleImportResult N)
      → IsClean net r
      → IsClean net (parse_lines net section ls r)
  unfolding parse_lines
  parse_lines-IsClean [] section r c = c
  parse_lines-IsClean (l ∷ ls) section r c =
      parse_lines-IsClean ls _ _
        (if-holds (IsClean net) _ c (parse_section_line-IsClean section (trim l) r c))

  parse_set_lines-IsClean :
      (a : RuleAction) (ls : List Text) (r : RuleImportResult N)
      → IsClean net r
      → IsClean net (parse_set_lines net a ls r)
  unfolding parse_set_lines
  parse_set_lines-IsClean a [] r c = c
  parse_set_lines-IsClean a (l ∷ ls) r c =
      parse_set_lines-IsClean a ls _
        (if-holds (IsClean net) _ c (parse_rule_line-IsClean (trim l) (some a) false r c))

  -- Whatever a Shadowrocket configuration says, the patterns of the result are not empty, do not
  -- end with a dot and are in lower case, and no pattern of a kind and no network is listed twice.
  pub parse_shadowrocket_rules-IsClean :
      (content : Text) → IsClean net (parse_shadowrocket_rules net content)
  unfolding parse_shadowrocket_rules
  parse_shadowrocket_rules-IsClean content =
      parse_lines-IsClean (lines content) [] (default_result N)
        (unfold IsClean in ((refl, refl), refl))

  -- Whatever a rule set says, the patterns of the result are not empty, do not end with a dot and
  -- are in lower case, and no pattern of a kind and no network is listed twice.
  pub parse_rule_set-IsClean :
      (content : Text) (a : RuleAction) → IsClean net (parse_rule_set net content a)
  unfolding parse_rule_set
  parse_rule_set-IsClean content a =
      parse_set_lines-IsClean a (lines content) (default_result N)
        (unfold IsClean in ((refl, refl), refl))

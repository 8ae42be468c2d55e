-- ===== src/Importer/Shadowrocket.antt =====
-- crates/ssh-rocket-core/src/rule_importer.rs: the Shadowrocket configuration and the rule sets it refers to.
use ssh_rocket.Base.{
  Bool, true, false, not, ◌&&◌, ◌||◌, List, [], ◌∷◌, ◌++◌, map, Option, none, some, if◌then◌else◌,
}
use ssh_rocket.Config.{
  RuleAction, direct, proxy, DomainRuleKind, legacy, domain, domain_suffix, domain_keyword,
}
use ssh_rocket.Net.{IpNet}
use ssh_rocket.Text.{
  Text, codes, str_eq, is_empty, is_char, trim, to_ascii_lowercase, to_ascii_uppercase, starts_with,
  ends_with, strip_prefix, split, split_once, lines,
}
use ssh_rocket.Importer.{
  RuleImportResult, default_result, stored_pattern, normalize_action, push_domain_rule,
  push_ip_rule, parse_network, ignore,
}

-- Lines that both parsers skip.
unfoldable pub is_comment : Text → Bool
is_comment line = is_empty line || starts_with line (codes "#") || starts_with line (codes ";")

-- The types of rules that name a domain.
unfoldable pub domain_kind : Text → Option DomainRuleKind
domain_kind rule_type =
    if str_eq rule_type (codes "DOMAIN")
    then some domain
    else if str_eq rule_type (codes "DOMAIN-SUFFIX")
    then some domain_suffix
    else if str_eq rule_type (codes "DOMAIN-KEYWORD")
    then some domain_keyword
    else if str_eq rule_type (codes "LEGACY")
    then some legacy
    else none

-- `parts.get(2).map_or(Proxy, normalize_action)`
unfoldable pub third_action : List Text → RuleAction
third_action [] = proxy
third_action (a ∷ rest) = normalize_action a

unfoldable pub line_action : Option RuleAction → List Text → RuleAction
line_action none rest = third_action rest
line_action (some a) rest = a

module _ {N : Type 0} (net : IpNet N) where
  unfoldable pub push_network : Option N → RuleAction → RuleImportResult N → RuleImportResult N
  push_network none a r = ignore r
  push_network (some n) a r = push_ip_rule net r n a

  -- A value of the general section that is no network: a name, or a name behind `*.`.
  unfoldable pub add_name : RuleImportResult N → Text → Option Text → RuleImportResult N
  add_name r value none = push_domain_rule r value direct domain
  add_name r value (some suffix) = push_domain_rule r suffix direct domain_suffix

  unfoldable pub add_network_or_name : RuleImportResult N → Text → Option N → RuleImportResult N
  add_network_or_name r value none = add_name r value (strip_prefix value (codes "*."))
  add_network_or_name r value (some n) = push_ip_rule net r n direct

  unfoldable pub add_value : RuleImportResult N → Text → RuleImportResult N
  add_value r raw_value =
      let value = stored_pattern raw_value in
      if is_empty value || str_eq value (codes "localhost")
      then r
      else add_network_or_name r value (parse_network net value)

  unfoldable pub add_values : RuleImportResult N → List Text → RuleImportResult N
  add_values r [] = r
  add_values r (v ∷ vs) = add_values (add_value r v) vs

  unfoldable pub is_bypass_key : Text → Bool
  is_bypass_key key =
      let k = to_ascii_lowercase (trim key) in
      str_eq k (codes "skip-proxy") || str_eq k (codes "bypass-tun")

  unfoldable pub add_entry : Option (Text × Text) → RuleImportResult N → RuleImportResult N
  add_entry none r = r
  add_entry (some (key, values)) r =
      if is_bypass_key key then add_values r (split (is_char b',') values) else r

  unfoldable pub parse_general_line : Text → RuleImportResult N → RuleImportResult N
  parse_general_line line r = add_entry (split_once b'=' line) r

  -- The arms of the `match` on the type of the rule: names, and the others.
  unfoldable pub add_other :
      Text → Text → RuleAction → Bool → RuleImportResult N → RuleImportResult N
  add_other rule_type value a collect_rule_sets r =
      if str_eq rule_type (codes "IP-CIDR") || str_eq rule_type (codes "IP-CIDR6")
      then push_network (parse_network net value) a r
      else if str_eq rule_type (codes "RULE-SET")
      then if collect_rule_sets && starts_with value (codes "https://")
        then record r { rule_sets = r.rule_sets ++ record { url = value; action = a } ∷ [] }
        else ignore r
      else if str_eq rule_type (codes "FINAL")
      then record r { default_policy = normalize_action value }
      else ignore r

  unfoldable pub add_rule :
      Option DomainRuleKind
      → Text
      → Text
      → RuleAction
      → Bool
      → RuleImportResult N
      → RuleImportResult N
  add_rule (some k) rule_type value a collect_rule_sets r = push_domain_rule r value a k
  add_rule none rule_type value a collect_rule_sets r =
      add_other rule_type value a collect_rule_sets r

  unfoldable pub add_parts :
      List Text → Option RuleAction → Bool → RuleImportResult N → RuleImportResult N
  add_parts (head ∷ value ∷ rest) inherited_action collect_rule_sets r =
      let rule_type = to_ascii_uppercase head in
      add_rule (domain_kind rule_type) rule_type (trim value) (line_action inherited_action rest)
        collect_rule_sets r
  add_parts _ inherited_action collect_rule_sets r = ignore r

  unfoldable pub parse_rule_line :
      Text → Option RuleAction → Bool → RuleImportResult N → RuleImportResult N
  parse_rule_line line inherited_action collect_rule_sets r =
      add_parts (map trim (split (is_char b',') line)) inherited_action collect_rule_sets r

  unfoldable pub parse_section_line : Text → Text → RuleImportResult N → RuleImportResult N
  parse_section_line section line r =
      let s = to_ascii_lowercase section in
      if str_eq s (codes "[general]")
      then parse_general_line line r
      else if str_eq s (codes "[rule]")
      then parse_rule_line line none true r
      else if is_empty section
      then r
      else ignore r

  -- The loop over the lines, with the section the loop is in.
  unfoldable pub parse_lines : Text → List Text → RuleImportResult N → RuleImportResult N
  parse_lines section [] r = r
  parse_lines section (raw_line ∷ rest) r =
      let line = trim raw_line in
      let skip = is_comment line in
      let is_header = starts_with line (codes "[") && ends_with line (codes "]") in
      parse_lines (if not skip && is_header then line else section) rest
        (if skip || is_header then r else parse_section_line section line r)

  unfoldable pub parse_shadowrocket_rules : Text → RuleImportResult N
  parse_shadowrocket_rules content = parse_lines [] (lines content) (default_result N)

  unfoldable pub parse_set_lines : RuleAction → List Text → RuleImportResult N → RuleImportResult N
  parse_set_lines a [] r = r
  parse_set_lines a (raw_line ∷ rest) r =
      let line = trim raw_line in
      parse_set_lines a rest (if is_comment line then r else parse_rule_line line (some a) false r)

  unfoldable pub parse_rule_set : Text → RuleAction → RuleImportResult N
  parse_rule_set content a = parse_set_lines a (lines content) (default_result N)

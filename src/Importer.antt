-- ===== src/Importer.antt =====
-- crates/ssh-rocket-core/src/rule_importer.rs: rule lists of Shadowrocket and rule sets, and merging.
pub mod Clean
pub mod Shadowrocket
pub mod CleanLists
pub mod Omega
pub mod CleanOmega
pub mod Routes
mod Examples
mod OmegaExamples
use ssh_rocket.Base.{
  ℕ, ◌+◌, Bool, true, false, not, ◌&&◌, ◌||◌, List, [], ◌∷◌, ◌++◌, map, Option, none, some, ltb,
  ◌==◌, if◌then◌else◌, length, any, get_elem?,
}
use ssh_rocket.Config.{
  RuleAction, direct, proxy, block, DomainRuleKind, legacy, domain, domain_suffix, domain_keyword,
  DomainRule, IpRule,
}
use ssh_rocket.Net.{IpAddr, v4, v6, IpNet}
use ssh_rocket.Net.Parse.{parse_addr}
use ssh_rocket.Text.{
  Text, codes, str_eq, is_empty, is_char, trim, trim_end_matches, to_ascii_lowercase,
  to_ascii_uppercase, starts_with, ends_with, strip_prefix, split, split_once, lines,
}

pub record RuleSetReference : Type 0 where
  pub url : Text
  pub action : RuleAction

pub record RuleImportResult (N : Type 0) : Type 0 where
  pub domain_rules : List DomainRule
  pub ip_rules : List (IpRule N)
  pub rule_sets : List RuleSetReference
  pub warnings : List Text
  pub default_policy : RuleAction
  pub ignored_count : ℕ

abbrev pub default_result : (N : Type 0) → RuleImportResult N
default_result N = record {
  domain_rules = [];
  ip_rules = [];
  rule_sets = [];
  warnings = [];
  default_policy = direct;
  ignored_count = 0;
}

-- the derived `==` of `DomainRuleKind`
abbrev pub kind_eq : DomainRuleKind → DomainRuleKind → Bool
kind_eq legacy legacy = true
kind_eq domain domain = true
kind_eq domain_suffix domain_suffix = true
kind_eq domain_keyword domain_keyword = true
kind_eq _ _ = false

abbrev pub same_key : DomainRuleKind → Text → DomainRule → Bool
same_key k pattern r = kind_eq r.kind k && str_eq r.pattern pattern

-- The pattern that is stored for a value.
unfoldable pub stored_pattern : Text → Text
stored_pattern value = to_ascii_lowercase (trim_end_matches (is_char b'.') (trim value))

abbrev pub three : ℕ → ℕ → ℕ → ℕ × ℕ × ℕ
three a b c = (a, b, c)

-- The closure of `action_counts`.
abbrev count_action : RuleAction → ℕ × ℕ × ℕ → ℕ × ℕ × ℕ
count_action direct (d, p, b) = (d + 1, p, b)
count_action proxy (d, p, b) = (d, p + 1, b)
count_action block (d, p, b) = (d, p, b + 1)

fold_actions : List RuleAction → ℕ × ℕ × ℕ → ℕ × ℕ × ℕ
fold_actions [] n = n
fold_actions (a ∷ xs) n = fold_actions xs (count_action a n)

unfoldable pub normalize_action : Text → RuleAction
normalize_action value =
    let v = to_ascii_lowercase (trim value) in
    if starts_with v (codes "reject") || str_eq v (codes "block")
    then block
    else if str_eq v (codes "direct")
    then direct
    else proxy

unfoldable pub push_domain_rule :
    {N : Type 0} → RuleImportResult N → Text → RuleAction → DomainRuleKind → RuleImportResult N
push_domain_rule r value a k =
    let pattern = stored_pattern value in
    if is_empty pattern
    then record r { ignored_count = r.ignored_count + 1 }
    else if any (same_key k pattern) r.domain_rules
    then r
    else record r {
      domain_rules = r.domain_rules ++ record { pattern = pattern; action = a; kind = k } ∷ [];
    }

unfoldable pub ignore : {N : Type 0} → RuleImportResult N → RuleImportResult N
ignore r = record r { ignored_count = r.ignored_count + 1 }

module _ {N : Type 0} where
  unfoldable pub rule_count : RuleImportResult N → ℕ
  rule_count r = length r.domain_rules + length r.ip_rules

  unfoldable pub action_counts : RuleImportResult N → ℕ × ℕ × ℕ
  unfolding fold_actions
  action_counts r =
      fold_actions (map (λ x. x.action) r.domain_rules ++ map (λ x. x.action) r.ip_rules)
        (three 0 0 0)

-- The first loop of `merge`; the keys in the hash set are those of the rules already there.
merge_domains : List DomainRule → List DomainRule → List DomainRule
merge_domains rules [] = rules
merge_domains rules (x ∷ xs) =
    merge_domains (if any (same_key x.kind x.pattern) rules then rules else rules ++ x ∷ []) xs

merge_warnings : List Text → List Text → List Text
merge_warnings ws [] = ws
merge_warnings ws (x ∷ xs) =
    merge_warnings (if any (λ w. str_eq w x) ws then ws else ws ++ x ∷ []) xs

module _ {N : Type 0} (net : IpNet N) where
  abbrev pub same_network : N → IpRule N → Bool
  same_network n r = net.net_eq r.network n

  unfoldable pub push_ip_rule : RuleImportResult N → N → RuleAction → RuleImportResult N
  push_ip_rule r n a =
      if any (same_network n) r.ip_rules
      then r
      else record r { ip_rules = r.ip_rules ++ record { network = n; action = a } ∷ [] }

  merge_ips : List (IpRule N) → List (IpRule N) → List (IpRule N)
  merge_ips rules [] = rules
  merge_ips rules (x ∷ xs) =
      merge_ips (if any (same_network x.network) rules then rules else rules ++ x ∷ []) xs

  unfoldable pub merge : RuleImportResult N → RuleImportResult N → RuleImportResult N
  unfolding merge_domains merge_ips merge_warnings
  merge r other = record r {
    domain_rules = merge_domains r.domain_rules other.domain_rules;
    ip_rules = merge_ips r.ip_rules other.ip_rules;
    ignored_count = r.ignored_count + other.ignored_count;
    warnings = merge_warnings r.warnings other.warnings;
  }

  abbrev full_length : IpAddr → ℕ
  full_length (v4 a b c d) = 32
  full_length (v6 octets) = 128

  unfoldable pub parse_network : Text → Option N
  parse_network value = elim (net.from_str value) [
    | some n ↦ some n
    | none ↦ elim (parse_addr value) [ none ↦ none | some a ↦ net.new a (full_length a) ]
  ]

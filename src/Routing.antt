-- ===== src/Routing.antt =====
-- crates/ssh-rocket-core/src/routing.rs: the routing engine. The two hash maps are association
-- lists, of which only `entry(..).or_insert` and `get` are used.
pub mod Spec
pub mod First
pub mod Index
pub mod Domains
pub mod Decide
pub mod Fits
mod Examples
use ssh_rocket.Base.{
  usize_max, ℕ, suc, ◌+◌, Bool, true, false, not, ◌&&◌, ◌||◌, List, [], ◌∷◌, ◌++◌, Option, none,
  some, ltb, leb, ◌==◌, if◌then◌else◌, find?,
}
use ssh_rocket.Config.{
  RuleAction, direct, DomainRuleKind, legacy, domain, domain_suffix, domain_keyword, DomainRule,
  IpRule, AppRule, GlobalSettings,
}
use ssh_rocket.FilePath.{path_eq}
use ssh_rocket.Net.{IpAddr, IpNet}
use ssh_rocket.Text.{
  Text, codes, str_eq, is_empty, is_char, trim, trim_start_matches, trim_end_matches,
  to_ascii_lowercase, ends_with, contains,
}

pub record FlowContext : Type 0 where
  pub destination : Option IpAddr
  pub domain_name : Option Text
  pub executable : Option Text

pub data MatchSource : Type 0 where
  custom_override app_rule domain_rule ip_rule default_policy : MatchSource

pub record RouteDecision : Type 0 where
  pub action : RuleAction
  pub source : MatchSource

-- The position of a rule in the configuration, and its action.
abbrev pub Entry : Type 0
Entry = ℕ × RuleAction

abbrev pub DomainMap : Type 0
DomainMap = List (Text × Entry)

unfoldable pub get : DomainMap → Text → Option Entry
unfolding str_eq
get [] k = none
get ((j, e) ∷ m) k = if str_eq j k then some e else get m k

-- `entry(k).or_insert(e)`
pub or_insert : DomainMap → Text → Entry → DomainMap
unfolding get
or_insert m k e = elim (get m k) [ none ↦ (k, e) ∷ m | some _ ↦ m ]

pub record Keyword : Type 0 where
  pub index : ℕ
  pub word : Text
  pub action : RuleAction

-- The three indices that `new` builds.
pub record DomainIndex : Type 0 where
  pub exact_domain_map : DomainMap
  pub suffix_domain_map : DomainMap
  pub keyword_rules : List Keyword

pub record RoutingEngine (N : Type 0) : Type 0 where
  pub settings : GlobalSettings N
  pub index : DomainIndex

-- The pattern as `new` stores it: trimmed, in lower case, with no dots at the end and neither
-- stars nor, after those, dots at the start.
unfoldable pub clean_pattern : Text → Text
clean_pattern pattern = trim_start_matches (is_char b'.') (
    trim_start_matches (is_char b'*')
      (to_ascii_lowercase (trim_end_matches (is_char b'.') (trim pattern))))

-- The `match rule.kind` of `new`.
pub insert_rule : DomainRuleKind → ℕ → Text → RuleAction → DomainIndex → DomainIndex
unfolding or_insert
insert_rule domain i clean a x = record x {
  exact_domain_map = or_insert x.exact_domain_map clean (i, a);
}
insert_rule domain_suffix i clean a x = record x {
  suffix_domain_map = or_insert x.suffix_domain_map clean (i, a);
}
insert_rule legacy i clean a x = record x {
  suffix_domain_map = or_insert x.suffix_domain_map clean (i, a);
}
insert_rule domain_keyword i clean a x = record x {
  keyword_rules = x.keyword_rules ++ record { index = i; word = clean; action = a } ∷ [];
}

-- One round of the loop of `new`, at position `i`.
pub index_rule : ℕ → DomainRule → DomainIndex → DomainIndex
unfolding clean_pattern insert_rule
index_rule i rule x =
    let clean = clean_pattern rule.pattern in
    if is_empty clean then x else insert_rule rule.kind i clean rule.action x

pub index_rules : ℕ → List DomainRule → DomainIndex → DomainIndex
unfolding index_rule
index_rules i [] x = x
index_rules i (rule ∷ rules) x = index_rules (suc i) rules (index_rule i rule x)

abbrev pub empty_index : DomainIndex
empty_index = record { exact_domain_map = []; suffix_domain_map = []; keyword_rules = [] }

-- `RoutingEngine::new`
unfoldable pub new : {N : Type 0} → GlobalSettings N → RoutingEngine N
unfolding index_rules
new s = record {
  settings = s;
  index = index_rules 0 (s.domain_rules ++ s.imported_domain_rules) empty_index;
}

-- `best_match.as_ref().map_or(true, |(best_idx, _)| idx < *best_idx)`
abbrev is_better : ℕ → Option Entry → Bool
is_better i none = true
is_better i (some (j, b)) = ltb i j

-- A hit replaces the best match so far if its rule comes first.
pub consider : Option Entry → Option Entry → Option Entry
consider best none = best
consider best (some (i, a)) = if is_better i best then some (i, a) else best

-- The `while let Some(pos)` loop: the text behind each dot is looked up, from left to right.
pub match_suffixes : DomainMap → Text → Option Entry → Option Entry
unfolding get consider
match_suffixes m [] best = best
match_suffixes m (c ∷ rest) best =
    match_suffixes m rest (if c == b'.' then consider best (get m rest) else best)

pub current_best_index : Option Entry → ℕ
current_best_index none = usize_max
current_best_index (some (i, a)) = i

-- The loop over the keyword rules, with its two `break`s.
pub match_keywords : List Keyword → Text → ℕ → Option Entry → Option Entry
unfolding contains
match_keywords [] d limit best = best
match_keywords (k ∷ ks) d limit best =
    if leb limit k.index
    then best
    else if contains d k.word
    then some (k.index, k.action)
    else match_keywords ks d limit best

-- The best match of `match_domain`, before its action is taken.
pub best_match : DomainIndex → Text → Option Entry
unfolding get consider match_suffixes match_keywords current_best_index
best_match x d =
    let exact = get x.exact_domain_map d in
    let whole = consider exact (get x.suffix_domain_map d) in
    let best = match_suffixes x.suffix_domain_map d whole in
    match_keywords x.keyword_rules d (current_best_index best) best

abbrev pub entry_action : Option Entry → Option RuleAction
entry_action none = none
entry_action (some (i, a)) = some a

unfoldable pub match_domain : DomainIndex → Text → Option RuleAction
unfolding best_match
match_domain x d = entry_action (best_match x d)

abbrev pub decision : RuleAction → MatchSource → RouteDecision
decision a s = record { action = a; source = s }

-- A domain as `decide` reads it.
unfoldable pub normalize_domain : Text → Text
normalize_domain d = to_ascii_lowercase (trim_end_matches (is_char b'.') d)

unfoldable pub is_localhost : Text → Bool
is_localhost d =
    str_eq d (codes "localhost")
    || ends_with d (codes ".localhost")
    || str_eq d (codes "localhost.localdomain")

unfoldable pub find_app_rule : List AppRule → Option Text → Option AppRule
find_app_rule rules none = none
find_app_rule rules (some executable) = find? (λ r. path_eq r.executable executable) rules

-- The part of `decide` under `if let Some(domain) = &flow.domain`; `none` falls through.
pub decide_name : DomainIndex → Text → Option RouteDecision
unfolding is_localhost match_domain
decide_name x d =
    if is_localhost d
    then some (decision direct custom_override)
    else elim (match_domain x d) [ none ↦ none | some a ↦ some (decision a domain_rule) ]

unfoldable pub decide_domain : DomainIndex → Option Text → Option RouteDecision
unfolding decide_name normalize_domain
decide_domain x none = none
decide_domain x (some name) = decide_name x (normalize_domain name)

module _ {N : Type 0} (net : IpNet N) where
  -- The first IP rule whose network holds the destination; none if there is no destination.
  unfoldable pub find_ip_rule : List (IpRule N) → Option IpAddr → Option (IpRule N)
  find_ip_rule rules none = none
  find_ip_rule rules (some ip) = find? (λ r. net.contains r.network ip) rules

  -- `RoutingEngine::decide`
  unfoldable pub decide : RoutingEngine N → FlowContext → RouteDecision
  unfolding find_ip_rule find_app_rule decide_domain
  decide e flow = elim (find_ip_rule e.settings.custom_overrides flow.destination) [
    | some r ↦ decision r.action custom_override
    | none ↦ elim (find_app_rule e.settings.app_rules flow.executable) [
      | some r ↦ decision r.action app_rule
      | none ↦ elim (decide_domain e.index flow.domain_name) [
        | some d ↦ d
        | none ↦
            elim (find_ip_rule (e.settings.ip_rules ++ e.settings.imported_ip_rules)
              flow.destination) [
                | some r ↦ decision r.action ip_rule
                | none ↦ decision e.settings.default_policy default_policy
              ]
      ]
    ]
  ]

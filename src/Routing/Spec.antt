-- ===== src/Routing/Spec.antt =====
-- What the routing engine means: the first rule, in the order of the configuration, whose pattern
-- fits the domain. Nothing here knows of the maps, the positions or the order of the lookups.
use ssh_rocket.Base.{Bool, not, ◌&&◌, ◌||◌, List, [], ◌∷◌, Option, none, some, find?}
use ssh_rocket.Config.{
  RuleAction, DomainRuleKind, legacy, domain, domain_suffix, domain_keyword, DomainRule,
}
use ssh_rocket.Routing.{RouteDecision, clean_pattern}
use ssh_rocket.Text.{Text, str_eq, is_empty, ends_with, contains}

-- A pattern of each kind, against a domain.
abbrev pub fits_kind : DomainRuleKind → Text → Text → Bool
fits_kind domain clean d = str_eq d clean
fits_kind domain_suffix clean d = str_eq d clean || ends_with d (b'.' ∷ clean)
fits_kind legacy clean d = str_eq d clean || ends_with d (b'.' ∷ clean)
fits_kind domain_keyword clean d = contains d clean

-- A rule whose pattern is empty after cleaning fits nothing.
abbrev pub fits : Text → DomainRule → Bool
fits d r = not (is_empty (clean_pattern r.pattern)) && fits_kind r.kind (clean_pattern r.pattern) d

abbrev pub rule_action : Option DomainRule → Option RuleAction
rule_action none = none
rule_action (some r) = some r.action

abbrev pub first_fit : List DomainRule → Text → Option RuleAction
first_fit rules d = rule_action (find? (fits d) rules)

-- The first of some decisions that is there.
abbrev pub first_some : List (Option RouteDecision) → RouteDecision → RouteDecision
first_some [] d = d
first_some (none ∷ ds) d = first_some ds d
first_some (some e ∷ ds) d = e

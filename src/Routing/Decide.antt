-- ===== src/Routing/Decide.antt =====
-- `decide`, as a chain of stages in the order of the README: override, application, domain, address,
-- default.
use ssh_rocket.Base.{
  usize_max, ℕ, ◌≤◌, ◌≡◌, refl, ap, true, List, [], ◌∷◌, ◌++◌, Option, none, some, arith,
  if◌then◌else◌, length,
}
use ssh_rocket.Text.Trims.{
  same_case, dots, trim_end_matches_dotted, to_ascii_lowercase-trim_end_matches,
  to_ascii_lowercase_same,
}
use ssh_rocket.Routing.{DomainIndex, decide_name}
use ssh_rocket.Config.{RuleAction, direct, DomainRule, IpRule, AppRule, GlobalSettings}
use ssh_rocket.Net.{IpNet}
use ssh_rocket.Routing.{
  FlowContext, MatchSource, custom_override, app_rule, domain_rule, ip_rule, default_policy,
  RouteDecision, RoutingEngine, new, decision, normalize_domain, is_localhost, find_ip_rule,
  find_app_rule, decide_domain, decide,
}
use ssh_rocket.Routing.Domains.{match_domain-first_fit}
use ssh_rocket.Routing.Spec.{first_fit, first_some}
use ssh_rocket.Text.{Text}

abbrev decided : MatchSource → Option RuleAction → Option RouteDecision
decided source none = none
decided source (some a) = some (decision a source)

abbrev pub ip_action : {N : Type 0} → Option (IpRule N) → Option RuleAction
ip_action none = none
ip_action (some r) = some r.action

abbrev pub app_action : Option AppRule → Option RuleAction
app_action none = none
app_action (some r) = some r.action

module _ {N : Type 0} (net : IpNet N) (s : GlobalSettings N) where
  abbrev pub all_domain_rules : List DomainRule
  all_domain_rules = s.domain_rules ++ s.imported_domain_rules

  -- The stage of the domain, which the loopback names leave with the source of an override.
  abbrev pub domain_stage : Option Text → Option RouteDecision
  domain_stage none = none
  domain_stage (some name) =
      if is_localhost (normalize_domain name)
      then some (decision direct custom_override)
      else decided domain_rule (first_fit all_domain_rules (normalize_domain name))

  abbrev pub stages : FlowContext → List (Option RouteDecision)
  stages flow =
      decided custom_override (ip_action (find_ip_rule net s.custom_overrides flow.destination))
      ∷ decided app_rule (app_action (find_app_rule s.app_rules flow.executable))
      ∷ domain_stage flow.domain_name
      ∷ decided ip_rule
          (ip_action (find_ip_rule net (s.ip_rules ++ s.imported_ip_rules) flow.destination))
      ∷ []

  decide_domain_stage :
      (name : Option Text)
      → length all_domain_rules ≤ usize_max
      → decide_domain (new s).index name ≡ domain_stage name
  unfolding decide_domain new
  decide_domain_stage none h = refl
  decide_domain_stage (some name) h =
      ground (arith, match_domain-first_fit all_domain_rules h (normalize_domain name))

  -- With at most usize::MAX domain rules, decide on a new engine is the first decision among the
  -- stages custom override, application rule, domain, IP rule, and else the default policy; the
  -- domain stage is the loopback names or the first rule that fits.
  pub decide-first_some :
      (flow : FlowContext)
      → length all_domain_rules ≤ usize_max
      → decide net (new s) flow
        ≡ first_some (stages flow) (decision s.default_policy default_policy)
  unfolding decide new
  decide-first_some flow h = ground (arith, decide_domain_stage flow.domain_name h)

-- Case and dots at the end are lost in the normal form of a domain.
normalize_domain_same :
    (a b : Text) (m n : ℕ)
    → same_case a b ≡ true
    → normalize_domain (a ++ dots m) ≡ normalize_domain (b ++ dots n)
unfolding normalize_domain
normalize_domain_same a b m n h =
    rw
      (
        trim_end_matches_dotted a m,
        trim_end_matches_dotted b n,
        to_ascii_lowercase-trim_end_matches a,
        to_ascii_lowercase-trim_end_matches b,
        to_ascii_lowercase_same a b h,
      )
      refl

decide_domain_same :
    (x : DomainIndex) (a b : Text)
    → normalize_domain a ≡ normalize_domain b
    → decide_domain x (some a) ≡ decide_domain x (some b)
unfolding decide_domain
decide_domain_same x a b same = ap (decide_name x) same

module _ {N : Type 0} (net : IpNet N) where
  decide_same_domain :
      (e : RoutingEngine N) (flow : FlowContext) (m n : Option Text)
      → decide_domain e.index m ≡ decide_domain e.index n
      → decide net e (record flow { domain_name = m })
        ≡ decide net e (record flow { domain_name = n })
  unfolding decide
  decide_same_domain e flow m n same = ground arith

  -- For every engine and flow, two domains that differ at most in the case of ASCII letters and in
  -- the number of dots at the end get the same decision.
  pub decide_same_name :
      (e : RoutingEngine N) (flow : FlowContext) (a b : Text) (m n : ℕ)
      → same_case a b ≡ true
      → decide net e (record flow { domain_name = some (a ++ dots m) })
        ≡ decide net e (record flow { domain_name = some (b ++ dots n) })
  decide_same_name e flow a b m n h =
      decide_same_domain e flow _ _
        (decide_domain_same e.index _ _ (normalize_domain_same a b m n h))

-- ===== src/Routing/Examples.antt =====
-- Tests of the engine on the cases of the source's own tests, and the theorems at concrete inputs.
use ssh_rocket.Base.{usize_max, ◌≡◌, refl, List, [], ◌∷◌, none, some, length, ◌≤◌, arith}
use ssh_rocket.Config.{
  direct, proxy, block, domain, domain_keyword, legacy, DomainRule, GlobalSettings,
  default_settings,
}
use ssh_rocket.Net.{v4}
use ssh_rocket.Net.Blocks.{Block, blocks, ten}
use ssh_rocket.Routing.{
  FlowContext, custom_override, app_rule, domain_rule, default_policy, decision, new, decide,
  match_domain,
}
use ssh_rocket.Routing.Decide.{stages, decide-first_some, decide_same_name}
use ssh_rocket.Routing.Domains.{built, match_domain-first_fit}
use ssh_rocket.Routing.Spec.{first_fit, first_some}
use ssh_rocket.Text.{
  trim_start_matches, trim_end_matches, to_ascii_lowercase, trim, codes, ends_with,
}
use ssh_rocket.FilePath.{path_eq}

abbrev rules : List DomainRule
rules =
    record { pattern = codes " *.Example.com. "; action = proxy; kind = legacy }
    ∷ record { pattern = codes "google.com"; action = block; kind = domain }
    ∷ record { pattern = codes "openai"; action = proxy; kind = domain_keyword }
    ∷ record { pattern = codes "api.example.com"; action = direct; kind = domain }
    ∷ []

abbrev settings : GlobalSettings Block
settings = record (default_settings Block) {
  default_policy = direct;
  custom_overrides = record { network = ten; action = block } ∷ [];
  app_rules = record { executable = codes "/usr/bin/firefox"; action = direct } ∷ [];
  domain_rules = rules;
  ip_rules = record { network = ten; action = direct } ∷ [];
}

abbrev flow : FlowContext
flow = record {
  destination = some (v4 10 1 2 3);
  domain_name = some (codes "api.example.com");
  executable = some (codes "/usr/bin//firefox");
}

override_first : decide blocks (new settings) flow ≡ decision block custom_override
unfolding decide new blocks trim_start_matches trim_end_matches to_ascii_lowercase trim ends_with
override_first = refl

-- The first rule wins although the exact map is read first.
suffix_before_exact :
    decide blocks (new settings) (record flow { destination = none; executable = none })
    ≡ decision proxy domain_rule
unfolding decide new blocks trim_start_matches trim_end_matches to_ascii_lowercase trim ends_with
suffix_before_exact = refl

app_second :
    decide blocks (new settings) (record flow { destination = none }) ≡ decision direct app_rule
unfolding decide new blocks path_eq
app_second = refl

exact_not_below :
    decide blocks (new settings) (record {
      destination = none;
      domain_name = some (codes "sub.google.com");
      executable = none;
    })
    ≡ decision direct default_policy
unfolding decide new blocks trim_start_matches trim_end_matches to_ascii_lowercase trim ends_with
exact_not_below = refl

decide-first_some_example :
    decide blocks (new settings) flow
    ≡ first_some (stages blocks settings flow) (decision direct default_policy)
decide-first_some_example = decide-first_some blocks settings flow (omega arith)

decide_same_name_example :
    decide blocks (new settings) (record flow { domain_name = some (codes "API.example.Com..") })
    ≡ decide blocks (new settings) (record flow { domain_name = some (codes "api.Example.com") })
decide_same_name_example =
    decide_same_name blocks (new settings) flow (codes "API.example.Com") (codes "api.Example.com")
      2 0 refl

few_rules : length rules ≤ usize_max
few_rules = omega arith

match_domain-first_fit_example :
    match_domain (built rules few_rules) (codes "chat.openai.com")
    ≡ first_fit rules (codes "chat.openai.com")
match_domain-first_fit_example = match_domain-first_fit rules few_rules (codes "chat.openai.com")

keyword_hit : match_domain (built rules few_rules) (codes "chat.openai.com") ≡ some proxy
unfolding match_domain new trim_start_matches trim_end_matches to_ascii_lowercase trim
keyword_hit = refl

no_hit : match_domain (built rules few_rules) (codes "notexample.com") ≡ none
unfolding match_domain new trim_start_matches trim_end_matches to_ascii_lowercase trim
no_hit = refl

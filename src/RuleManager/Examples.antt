-- ===== src/RuleManager/Examples.antt =====
-- Tests of the rule manager, and the theorems at concrete inputs.
use ssh_rocket.Base.{◌≡◌, refl, true, List, [], ◌∷◌, none}
use ssh_rocket.Config.{
  direct, proxy, block, domain, domain_suffix, DomainRule, default_settings, AppConfig,
}
use ssh_rocket.Net.Blocks.{Block, blocks, ten}
use ssh_rocket.Text.{
  Text, codes, str_eq, split, starts_with, contains, trim, trim_end_matches, to_ascii_lowercase,
  to_ascii_uppercase, lines, strip_prefix, ends_with, is_whitespace,
}
use ssh_rocket.Importer.{ignore, push_domain_rule, merge, stored_pattern}
use ssh_rocket.Importer.{ignore, rule_count, normalize_action}
use ssh_rocket.Utf8.{from_utf8}
use ssh_rocket.Importer.Shadowrocket.{
  parse_shadowrocket_rules, parse_rule_set, parse_lines, parse_section_line, parse_general_line,
  add_other, add_rule, add_parts, parse_rule_line, is_comment, domain_kind, third_action,
  line_action, parse_set_lines,
}
use ssh_rocket.RuleManager.{
  err, CurlRun, exited, rule_source_name, import_rule_source, listed_domain, listed_ip,
  custom_rules, remove_listed_rule, matches_query, add_rule_sets, download_rule_text, note_left_out,
  checked_import,
}
use ssh_rocket.RuleManager.Imports.{OnSuccess, IsImported, import_rule_source-OnSuccess}

named : rule_source_name (codes "https://example.com/lists/main.conf/?x=1/2") ≡ codes "main.conf"
unfolding rule_source_name split
named = refl

unnamed : rule_source_name (codes "?x") ≡ codes "订阅规则"
unfolding rule_source_name split
unnamed = refl

abbrev rule : DomainRule
rule = record { pattern = codes "example.com"; action = proxy; kind = domain }

abbrev config : AppConfig Block
config = record {
  profiles = [];
  active_profile_id = none;
  port_forwards = [];
  settings = record (default_settings Block) {
    domain_rules =
        rule ∷ record rule { kind = domain_suffix } ∷ record rule { action = block } ∷ [];
    ip_rules = record { network = ten; action = direct } ∷ [];
  };
}

-- Rules of the same pattern and kind go together.
removed :
    custom_rules (remove_listed_rule blocks config (listed_domain rule))
    ≡ listed_domain (record rule { kind = domain_suffix })
      ∷ listed_ip (record { network = ten; action = direct })
      ∷ []
unfolding custom_rules remove_listed_rule str_eq
removed = refl

found :
    matches_query
      (λ n. codes "10.0.0.0/8")
      to_ascii_lowercase
      (listed_ip (record { network = ten; action = block }))
      (codes "reject")
    ≡ true
unfolding matches_query contains starts_with to_ascii_lowercase
found = refl

abbrev url : Text
url = codes "https://example.com/main.conf"

abbrev curl : List Text → CurlRun
curl args =
    exited true []
      (codes "[Rule]\nDOMAIN,example.com,PROXY\nRULE-SET,https://example.com/set.list,REJECT\n") []

import_rule_source-OnSuccess_example :
    OnSuccess blocks curl (IsImported blocks curl url) (import_rule_source blocks curl url)
import_rule_source-OnSuccess_example = import_rule_source-OnSuccess blocks curl url

plain_http :
    import_rule_source blocks curl (codes "http://example.com/") ≡ err (codes "仅支持 HTTPS 协议的规则订阅链接")
unfolding import_rule_source starts_with
plain_http = refl

-- The referred set is the same text: the rule is there already.
imports :
    OnSuccess blocks curl (λ r. r.domain_rules ≡ rule ∷ []) (import_rule_source blocks curl url)
unfolding import_rule_source download_rule_text add_rule_sets note_left_out checked_import merge
    starts_with from_utf8 rule_count parse_shadowrocket_rules parse_rule_set parse_lines
    parse_section_line parse_general_line is_comment domain_kind third_action line_action
    parse_set_lines add_parts add_rule add_other parse_rule_line push_domain_rule stored_pattern
    normalize_action lines split trim trim_end_matches to_ascii_lowercase to_ascii_uppercase str_eq
    is_whitespace ends_with strip_prefix ignore
imports = refl

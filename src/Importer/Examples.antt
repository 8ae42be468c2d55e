-- ===== src/Importer/Examples.antt =====
-- Tests of the importer on the cases of the source's own test, and the theorems at concrete inputs.
use ssh_rocket.Base.{◌≡◌, ◌+◌, refl, [], ◌∷◌, ◌++◌, some, map}
use ssh_rocket.Config.{direct, proxy, block, domain, domain_suffix, domain_keyword}
use ssh_rocket.Net.{v4}
use ssh_rocket.Net.Blocks.{Block, blocks, ten}
use ssh_rocket.Net.Parse.{parse_addr}
use ssh_rocket.Routing.{find_ip_rule}
use ssh_rocket.Routing.Spec.{first_fit}
use ssh_rocket.Text.{
  Text, codes, lines, split, split_once, trim, trim_start_matches, trim_end_matches,
  to_ascii_lowercase, to_ascii_uppercase, str_eq, starts_with, ends_with, strip_prefix,
  is_whitespace,
}
use ssh_rocket.Importer.{
  RuleImportResult, rule_count, action_counts, merge, stored_pattern, push_domain_rule,
  push_ip_rule, ignore, normalize_action, parse_network,
}
use ssh_rocket.Importer.Clean.{IsClean}
use ssh_rocket.Importer.CleanLists.{parse_shadowrocket_rules-IsClean}
use ssh_rocket.Importer.Routes.{merge-first_fit, merge-find_ip_rule, push_domain_rule-first_fit}
use ssh_rocket.Importer.Shadowrocket.{
  parse_shadowrocket_rules, parse_rule_set, parse_lines, parse_section_line, parse_general_line,
  add_entry, is_bypass_key, add_values, add_value, add_network_or_name, add_name, push_network,
  add_other, add_rule, add_parts, parse_rule_line, is_comment, domain_kind, third_action,
  line_action, parse_set_lines,
}

abbrev content : Text
content =
    codes
      "[General]\nskip-proxy = *.lan.test, 10.0.0.0/8\n[Rule]\nDOMAIN,api.example.com,DIRECT\nDOMAIN,API.example.com.,PROXY\nDOMAIN-KEYWORD,ads,REJECT\nRULE-SET,https://example.com/rules.list,REJECT\nFINAL,PROXY\n"

abbrev parsed : RuleImportResult Block
parsed = parse_shadowrocket_rules blocks content

abbrev listed : RuleImportResult Block
listed =
    parse_rule_set blocks
      (codes "# comment\nDOMAIN,example.org\nDOMAIN,api.example.com\nURL-REGEX,x\n") block

parsed_rules :
    parsed.domain_rules
    ≡ record { pattern = codes "lan.test"; action = direct; kind = domain_suffix }
      ∷ record { pattern = codes "api.example.com"; action = direct; kind = domain }
      ∷ record { pattern = codes "ads"; action = block; kind = domain_keyword }
      ∷ []
unfolding parse_shadowrocket_rules parse_lines parse_section_line parse_general_line add_entry
    is_bypass_key add_values add_value add_network_or_name add_name push_network add_other add_rule
    add_parts parse_rule_line is_comment domain_kind third_action line_action parse_set_lines
    parse_rule_set lines split split_once trim trim_start_matches trim_end_matches
    to_ascii_lowercase to_ascii_uppercase str_eq starts_with ends_with strip_prefix stored_pattern
    push_domain_rule push_ip_rule ignore normalize_action parse_network parse_addr blocks rule_count
    action_counts is_whitespace
parsed_rules = refl

parsed_networks : map (λ r. r.network) parsed.ip_rules ≡ ten ∷ []
unfolding parse_shadowrocket_rules parse_lines parse_section_line parse_general_line add_entry
    is_bypass_key add_values add_value add_network_or_name add_name push_network add_other add_rule
    add_parts parse_rule_line is_comment domain_kind third_action line_action parse_set_lines
    parse_rule_set lines split split_once trim trim_start_matches trim_end_matches
    to_ascii_lowercase to_ascii_uppercase str_eq starts_with ends_with strip_prefix stored_pattern
    push_domain_rule push_ip_rule ignore normalize_action parse_network parse_addr blocks rule_count
    action_counts is_whitespace
parsed_networks = refl

listed_counts : listed.ignored_count + rule_count listed ≡ 3
unfolding parse_shadowrocket_rules parse_lines parse_section_line parse_general_line add_entry
    is_bypass_key add_values add_value add_network_or_name add_name push_network add_other add_rule
    add_parts parse_rule_line is_comment domain_kind third_action line_action parse_set_lines
    parse_rule_set lines split split_once trim trim_start_matches trim_end_matches
    to_ascii_lowercase to_ascii_uppercase str_eq starts_with ends_with strip_prefix stored_pattern
    push_domain_rule push_ip_rule ignore normalize_action parse_network parse_addr blocks rule_count
    action_counts is_whitespace
listed_counts = refl

parse_shadowrocket_rules-IsClean_example : IsClean blocks parsed
parse_shadowrocket_rules-IsClean_example = parse_shadowrocket_rules-IsClean blocks content

merge-first_fit_example :
    first_fit (merge blocks parsed listed).domain_rules (codes "api.example.com")
    ≡ first_fit (parsed.domain_rules ++ listed.domain_rules) (codes "api.example.com")
merge-first_fit_example = merge-first_fit blocks parsed listed (codes "api.example.com")

merge-find_ip_rule_example :
    find_ip_rule blocks (merge blocks listed parsed).ip_rules (some (v4 10 1 2 3))
    ≡ find_ip_rule blocks (listed.ip_rules ++ parsed.ip_rules) (some (v4 10 1 2 3))
merge-find_ip_rule_example = merge-find_ip_rule blocks listed parsed (some (v4 10 1 2 3))

push_domain_rule-first_fit_example :
    first_fit
      (push_domain_rule parsed (codes " ADS. ") proxy domain_keyword).domain_rules
      (codes "ads.example.org")
    ≡ first_fit
        (parsed.domain_rules
          ++ record {
            pattern = stored_pattern (codes " ADS. ");
            action = proxy;
            kind = domain_keyword;
          }
            ∷ [])
        (codes "ads.example.org")
push_domain_rule-first_fit_example =
    push_domain_rule-first_fit parsed (codes " ADS. ") proxy domain_keyword
      (codes "ads.example.org")

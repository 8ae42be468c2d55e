-- ===== src/Importer/OmegaExamples.antt =====
-- Tests of the import of backups on cases of the source's own test, and the theorem at one of them.
use ssh_rocket.Net.Parse.{parse_addr}
use ssh_rocket.Base.{◌≡◌, refl, List, [], ◌∷◌, Option, none, some}
use ssh_rocket.Config.{direct, proxy, domain, domain_suffix, domain_keyword, DomainRule}
use ssh_rocket.Net.Blocks.{Block, blocks}
use ssh_rocket.Text.{
  Text, codes, str_eq, split, trim, trim_start_matches, trim_end_matches, to_ascii_lowercase,
  starts_with, ends_with, utf8_len, is_whitespace,
}
use ssh_rocket.Importer.{
  stored_pattern, push_domain_rule, push_ip_rule, ignore, parse_network, rule_count,
}
use ssh_rocket.Importer.CleanOmega.{IsGood, parse_omega_rules-IsGood}
use ssh_rocket.Importer.Omega

-- Values with their lists spelled out.
data Value : Type 0 where
  text : Text → Value
  nil : Value
  entry : Text → Value → Value → Value
  item : Value → Value → Value

abbrev entries_of : Value → List (Text × Value)
entries_of (entry k v rest) = (k, v) ∷ entries_of rest
entries_of (text s) = []
entries_of nil = []
entries_of (item v rest) = []

abbrev items_of : Value → List Value
items_of (item v rest) = v ∷ items_of rest
items_of (text s) = []
items_of nil = []
items_of (entry k v rest) = []

abbrev object_view : Value → Option (List (Text × Value))
object_view (entry k v rest) = some (entries_of (entry k v rest))
object_view _ = none

abbrev array_view : Value → Option (List Value)
array_view (item v rest) = some (items_of (item v rest))
array_view _ = none

abbrev text_view : Value → Option Text
text_view (text s) = some s
text_view _ = none

abbrev rule : Text → Text → Value
rule pattern profile_name =
    entry (codes "condition")
      (entry (codes "conditionType") (text (codes "HostWildcardCondition"))
        (entry (codes "pattern") (text pattern) nil))
      (entry (codes "profileName") (text profile_name) nil)

abbrev backup : Value
backup =
    entry (codes "+auto switch")
      (entry (codes "profileType") (text (codes "SwitchProfile")) (
        entry (codes "rules")
          (item (rule (codes "*.example.com") (codes "direct")) (
            item (rule (codes "*.dingding.*") (codes "direct")) (
              item (rule (codes "*.*.cn") (codes "direct"))
                (item (rule (codes "plaindomain.org") (codes "proxy")) nil))))
          nil))
      nil

abbrev json : Omega.Json Value
json = record {
  from_str = λ s. some backup;
  as_object = object_view;
  as_array = array_view;
  as_str = text_view;
}

abbrev rules : List DomainRule
rules =
    record { pattern = codes "*.example.com"; action = direct; kind = domain_suffix }
    ∷ record { pattern = codes "dingding"; action = direct; kind = domain_keyword }
    ∷ record { pattern = codes "*.cn"; action = direct; kind = domain_suffix }
    ∷ record { pattern = codes "plaindomain.org"; action = proxy; kind = domain }
    ∷ []

abbrev rules_of : Omega.OmegaResult Block → List DomainRule
rules_of (Omega.imported r) = r.domain_rules
rules_of (Omega.rejected e) = []

backup_rules : rules_of (Omega.parse_omega_rules blocks json []) ≡ rules
unfolding Omega.parse_omega_rules Omega.parse_root Omega.checked Omega.found_switch_profile
    Omega.has_profile Omega.add_profiles Omega.add_profile Omega.is_switch_profile Omega.string_or
    Omega.get_field Omega.array_of Omega.object_of Omega.add_omega_rules Omega.add_omega_rule
    Omega.add_entry Omega.add_condition Omega.push_or Omega.push_wildcard Omega.any_network
    Omega.parse_wildcard_ip Omega.wildcard_parts Omega.block_of Omega.omega_action
    Omega.wildcard_suffix Omega.trim_matches str_eq split trim trim_start_matches trim_end_matches
    to_ascii_lowercase starts_with ends_with utf8_len is_whitespace stored_pattern push_domain_rule
    push_ip_rule ignore parse_network rule_count blocks parse_addr
backup_rules = refl

parse_omega_rules-IsGood_example : IsGood blocks (Omega.parse_omega_rules blocks json [])
parse_omega_rules-IsGood_example = parse_omega_rules-IsGood blocks json []

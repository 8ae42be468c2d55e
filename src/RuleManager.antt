-- ===== src/RuleManager.antt =====
-- crates/ssh-rocket-gui/src/rule_manager.rs: the rules as they are listed, their removal, and the
-- import of a rule source. What curl answers is a parameter, and so are the texts of networks and the
-- Unicode tables of `str::to_lowercase`.
pub mod Imports
pub mod Listing
mod Examples
use ssh_rocket.Base.{
  ℕ, zero, suc, ◌+◌, ◌-◌, ◌*◌, ◌/◌, ◌%◌, ◌^◌, ◌≤◌, ◌<◌, min, ◌≡◌, refl, sym, ap, ◌∙◌, Bool, true,
  false, not, ◌&&◌, ◌||◌, List, [], ◌∷◌, ◌++◌, map, append_assoc, Option, none, some, arith, ltb,
  leb, ◌==◌, if◌then◌else◌, length, get_elem?, take, null, find?, any, all, retain, inl, inr,
  Bool-cases,
}
use ssh_rocket.Config.{
  RuleAction, direct, proxy, block, DomainRuleKind, legacy, domain, domain_suffix, domain_keyword,
  DomainRule, IpRule, AppConfig,
}
use ssh_rocket.Net.{IpNet}
use ssh_rocket.Text.{Text, codes, is_empty, is_char, split, starts_with, contains, str_eq, trim}
use ssh_rocket.Utf8.{from_utf8}
use ssh_rocket.Importer.{RuleSetReference, RuleImportResult, rule_count, merge, kind_eq}
use ssh_rocket.Importer.Shadowrocket.{parse_shadowrocket_rules, parse_rule_set}

pub data Result (A : Type 0) : Type 0 where
  ok : A → Result A
  err : Text → Result A

abbrev pub max_rule_source_size : ℕ
max_rule_source_size = 16 * 1024 * 1024

pub data ListedRule (N : Type 0) : Type 0 where
  listed_domain : DomainRule → ListedRule N
  listed_ip : IpRule N → ListedRule N

abbrev pub action_label : RuleAction → Text
action_label direct = codes "DIRECT"
action_label proxy = codes "PROXY"
action_label block = codes "REJECT"

abbrev pub domain_kind_label : DomainRuleKind → Text
domain_kind_label domain = codes "DOMAIN"
domain_kind_label domain_suffix = codes "DOMAIN-SUFFIX"
domain_kind_label domain_keyword = codes "DOMAIN-KEYWORD"
domain_kind_label legacy = codes "LEGACY"

module _ {N : Type 0} where
  abbrev pub kind_label : ListedRule N → Text
  kind_label (listed_domain rule) = domain_kind_label rule.kind
  kind_label (listed_ip rule) = codes "IP-CIDR"

  abbrev pub listed_action : ListedRule N → RuleAction
  listed_action (listed_domain rule) = rule.action
  listed_action (listed_ip rule) = rule.action

  module _ (show : N → Text) (to_lowercase : Text → Text) where
    abbrev pub listed_value : ListedRule N → Text
    listed_value (listed_domain rule) = rule.pattern
    listed_value (listed_ip rule) = show rule.network

    -- `ListedRule::matches`
    unfoldable pub matches_query : ListedRule N → Text → Bool
    matches_query rule query =
        is_empty query
        || (contains (to_lowercase (listed_value rule)) query
            || (contains (to_lowercase (kind_label rule)) query
                || contains (to_lowercase (action_label (listed_action rule))) query))

  unfoldable pub custom_rules : AppConfig N → List (ListedRule N)
  custom_rules config =
      map listed_domain config.settings.domain_rules ++ map listed_ip config.settings.ip_rules

  unfoldable pub imported_rules : AppConfig N → List (ListedRule N)
  imported_rules config =
      map listed_domain config.settings.imported_domain_rules
      ++ map listed_ip config.settings.imported_ip_rules

abbrev find_last : List Text → Option Text
find_last [] = none
find_last (part ∷ parts) = elim (find_last parts) [
  | some last ↦ some last
  | none ↦ if is_empty part then none else some part
]

abbrev pub is_stop : ℕ → Bool
is_stop c = c == b'?' || c == b'#'

abbrev first_of : List Text → Option Text
first_of [] = none
first_of (part ∷ parts) = some part

abbrev or_subscription : Option Text → Text
or_subscription none = codes "订阅规则"
or_subscription (some name) = name

abbrev name_of : Option Text → Option Text
name_of none = none
name_of (some url) = find_last (split (is_char b'/') url)

unfoldable pub rule_source_name : Text → Text
rule_source_name source_url = or_subscription (name_of (first_of (split is_stop source_url)))

-- What a run of curl answers; `stderr` is decoded with replacement characters.
pub data CurlRun : Type 0 where
  not_started : Text → CurlRun
  exited : Bool → Text → List ℕ → Text → CurlRun

abbrev pub curl_args : Text → List Text
curl_args url =
    codes "--fail"
    ∷ codes "--silent"
    ∷ codes "--show-error"
    ∷ codes "--location"
    ∷ codes "--max-time"
    ∷ codes "120"
    ∷ codes "--proto"
    ∷ codes "=https"
    ∷ codes "--proto-redir"
    ∷ codes "=https"
    ∷ codes "--max-filesize"
    ∷ codes "16777216"
    ∷ url
    ∷ []

abbrev utf8_text : Option Text → Result Text
utf8_text none = err (codes "规则内容非有效 UTF-8 编码")
utf8_text (some s) = ok s

abbrev pub curl_result : CurlRun → Result Text
curl_result (not_started error) = err (codes "curl 命令启动失败: " ++ error)
curl_result (exited false status stdout stderr) =
    if is_empty (trim stderr) then err (codes "curl 进程退出码: " ++ status) else err (trim stderr)
curl_result (exited true status stdout stderr) =
    if ltb max_rule_source_size (length stdout)
    then err (codes "规则源文件大小超过 16 MB 限制")
    else utf8_text (from_utf8 stdout)

abbrev pub not_https : {A : Type 0} → Result A
not_https = err (codes "仅支持 HTTPS 协议的规则订阅链接")

module _ {N : Type 0} (net : IpNet N) where
  unfoldable pub remove_listed_rule : AppConfig N → ListedRule N → AppConfig N
  remove_listed_rule config (listed_domain rule) = record config {
    settings = record config.settings {
      domain_rules =
          retain (λ item. not (str_eq item.pattern rule.pattern && kind_eq item.kind rule.kind))
            config.settings.domain_rules;
    };
  }
  remove_listed_rule config (listed_ip rule) = record config {
    settings = record config.settings {
      ip_rules =
          retain (λ item. not (net.net_eq item.network rule.network)) config.settings.ip_rules;
    };
  }

  module _ (curl : List Text → CurlRun) where
    unfoldable pub download_rule_text : Text → Result Text
    download_rule_text url =
        if not (starts_with url (codes "https://"))
        then not_https
        else curl_result (curl (curl_args url))

    abbrev pub add_rule_set : RuleAction → RuleImportResult N → Result Text → RuleImportResult N
    add_rule_set action result (ok content) = merge net result (parse_rule_set net content action)
    add_rule_set action result (err error) = record result {
      ignored_count = result.ignored_count + 1;
      warnings = result.warnings ++ (codes "子规则集跳过: " ++ error) ∷ [];
    }

    unfoldable pub add_rule_sets : List RuleSetReference → RuleImportResult N → RuleImportResult N
    add_rule_sets [] result = result
    add_rule_sets (reference ∷ references) result =
        add_rule_sets references
          (add_rule_set reference.action result (download_rule_text reference.url))

    unfoldable pub note_left_out : RuleImportResult N → RuleImportResult N
    note_left_out result =
        if ltb 8 (length result.rule_sets)
        then record result {
          ignored_count = result.ignored_count + (length result.rule_sets - 8);
          warnings = result.warnings ++ codes "部分超出数量限制的子规则集已被跳过" ∷ [];
        }
        else result

    unfoldable pub checked_import : RuleImportResult N → Result (RuleImportResult N)
    checked_import result =
        if rule_count result == 0 then err (codes "规则源不包含任何支持的有效规则") else ok result

    abbrev pub import_content : Result Text → Result (RuleImportResult N)
    import_content (err error) = err error
    import_content (ok content) =
        let result = parse_shadowrocket_rules net content in
        checked_import (note_left_out (add_rule_sets (take 8 result.rule_sets) result))

    unfoldable pub import_rule_source : Text → Result (RuleImportResult N)
    import_rule_source url =
        if not (starts_with url (codes "https://"))
        then not_https
        else import_content (download_rule_text url)

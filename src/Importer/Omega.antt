-- ===== src/Importer/Omega.antt =====
-- crates/ssh-rocket-core/src/rule_importer.rs: the backups of ZeroOmega and SwitchyOmega. JSON (crate
-- serde_json) is a parameter: parsing, and the views of a value as an object, an array or a string.
use ssh_rocket.Base.{
  ℕ, Bool, false, not, ◌&&◌, ◌||◌, List, [], ◌∷◌, ◌++◌, Option, none, some, ltb, ◌==◌,
  if◌then◌else◌,
}
use ssh_rocket.Config.{RuleAction, direct, proxy, block, domain, domain_suffix, domain_keyword}
use ssh_rocket.Net.{v4, IpNet}
use ssh_rocket.Net.Parse.{parse_u8}
use ssh_rocket.Text.{
  Text, codes, str_eq, is_empty, is_char, utf8_len, trim, trim_start_matches, trim_end_matches,
  to_ascii_lowercase, starts_with, ends_with, strip_prefix, split,
}
use ssh_rocket.Importer.{
  RuleImportResult, default_result, push_domain_rule, push_ip_rule, parse_network, ignore,
  rule_count,
}
use ssh_rocket.Importer.Shadowrocket.{push_network}

-- An object lists its entries in the order in which they are iterated.
pub record Json (V : Type 0) : Type 0 where
  pub from_str : Text → Option V
  pub as_object : V → Option (List (Text × V))
  pub as_array : V → Option (List V)
  pub as_str : V → Option Text

pub data OmegaError : Type 0 where
  invalid_json not_an_object no_switch_profile no_supported_rules : OmegaError

pub data OmegaResult (N : Type 0) : Type 0 where
  imported : RuleImportResult N → OmegaResult N
  rejected : OmegaError → OmegaResult N

abbrev pub or_else {ℓ} : {A : Type ℓ} → Option A → Option A → Option A
or_else none b = b
or_else (some a) b = some a

unfoldable pub trim_matches : ℕ → Text → Text
trim_matches x s = trim_end_matches (is_char x) (trim_start_matches (is_char x) s)

-- The part before the first `/`, `:` or `?`.
unfoldable pub first_part : List Text → Text
first_part [] = []
first_part (w ∷ ws) = trim w

unfoldable pub without_scheme : Text → Text
without_scheme url =
    elim (or_else (strip_prefix url (codes "*://"))
      (or_else (strip_prefix url (codes "https://")) (strip_prefix url (codes "http://")))) [
        | none ↦ url
        | some rest ↦ rest
      ]

unfoldable pub extract_host_from_url_wildcard : Text → Option Text
extract_host_from_url_wildcard url =
    let host_part =
      first_part (split (λ c. c == b'/' || (c == b':' || c == b'?')) (without_scheme url)) in
    if is_empty host_part then none else some host_part

unfoldable pub omega_action : Text → RuleAction
omega_action profile_name =
    if str_eq profile_name (codes "direct")
    then direct
    else if str_eq profile_name (codes "reject") || str_eq profile_name (codes "block")
    then block
    else proxy

-- `trim_start_matches` of the stars and dots before a suffix
unfoldable pub wildcard_suffix : Text → Text
wildcard_suffix pattern =
    codes "*."
    ++ trim_start_matches (is_char b'.') (
        trim_start_matches (is_char b'*')
          (trim_start_matches (is_char b'.') (trim_start_matches (is_char b'*') pattern)))

abbrev pub is_star : Text → Bool
is_star s = str_eq s (codes "*")

module _ {N : Type 0} (net : IpNet N) where
  unfoldable pub block_of : Option ℕ → Option ℕ → Option ℕ → ℕ → Option N
  block_of (some a) (some b) (some c) prefix = net.new (v4 a b c 0) prefix
  block_of _ _ _ prefix = none

  unfoldable pub wildcard_parts : List Text → Option N
  wildcard_parts (p ∷ q ∷ r ∷ s ∷ []) =
      if is_star q && (is_star r && is_star s)
      then block_of (parse_u8 p) (some 0) (some 0) 8
      else if is_star r && is_star s
      then block_of (parse_u8 p) (parse_u8 q) (some 0) 16
      else if is_star s
      then block_of (parse_u8 p) (parse_u8 q) (parse_u8 r) 24
      else none
  wildcard_parts _ = none

  unfoldable pub parse_wildcard_ip : Text → Option N
  parse_wildcard_ip pattern = wildcard_parts (split (is_char b'.') pattern)

  unfoldable pub any_network : Text → Option N
  any_network pattern = or_else (parse_wildcard_ip pattern) (parse_network net pattern)

  -- A network, or else what is given for names.
  unfoldable pub push_or :
      Option N → RuleAction → RuleImportResult N → RuleImportResult N → RuleImportResult N
  push_or none a r names = names
  push_or (some n) a r names = push_ip_rule net r n a

  unfoldable pub push_wildcard : Text → RuleAction → RuleImportResult N → RuleImportResult N
  push_wildcard pattern a r =
      if starts_with pattern (codes "*.")
        && (ends_with pattern (codes ".*") && ltb 4 (utf8_len pattern))
      then push_domain_rule r (trim_matches b'.' (trim_matches b'*' pattern)) a domain_keyword
      else if str_eq pattern (codes "*.*.cn")
          || (starts_with pattern (codes "*.*.") && ltb 4 (utf8_len pattern))
      then push_domain_rule r (wildcard_suffix pattern) a domain_suffix
      else if starts_with pattern (codes "*.")
      then push_domain_rule r pattern a domain_suffix
      else push_domain_rule r pattern a domain

  unfoldable pub push_host : Option Text → RuleAction → RuleImportResult N → RuleImportResult N
  push_host none a r = ignore r
  push_host (some host) a r = push_or (any_network host) a r (
      if starts_with host (codes "*.")
      then push_domain_rule r host a domain_suffix
      else push_domain_rule r host a domain)

  -- The `match` on the type of the condition.
  unfoldable pub add_condition : Text → Text → RuleAction → RuleImportResult N → RuleImportResult N
  add_condition condition_type pattern a r =
      if str_eq condition_type (codes "HostWildcardCondition")
      then push_or (any_network pattern) a r (push_wildcard pattern a r)
      else if str_eq condition_type (codes "IpCondition")
      then push_network net (parse_network net pattern) a r
      else if str_eq condition_type (codes "BypassCondition")
      then push_or (any_network pattern) direct r (push_domain_rule r pattern direct domain)
      else if str_eq condition_type (codes "UrlWildcardCondition")
      then push_host (extract_host_from_url_wildcard pattern) a r
      else ignore r

  module _ {V : Type 0} (json : Json V) where
    -- `Map::get`; the keys of an object are distinct.
    unfoldable pub get_field : Text → List (Text × V) → Option V
    get_field key [] = none
    get_field key ((k, v) ∷ entries) =
        let rest = get_field key entries in if str_eq k key then some v else rest

    unfoldable pub string_or : Option V → Text → Text
    string_or none default = default
    string_or (some v) default = elim (json.as_str v) [ none ↦ default | some s ↦ s ]

    unfoldable pub object_of : Option V → Option (List (Text × V))
    object_of none = none
    object_of (some v) = json.as_object v

    unfoldable pub array_of : Option V → List V
    array_of none = []
    array_of (some v) = elim (json.as_array v) [ none ↦ [] | some items ↦ items ]

    unfoldable pub add_entry :
        Option (List (Text × V)) → RuleAction → RuleImportResult N → RuleImportResult N
    add_entry none a r = ignore r
    add_entry (some condition) a r =
        let pattern = trim (string_or (get_field (codes "pattern") condition) []) in
        if is_empty pattern
        then ignore r
        else add_condition (string_or (get_field (codes "conditionType") condition) []) pattern a r

    unfoldable pub add_omega_rule :
        Option (List (Text × V)) → RuleImportResult N → RuleImportResult N
    add_omega_rule none r = ignore r
    add_omega_rule (some rule) r =
        let profile_name =
          to_ascii_lowercase
            (trim (string_or (get_field (codes "profileName") rule) (codes "proxy"))) in
        add_entry (object_of (get_field (codes "condition") rule)) (omega_action profile_name) r

    unfoldable pub add_omega_rules : List V → RuleImportResult N → RuleImportResult N
    add_omega_rules [] r = r
    add_omega_rules (v ∷ vs) r = add_omega_rules vs (add_omega_rule (json.as_object v) r)

    unfoldable pub is_switch_profile : List (Text × V) → Bool
    is_switch_profile profile =
        str_eq (string_or (get_field (codes "profileType") profile) []) (codes "SwitchProfile")

    -- The loop over the entries of the root, and whether a switch profile was among them.
    unfoldable pub add_profile :
        Bool → Option (List (Text × V)) → RuleImportResult N → RuleImportResult N
    add_profile selected none r = r
    add_profile selected (some profile) r =
        if selected && is_switch_profile profile
        then add_omega_rules (array_of (get_field (codes "rules") profile)) r
        else r

    unfoldable pub has_profile : Bool → Option (List (Text × V)) → Bool
    has_profile selected none = false
    has_profile selected (some profile) = selected && is_switch_profile profile

    unfoldable pub add_profiles : List (Text × V) → RuleImportResult N → RuleImportResult N
    add_profiles [] r = r
    add_profiles ((key, val) ∷ entries) r =
        add_profiles entries (add_profile (starts_with key (codes "+")) (json.as_object val) r)

    unfoldable pub found_switch_profile : List (Text × V) → Bool
    found_switch_profile [] = false
    found_switch_profile ((key, val) ∷ entries) =
        has_profile (starts_with key (codes "+")) (json.as_object val)
        || found_switch_profile entries

    unfoldable pub checked : Bool → RuleImportResult N → OmegaResult N
    checked found r =
        if not found
        then rejected no_switch_profile
        else if rule_count r == 0
        then rejected no_supported_rules
        else imported r

    unfoldable pub parse_root : Option (List (Text × V)) → OmegaResult N
    parse_root none = rejected not_an_object
    parse_root (some obj) = checked (found_switch_profile obj) (add_profiles obj (default_result N))

    unfoldable pub parse_omega_rules : Text → OmegaResult N
    parse_omega_rules content = elim (json.from_str content) [
      | none ↦ rejected invalid_json
      | some root ↦ parse_root (json.as_object root)
    ]

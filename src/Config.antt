-- ===== src/Config.antt =====
-- crates/ssh-rocket-core/src/config.rs: rules, settings, profiles and the configuration. A network
-- is a value of the parameter `N`; identifiers (`Uuid`) are numbers below 2 ^ 128.
use ssh_rocket.Base.{ℕ, Bool, false, List, [], Option, none, some, ◌==◌, find?}
use ssh_rocket.Net.{IpAddr, v4}
use ssh_rocket.Text.{Text}

pub data RuleAction : Type 0 where
  direct proxy block : RuleAction

pub data AuthType : Type 0 where
  key password : AuthType

pub data DomainRuleKind : Type 0 where
  legacy domain domain_suffix domain_keyword : DomainRuleKind

pub data ForwardType : Type 0 where
  local remote : ForwardType

pub record Profile : Type 0 where
  pub id : ℕ
  pub name : Text
  pub host : Text
  pub port : ℕ
  pub username : Text
  pub auth_type : AuthType
  pub password : Option Text
  pub identity_file : Option Text

pub record AppRule : Type 0 where
  pub executable : Text
  pub action : RuleAction

pub record DomainRule : Type 0 where
  pub pattern : Text
  pub action : RuleAction
  pub kind : DomainRuleKind

pub record IpRule (N : Type 0) : Type 0 where
  pub network : N
  pub action : RuleAction

-- The look of the window (theme, language, floating widget, tray) is left out: no code outside the
-- user interface reads it. The time of the last update (an `i64`, in seconds) is a number here, as
-- the program only sets it to 0 or to the seconds since 1970.
pub record GlobalSettings (N : Type 0) : Type 0 where
  pub default_policy : RuleAction
  pub custom_overrides : List (IpRule N)
  pub app_rules : List AppRule
  pub domain_rules : List DomainRule
  pub imported_domain_rules : List DomainRule
  pub ip_rules : List (IpRule N)
  pub imported_ip_rules : List (IpRule N)
  pub rule_source_url : Text
  pub rule_source_name : Text
  pub rule_source_updated_at : ℕ
  pub dns_server : IpAddr
  pub ipv6 : Bool

pub record PortForwardRule : Type 0 where
  pub id : ℕ
  pub name : Text
  pub profile_id : ℕ
  pub forward_type : ForwardType
  pub local_host : Text
  pub local_port : ℕ
  pub remote_host : Text
  pub remote_port : ℕ
  pub use_proxy : Bool
  pub enabled : Bool

pub record AppConfig (N : Type 0) : Type 0 where
  pub profiles : List Profile
  pub active_profile_id : Option ℕ
  pub port_forwards : List PortForwardRule
  pub settings : GlobalSettings N

-- `GlobalSettings::default`
abbrev pub default_settings : (N : Type 0) → GlobalSettings N
default_settings N = record {
  default_policy = proxy;
  custom_overrides = [];
  app_rules = [];
  domain_rules = [];
  imported_domain_rules = [];
  ip_rules = [];
  imported_ip_rules = [];
  rule_source_url = [];
  rule_source_name = [];
  rule_source_updated_at = 0;
  dns_server = v4 1 1 1 1;
  ipv6 = false;
}

-- `AppConfig::active_profile`
unfoldable pub active_profile : {N : Type 0} → AppConfig N → Option Profile
active_profile config = elim config.active_profile_id [
  | none ↦ none
  | some active ↦ find? (λ p. p.id == active) config.profiles
]

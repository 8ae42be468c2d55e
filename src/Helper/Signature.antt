-- ===== src/Helper/Signature.antt =====
-- crates/ssh-rocket-runtime/src/bin/helper.rs: `routing_signature`, and why a session may be kept when
-- it does not change. The encoder of serde_json is a parameter.
use ssh_rocket.Base.{
  ℕ, ◌≡◌, refl, sym, ap, Bool, true, not, ◌&&◌, List, [], ◌∷◌, ◌++◌, Option, none, some, ◌==◌,
  if◌then◌else◌, find?,
}
use ssh_rocket.Config.{
  RuleAction, DomainRule, IpRule, GlobalSettings, Profile, PortForwardRule, AppConfig,
}
use ssh_rocket.Net.{IpNet}
use ssh_rocket.Routing.{FlowContext, decide, new}
use ssh_rocket.Text.{Text, str_eq}
use ssh_rocket.Text.Laws.{str_eq_iff}

pub record Signature (N : Type 0) : Type 0 where
  pub default_policy : RuleAction
  pub custom_overrides : List (IpRule N)
  pub domain_rules : List DomainRule
  pub imported_domain_rules : List DomainRule
  pub ip_rules : List (IpRule N)
  pub imported_ip_rules : List (IpRule N)
  pub ipv6 : Bool
  pub direct_forward_profiles : List (ℕ × Text × ℕ)

abbrev pub forward_end : Option Profile → List (ℕ × Text × ℕ)
forward_end none = []
forward_end (some p) = (p.id, p.host, p.port) ∷ []

-- The ends of the forwardings that are enabled and do not use the proxy.
unfoldable pub direct_forward_profiles : List Profile → List PortForwardRule → List (ℕ × Text × ℕ)
direct_forward_profiles profiles [] = []
direct_forward_profiles profiles (rule ∷ rules) =
    (if rule.enabled && not rule.use_proxy
      then forward_end (find? (λ p. p.id == rule.profile_id) profiles)
      else [])
    ++ direct_forward_profiles profiles rules

module _ {N : Type 0} where
  unfoldable pub signature_of : AppConfig N → Signature N
  signature_of config = record {
    default_policy = config.settings.default_policy;
    custom_overrides = config.settings.custom_overrides;
    domain_rules = config.settings.domain_rules;
    imported_domain_rules = config.settings.imported_domain_rules;
    ip_rules = config.settings.ip_rules;
    imported_ip_rules = config.settings.imported_ip_rules;
    ipv6 = config.settings.ipv6;
    direct_forward_profiles = direct_forward_profiles config.profiles config.port_forwards;
  }

  module _ (to_vec : Signature N → List ℕ) where
    -- The comparison of the two signatures, as bytes.
    unfoldable pub same_signature : AppConfig N → AppConfig N → Bool
    same_signature a b = str_eq (to_vec (signature_of a)) (to_vec (signature_of b))

    -- The settings of a session that is kept: its own, with the application rules of the file.
    abbrev pub kept_settings : AppConfig N → AppConfig N → GlobalSettings N
    kept_settings old file = record old.settings { app_rules = file.settings.app_rules }

    decide-signature :
        (net : IpNet N) (old file : AppConfig N) (flow : FlowContext)
        → signature_of file ≡ signature_of old
        → decide net (new (kept_settings old file)) flow ≡ decide net (new file.settings) flow
    unfolding decide new signature_of
    decide-signature net old file flow e =
        rw
          (
            ap (λ (s : Signature N). s.default_policy) e,
            ap (λ (s : Signature N). s.custom_overrides) e,
            ap (λ (s : Signature N). s.domain_rules) e,
            ap (λ (s : Signature N). s.imported_domain_rules) e,
            ap (λ (s : Signature N). s.ip_rules) e,
            ap (λ (s : Signature N). s.imported_ip_rules) e,
          )
          refl

    -- If the encoder gives two signatures the same bytes only if they are equal, and the
    -- signatures of the old and the new file are the same, then the settings of the session that
    -- is kept decide on every flow as the new file does, and agree with it on IPv6.
    pub decide-same_signature :
        (net : IpNet N) (old file : AppConfig N) (flow : FlowContext)
        → (to_vec (signature_of file) ≡ to_vec (signature_of old)
            → signature_of file ≡ signature_of old)
        → same_signature file old ≡ true
        → (decide net (new (kept_settings old file)) flow ≡ decide net (new file.settings) flow)
          × (old.settings.ipv6 ≡ file.settings.ipv6)
    unfolding same_signature
    decide-same_signature net old file flow inj h =
        let e = inj ((str_eq_iff _ _).0 h) in
        (
          decide-signature net old file flow e,
          unfold signature_of in sym (ap (λ (s : Signature N). s.ipv6) e),
        )

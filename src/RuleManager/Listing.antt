-- ===== src/RuleManager/Listing.antt =====
-- Removing a rule from the configuration removes it from the list.
use ssh_rocket.Base.{
  ◌≡◌, refl, sym, ◌∙◌, Bool, false, not, ◌&&◌, List, [], ◌∷◌, ◌++◌, map, arith, retain,
}
use ssh_rocket.Config.{DomainRule, IpRule, AppConfig}
use ssh_rocket.Net.{IpNet}
use ssh_rocket.Text.{str_eq}
use ssh_rocket.Importer.{kind_eq}
use ssh_rocket.RuleManager.{
  ListedRule, listed_domain, listed_ip, custom_rules, imported_rules, remove_listed_rule,
}

module _ {N : Type 0} (net : IpNet N) where
  -- Two listed rules hold of the same destinations: same pattern and kind, or same network.
  abbrev pub same_listed : ListedRule N → ListedRule N → Bool
  same_listed (listed_domain a) (listed_domain b) =
      str_eq b.pattern a.pattern && kind_eq b.kind a.kind
  same_listed (listed_ip a) (listed_ip b) = net.net_eq b.network a.network
  same_listed _ _ = false

  others : ListedRule N → List (ListedRule N) → List (ListedRule N)
  others rule = retain (λ item. not (same_listed rule item))

  others-append :
      (rule : ListedRule N) (xs ys : List (ListedRule N))
      → others rule (xs ++ ys) ≡ others rule xs ++ others rule ys
  unfolding others
  others-append rule [] ys = refl
  others-append rule (x ∷ xs) ys = ground (arith, others-append rule xs ys)

  others-domains :
      (rule : DomainRule) (xs : List DomainRule)
      → others (listed_domain rule) (map listed_domain xs)
        ≡ map listed_domain (
            retain
              (λ item. not (str_eq item.pattern rule.pattern && kind_eq item.kind rule.kind))
              xs)
  unfolding others
  others-domains rule [] = refl
  others-domains rule (x ∷ xs) = ground (arith, others-domains rule xs)

  others-ips :
      (rule : IpRule N) (xs : List (IpRule N))
      → others (listed_ip rule) (map listed_ip xs)
        ≡ map listed_ip (retain (λ item. not (net.net_eq item.network rule.network)) xs)
  unfolding others
  others-ips rule [] = refl
  others-ips rule (x ∷ xs) = ground (arith, others-ips rule xs)

  others_ips :
      (rule : DomainRule) (xs : List (IpRule N))
      → others (listed_domain rule) (map listed_ip xs) ≡ map listed_ip xs
  unfolding others
  others_ips rule [] = refl
  others_ips rule (x ∷ xs) = rw (others_ips rule xs) refl

  others_domains :
      (rule : IpRule N) (xs : List DomainRule)
      → others (listed_ip rule) (map listed_domain xs) ≡ map listed_domain xs
  unfolding others
  others_domains rule [] = refl
  others_domains rule (x ∷ xs) = rw (others_domains rule xs) refl

  -- Removing a listed rule from a configuration leaves, in order, the listed custom rules that
  -- differ from it in pattern or kind, or in the network, and all imported rules.
  pub custom_rules-remove_listed_rule :
      (config : AppConfig N) (rule : ListedRule N)
      → (custom_rules (remove_listed_rule net config rule)
          ≡ retain (λ item. not (same_listed rule item)) (custom_rules config))
        × (imported_rules (remove_listed_rule net config rule) ≡ imported_rules config)
  unfolding custom_rules imported_rules remove_listed_rule
  custom_rules-remove_listed_rule config (listed_domain rule) = (
    unfold others in
        sym (
          others-append (listed_domain rule) (map listed_domain config.settings.domain_rules)
            (map listed_ip config.settings.ip_rules)
          ∙ rw
              (
                others-domains rule config.settings.domain_rules,
                others_ips rule config.settings.ip_rules,
              )
              refl),
    refl,
  )
  custom_rules-remove_listed_rule config (listed_ip rule) = (
    unfold others in
        sym (
          others-append (listed_ip rule) (map listed_domain config.settings.domain_rules)
            (map listed_ip config.settings.ip_rules)
          ∙ rw
              (
                others_domains rule config.settings.domain_rules,
                others-ips rule config.settings.ip_rules,
              )
              refl),
    refl,
  )

-- ===== src/System/Firewall.antt =====
-- crates/ssh-rocket-runtime/src/system.rs: `install_nftables` and the functions it calls, as the
-- commands they run. `lookup_host` is a parameter.
use ssh_rocket.Base.{
  ℕ, not, ◌&&◌, List, [], ◌∷◌, ◌++◌, Option, none, some, ◌==◌, if◌then◌else◌, find?,
}
use ssh_rocket.Config.{
  RuleAction, direct, proxy, block, IpRule, Profile, PortForwardRule, AppConfig,
}
use ssh_rocket.Net.{IpAddr, v4}
use ssh_rocket.Net.Equality.{addr_eq}
use ssh_rocket.Text.{Text, is_empty, trim}
use ssh_rocket.System.Nft.{
  Family, ip, ip6, output, dns_output, Match, skuid, skuid_not, local_address, private4, private6,
  fake_address, tcp_port, udp_port, is_tcp, to_address, to_network, to_set, in_group, Statement,
  leave, reject, set_mark, set_mark_leave, redirect_dns, NftRule, NftCommand, delete_table,
  add_table, add_chain, add_rule, add_set,
}
use ssh_rocket.System.Tasks.{Task, must, attempt, give_up, all_must}

pub record SystemState (N : Type 0) : Type 0 where
  pub uid : ℕ
  pub socks_port : ℕ
  pub dns_port : ℕ
  pub ssh_port : ℕ
  pub ssh_addresses : List IpAddr
  pub config_path : Text
  pub config_mtime : Option ℕ
  pub config : AppConfig N
  pub current_pids : List (ℕ × RuleAction)

abbrev pub nft_rule : {N : Type 0} → List (Match N) → Statement → NftRule N
nft_rule ms s = record { matches = ms; statement = s }

-- The rules for what a condition holds of: `match rule.action` of the two loops.
unfoldable pub action_rules : {N : Type 0} → Match N → RuleAction → List (NftRule N)
action_rules m block = nft_rule (m ∷ []) reject ∷ []
action_rules m direct = nft_rule (m ∷ []) leave ∷ []
action_rules m proxy =
    nft_rule (m ∷ udp_port 443 ∷ []) reject ∷ nft_rule (m ∷ is_tcp ∷ []) set_mark_leave ∷ []

-- `HashSet::extend`
abbrev pub add_endpoint : IpAddr → ℕ → List (IpAddr × ℕ) → List (IpAddr × ℕ)
add_endpoint a port [] = (a, port) ∷ []
add_endpoint a port ((b, q) ∷ endpoints) =
    let rest = add_endpoint a port endpoints in
    if addr_eq a b && port == q then (b, q) ∷ endpoints else (b, q) ∷ rest

unfoldable pub extend : List IpAddr → ℕ → List (IpAddr × ℕ) → List (IpAddr × ℕ)
extend [] port endpoints = endpoints
extend (a ∷ addresses) port endpoints = extend addresses port (add_endpoint a port endpoints)

module _ {N : Type 0} where
  unfoldable pub install_ip_rules : List (IpRule N) → List (NftRule N)
  install_ip_rules [] = []
  install_ip_rules (r ∷ rs) = action_rules (to_network r.network) r.action ++ install_ip_rules rs

  unfoldable pub install_cgroup_rules : List (NftRule N)
  install_cgroup_rules =
      action_rules (in_group block) block
      ++ (action_rules (in_group direct) direct ++ action_rules (in_group proxy) proxy)

  abbrev pub set_rules : Family → List (NftRule N)
  set_rules f =
      nft_rule (to_set f block ∷ []) reject
      ∷ nft_rule (to_set f direct ∷ []) leave
      ∷ nft_rule (to_set f proxy ∷ udp_port 443 ∷ []) reject
      ∷ nft_rule (to_set f proxy ∷ is_tcp ∷ []) set_mark_leave
      ∷ []

  abbrev pub added_sets : List (NftCommand N)
  added_sets =
      add_set ip proxy
      ∷ add_set ip direct
      ∷ add_set ip block
      ∷ add_set ip6 proxy
      ∷ add_set ip6 direct
      ∷ add_set ip6 block
      ∷ []

  -- The arms of `match self.config.settings.default_policy`.
  unfoldable pub default_rules : RuleAction → List (NftRule N)
  default_rules proxy = nft_rule (udp_port 443 ∷ []) reject ∷ nft_rule (is_tcp ∷ []) set_mark ∷ []
  default_rules block = nft_rule (is_tcp ∷ []) reject ∷ []
  default_rules direct = []

  unfoldable pub server_rules : ℕ → List IpAddr → List (NftRule N)
  server_rules port [] = []
  server_rules port (a ∷ addresses) =
      nft_rule (to_address a ∷ tcp_port port ∷ []) leave ∷ server_rules port addresses

  unfoldable pub endpoint_rules : List (IpAddr × ℕ) → List (NftRule N)
  endpoint_rules [] = []
  endpoint_rules ((a, port) ∷ endpoints) =
      nft_rule (to_address a ∷ tcp_port port ∷ []) leave ∷ endpoint_rules endpoints

  module _ (lookup_host : Text → ℕ → Option (List IpAddr)) (config : AppConfig N) where
    abbrev pub resolved : Option (List IpAddr) → ℕ → List (IpAddr × ℕ) → Option (List (IpAddr × ℕ))
    resolved none port endpoints = none
    resolved (some addresses) port endpoints = some (extend addresses port endpoints)

    abbrev pub profile_endpoints : Option Profile → List (IpAddr × ℕ) → Option (List (IpAddr × ℕ))
    profile_endpoints none endpoints = some endpoints
    profile_endpoints (some profile) endpoints =
        if is_empty (trim profile.host)
        then some endpoints
        else resolved (lookup_host (trim profile.host) profile.port) profile.port endpoints

    -- One turn of the loop; a host that cannot be resolved ends it.
    abbrev pub rule_endpoints : PortForwardRule → List (IpAddr × ℕ) → Option (List (IpAddr × ℕ))
    rule_endpoints rule endpoints =
        if rule.enabled && not rule.use_proxy
        then profile_endpoints (find? (λ p. p.id == rule.profile_id) config.profiles) endpoints
        else some endpoints

    unfoldable pub collect_endpoints :
        List PortForwardRule → List (IpAddr × ℕ) → Option (List (IpAddr × ℕ))
    collect_endpoints [] endpoints = some endpoints
    collect_endpoints (rule ∷ rules) endpoints = elim (rule_endpoints rule endpoints) [
      | none ↦ none
      | some more ↦ collect_endpoints rules more
    ]

  abbrev pub on_output : List (NftRule N) → List (Task (NftCommand N))
  on_output [] = []
  on_output (r ∷ rs) = must (add_rule output r) ∷ on_output rs

  unfoldable pub bypass_tasks : Option (List (IpAddr × ℕ)) → List (Task (NftCommand N))
  bypass_tasks none = give_up ∷ []
  bypass_tasks (some endpoints) = on_output (endpoint_rules endpoints)

  abbrev pub install_direct_forward_bypasses :
      (Text → ℕ → Option (List IpAddr)) → AppConfig N → List (Task (NftCommand N))
  install_direct_forward_bypasses lookup_host config =
      bypass_tasks (collect_endpoints lookup_host config config.port_forwards [])

  -- The rules before those for the SSH server.
  abbrev pub first_rules : SystemState N → List (NftRule N)
  first_rules s =
      nft_rule (skuid_not s.uid ∷ []) leave
      ∷ nft_rule (local_address ∷ []) leave
      ∷ nft_rule (private4 ∷ []) leave
      ∷ nft_rule (private6 ∷ []) leave
      ∷ nft_rule (tcp_port s.socks_port ∷ []) leave
      ∷ nft_rule (tcp_port s.dns_port ∷ []) leave
      ∷ nft_rule (to_address (v4 223 5 5 5) ∷ []) leave
      ∷ nft_rule (to_address (v4 114 114 114 114) ∷ []) leave
      ∷ []

  abbrev pub dns_rules : List (NftRule N)
  dns_rules =
      nft_rule (skuid 0 ∷ []) leave
      ∷ nft_rule (to_address (v4 10 0 0 33) ∷ []) leave
      ∷ nft_rule (udp_port 53 ∷ []) redirect_dns
      ∷ []

  abbrev pub on_dns_output : List (NftRule N) → List (Task (NftCommand N))
  on_dns_output [] = []
  on_dns_output (r ∷ rs) = must (add_rule dns_output r) ∷ on_dns_output rs

  unfoldable pub install_nftables :
      (Text → ℕ → Option (List IpAddr)) → SystemState N → List (Task (NftCommand N))
  install_nftables lookup_host s =
      attempt delete_table
      ∷ must add_table
      ∷ must (add_chain output)
      ∷ must (add_chain dns_output)
      ∷ (on_output (first_rules s)
          ++ (on_output (server_rules s.ssh_port s.ssh_addresses)
              ++ (install_direct_forward_bypasses lookup_host s.config
                  ++ (on_output (nft_rule (fake_address ∷ is_tcp ∷ []) set_mark_leave ∷ [])
                      ++ (on_dns_output dns_rules
                          ++ (on_output (install_ip_rules s.config.settings.custom_overrides)
                              ++ (on_output install_cgroup_rules
                                  ++ (all_must added_sets
                                      ++ (on_output (set_rules ip ++ set_rules ip6)
                                          ++ (on_output
                                                (install_ip_rules s.config.settings.ip_rules)
                                              ++ (on_output (
                                                    install_ip_rules
                                                      s.config.settings.imported_ip_rules)
                                                  ++ on_output (
                                                      default_rules
                                                        s.config.settings.default_policy))))))))))))

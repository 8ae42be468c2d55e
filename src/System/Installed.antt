-- ===== src/System/Installed.antt =====
-- The output chain that `install_nftables` leaves, in its parts.
use ssh_rocket.Text.{Text}
use ssh_rocket.Base.{ℕ, ◌≡◌, refl, ap, List, [], ◌∷◌, ◌++◌, Option, some, append_assoc}
use ssh_rocket.Config.{GlobalSettings}
use ssh_rocket.Net.{IpAddr}
use ssh_rocket.System.Firewall.{
  SystemState, install_ip_rules, install_cgroup_rules, set_rules, default_rules, server_rules,
  endpoint_rules, first_rules, on_output, bypass_tasks, collect_endpoints, install_nftables,
  nft_rule,
}
use ssh_rocket.System.Nft.{
  ip, ip6, fake_address, is_tcp, set_mark_leave, NftRule, NftCommand, output,
}
use ssh_rocket.System.Packets.{rules_of}
use ssh_rocket.System.Tasks.{Task, commands_of}

-- The rules before the first one that the settings of routes make.
abbrev pub exempt_rules : {N : Type 0} → SystemState N → List (IpAddr × ℕ) → List (NftRule N)
exempt_rules s endpoints =
    first_rules s
    ++ (server_rules s.ssh_port s.ssh_addresses
        ++ (endpoint_rules endpoints ++ nft_rule (fake_address ∷ is_tcp ∷ []) set_mark_leave ∷ []))

abbrev pub routed_rules : {N : Type 0} → GlobalSettings N → List (NftRule N)
routed_rules t =
    install_ip_rules t.custom_overrides
    ++ (install_cgroup_rules
        ++ ((set_rules ip ++ set_rules ip6)
            ++ (install_ip_rules t.ip_rules
                ++ (install_ip_rules t.imported_ip_rules ++ default_rules t.default_policy))))

-- The chain after the installation, if the endpoints of the direct forwardings are known.
abbrev pub output_rules : {N : Type 0} → SystemState N → List (IpAddr × ℕ) → List (NftRule N)
output_rules s endpoints = exempt_rules s endpoints ++ routed_rules s.config.settings

rules_of-on_output :
    {N : Type 0} (rs : List (NftRule N)) (ts : List (Task (NftCommand N)))
    → rules_of output (commands_of (on_output rs ++ ts)) ≡ rs ++ rules_of output (commands_of ts)
unfolding rules_of
rules_of-on_output [] ts = refl
rules_of-on_output (r ∷ rs) ts = ap (λ xs. r ∷ xs) (rules_of-on_output rs ts)

rules_of-on_output_last :
    {N : Type 0} (rs : List (NftRule N)) → rules_of output (commands_of (on_output rs)) ≡ rs
unfolding rules_of
rules_of-on_output_last [] = refl
rules_of-on_output_last (r ∷ rs) = ap (λ xs. r ∷ xs) (rules_of-on_output_last rs)

pub rules_of-install_nftables :
    {N : Type 0} (lookup_host : Text → ℕ → Option (List IpAddr)) (s : SystemState N)
    (endpoints : List (IpAddr × ℕ))
    → collect_endpoints lookup_host s.config s.config.port_forwards [] ≡ some endpoints
    → rules_of output (commands_of (install_nftables lookup_host s)) ≡ output_rules s endpoints
unfolding install_nftables bypass_tasks rules_of
rules_of-install_nftables {N} lookup_host s endpoints e = rw e (
    simp (
      append_assoc (server_rules s.ssh_port s.ssh_addresses),
      append_assoc (endpoint_rules {N = N} endpoints),
      rules_of-on_output (server_rules s.ssh_port s.ssh_addresses),
      rules_of-on_output (endpoint_rules endpoints),
      rules_of-on_output (install_ip_rules s.config.settings.custom_overrides),
      rules_of-on_output (install_cgroup_rules {N = N}),
      rules_of-on_output (install_ip_rules s.config.settings.ip_rules),
      rules_of-on_output (install_ip_rules s.config.settings.imported_ip_rules),
      rules_of-on_output_last (default_rules {N = N} s.config.settings.default_policy),
    ))

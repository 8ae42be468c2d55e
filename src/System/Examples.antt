-- ===== src/System/Examples.antt =====
-- Tests of the system rules, and the theorems at concrete inputs.
use ssh_rocket.System.Bypass.{ends_unmarked}
use ssh_rocket.System.Ends.{is_direct_end}
use ssh_rocket.Base.{refl, any, arith}
use ssh_rocket.System.Agreement.{decision_action, run_chain-decide}
use ssh_rocket.Routing.Decide.{app_action}
use ssh_rocket.Net.Equality.{addr_eq}
use ssh_rocket.FilePath.{path_eq}
use ssh_rocket.System.Nft.{
  reject, udp_port, to_network, add_rule, arguments, Printing, output, NftCommand,
}
use ssh_rocket.System.Tasks.{execute}
use ssh_rocket.System.Packets.{passed, is_fake, is_private6, is_private4, Packet}
use ssh_rocket.System.Packets.{holds, tcp, rules_of, Sets, run_chain}
use ssh_rocket.System.Firewall.{
  nft_rule, default_rules, install_cgroup_rules, action_rules, install_ip_rules, endpoint_rules,
  server_rules, bypass_tasks, install_nftables, extend, SystemState, collect_endpoints,
}
use ssh_rocket.System.Verdicts.{enact, is_exempt, set_action}
use ssh_rocket.Base.{Option, Bool, ◌≡◌, true, [], ℕ, ◌∷◌, none, false, List, some}
use ssh_rocket.Config.{
  direct, proxy, block, domain_suffix, GlobalSettings, default_settings, Profile, PortForwardRule,
  AppConfig, key, local,
}
use ssh_rocket.Net.{IpAddr, v4}
use ssh_rocket.Net.Blocks.{Block, blocks, ten}
use ssh_rocket.Routing.{find_ip_rule, decide, new, decide_domain, find_app_rule, FlowContext}
use ssh_rocket.Text.{
  ends_with, to_ascii_lowercase, trim_end_matches, trim_start_matches, trim, Text, codes,
}

abbrev pub settings : GlobalSettings Block
settings = record (default_settings Block) {
  default_policy = direct;
  custom_overrides =
      record { network = record { address = v4 203 0 113 0; prefix = 24 }; action = block } ∷ [];
  app_rules = record { executable = codes "/usr/bin/firefox"; action = block } ∷ [];
  domain_rules =
      record { pattern = codes "example.com"; action = proxy; kind = domain_suffix } ∷ [];
}

abbrev office : Profile
office = record {
  id = 7;
  name = codes "office";
  host = codes "office.example.org";
  port = 22;
  username = codes "me";
  auth_type = key;
  password = none;
  identity_file = none;
}

abbrev forward : PortForwardRule
forward = record {
  id = 1;
  name = codes "db";
  profile_id = 7;
  forward_type = local;
  local_host = codes "127.0.0.1";
  local_port = 5432;
  remote_host = codes "db";
  remote_port = 5432;
  use_proxy = false;
  enabled = true;
}

abbrev config : AppConfig Block
config = record {
  profiles = office ∷ [];
  active_profile_id = some 7;
  port_forwards = forward ∷ [];
  settings = settings;
}

abbrev pub state : SystemState Block
state = record {
  uid = 1000;
  socks_port = 1080;
  dns_port = 5353;
  ssh_port = 2222;
  ssh_addresses = v4 198 51 100 1 ∷ [];
  config_path = codes "/tmp/config.json";
  config_mtime = none;
  config = config;
  current_pids = [];
}

abbrev pub lookup_host : Text → ℕ → Option (List IpAddr)
lookup_host host port = some (v4 198 51 100 9 ∷ v4 198 51 100 9 ∷ [])

abbrev sets : Sets
sets proxy a = addr_eq a (v4 93 184 216 34)
sets direct a = false
sets block a = false

abbrev packet : Packet
packet = record {
  uid = 1000;
  is_local = false;
  destination = v4 93 184 216 34;
  protocol = tcp;
  port = 443;
  group = none;
}

abbrev flow : FlowContext
flow = record {
  destination = some (v4 93 184 216 34);
  domain_name = some (codes "www.example.com");
  executable = some (codes "/usr/bin/curl");
}

abbrev endpoints : List (IpAddr × ℕ)
endpoints = (v4 198 51 100 9, 22) ∷ []

abbrev succeed : List (NftCommand Block) → Bool
succeed done = true

one_endpoint : collect_endpoints lookup_host config (forward ∷ []) [] ≡ some endpoints
unfolding collect_endpoints extend addr_eq trim
one_endpoint = refl

installs : (execute succeed [] (install_nftables lookup_host state)).1 ≡ true
unfolding execute install_nftables bypass_tasks collect_endpoints extend addr_eq server_rules
    endpoint_rules install_ip_rules action_rules install_cgroup_rules default_rules trim
installs = refl

not_exempt : is_exempt blocks sets state endpoints packet ≡ false
unfolding holds addr_eq is_private4 is_private6 is_fake server_rules endpoint_rules
not_exempt = refl

unruled : none ≡ app_action (find_app_rule settings.app_rules flow.executable)
unfolding find_app_rule path_eq
unruled = refl

proxied_domain :
    set_action sets packet.destination
    ≡ decision_action (decide_domain (new settings).index flow.domain_name)
unfolding decide_domain new trim_start_matches trim_end_matches to_ascii_lowercase trim ends_with
    addr_eq
proxied_domain = refl

run_chain-decide_example :
    run_chain blocks sets packet
      (rules_of output (execute succeed [] (install_nftables lookup_host state)).0)
      false
    ≡ enact (decide blocks (new settings) flow).action
run_chain-decide_example =
    run_chain-decide blocks sets packet succeed lookup_host state endpoints flow installs
      one_endpoint refl not_exempt refl unruled proxied_domain

abbrev to_office : Packet
to_office = record packet { destination = v4 198 51 100 9; port = 22 }

is_office : any (is_direct_end lookup_host config to_office) (forward ∷ []) ≡ true
unfolding addr_eq trim
is_office = refl

ends_unmarked_example :
    run_chain blocks sets to_office
      (rules_of output (execute succeed [] (install_nftables lookup_host state)).0)
      false
    ≡ passed false
ends_unmarked_example =
    ends_unmarked blocks sets to_office succeed lookup_host state installs refl
      (ground (arith, is_office))

-- A custom override for a private network.
abbrev overridden : SystemState Block
overridden = record state {
  config = record config {
    settings = record settings { custom_overrides = record { network = ten; action = proxy } ∷ [] };
  };
}

override_decides :
    (decide blocks
      (new overridden.config.settings)
      (record flow { destination = some (v4 10 1 2 3) })).action
    ≡ proxy
unfolding decide new blocks find_ip_rule
override_decides = refl

-- The rules leave with a packet to the private network before they reach the override.
private_unmarked :
    run_chain blocks sets
      (record packet { destination = v4 10 1 2 3 })
      (rules_of output (execute succeed [] (install_nftables lookup_host overridden)).0)
      false
    ≡ passed false
unfolding run_chain holds rules_of execute install_nftables bypass_tasks collect_endpoints extend
    addr_eq server_rules endpoint_rules install_ip_rules action_rules install_cgroup_rules
    default_rules trim is_private4 is_private6
private_unmarked = refl

abbrev pub plain : Printing Block
plain = record {
  number = λ n. codes "9";
  address = λ a. codes "1.2.3.4";
  network = λ n. codes "10.0.0.0/8";
  is_v4 = λ n. true;
}

one_rule :
    arguments plain (add_rule output (nft_rule (to_network ten ∷ udp_port 443 ∷ []) reject))
    ≡ codes "add"
      ∷ codes "rule"
      ∷ codes "inet"
      ∷ codes "ssh_rocket"
      ∷ codes "output"
      ∷ codes "ip"
      ∷ codes "daddr"
      ∷ codes "10.0.0.0/8"
      ∷ codes "udp"
      ∷ codes "dport"
      ∷ codes "9"
      ∷ codes "reject"
      ∷ []
unfolding arguments
one_rule = refl

-- ===== src/System/Agreement.antt =====
-- The firewall and the routing engine agree.
use ssh_rocket.Base.{ℕ, ◌≡◌, ap, ◌∙◌, Bool, true, false, List, [], Option, none, some, arith}
use ssh_rocket.Config.{RuleAction, GlobalSettings}
use ssh_rocket.Net.{IpAddr, IpNet}
use ssh_rocket.Routing.{FlowContext, RouteDecision, decide, decide_domain, find_app_rule, new}
use ssh_rocket.Routing.Decide.{app_action}
use ssh_rocket.System.Firewall.{SystemState, collect_endpoints, install_nftables}
use ssh_rocket.System.Nft.{NftCommand, output}
use ssh_rocket.System.Packets.{Packet, tcp, Sets, run_chain, rules_of}
use ssh_rocket.System.Tasks.{execute, execute-commands_of}
use ssh_rocket.System.Verdicts.{enact, set_action, is_exempt, routed_action, run_chain-first_action}
use ssh_rocket.System.Installed.{rules_of-install_nftables}
use ssh_rocket.Text.{Text}

abbrev pub decision_action : Option RouteDecision → Option RuleAction
decision_action none = none
decision_action (some d) = some d.action

module _ {N : Type 0} (net : IpNet N) (sets : Sets) (p : Packet) where
  routed_action-decide :
      (t : GlobalSettings N) (flow : FlowContext)
      → flow.destination ≡ some p.destination
      → p.group ≡ app_action (find_app_rule t.app_rules flow.executable)
      → set_action sets p.destination
        ≡ decision_action (decide_domain (new t).index flow.domain_name)
      → routed_action net sets p t ≡ (decide net (new t) flow).action
  unfolding decide new
  routed_action-decide t flow d g m = ground (arith, d, g, m)

  -- If all calls of nft that install the rules succeed, the ends of the direct forwardings
  -- resolve, a TCP packet is exempt from none of the first rules, its process is in the group of
  -- the application rule for its executable, and the address sets hold for its destination the
  -- action of the domain stage, then the chain does with the packet what decide says: it leaves
  -- with the mark (proxy) or without it (direct), or is rejected (block).
  pub run_chain-decide :
      (ok : List (NftCommand N) → Bool) (lookup_host : Text → ℕ → Option (List IpAddr))
      (s : SystemState N) (endpoints : List (IpAddr × ℕ)) (flow : FlowContext)
      → (execute ok [] (install_nftables lookup_host s)).1 ≡ true
      → collect_endpoints lookup_host s.config s.config.port_forwards [] ≡ some endpoints
      → p.protocol ≡ tcp
      → is_exempt net sets s endpoints p ≡ false
      → flow.destination ≡ some p.destination
      → p.group ≡ app_action (find_app_rule s.config.settings.app_rules flow.executable)
      → set_action sets p.destination
        ≡ decision_action (decide_domain (new s.config.settings).index flow.domain_name)
      → run_chain net sets p
          (rules_of output (execute ok [] (install_nftables lookup_host s)).0)
          false
        ≡ enact (decide net (new s.config.settings) flow).action
  run_chain-decide ok lookup_host s endpoints flow done known is free d g m =
      rw
        (
          execute-commands_of ok [] (install_nftables lookup_host s) done,
          rules_of-install_nftables lookup_host s endpoints known,
        )
        (run_chain-first_action net sets s endpoints p is free
          ∙ ap enact (routed_action-decide s.config.settings flow d g m))

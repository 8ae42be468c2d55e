-- ===== src/System/SetupExamples.antt =====
-- Tests of setup and cleaning, and the theorem at a concrete input.
use ssh_rocket.Base.{◌≡◌, refl, Bool, true, false, List, [], ◌∷◌, Option, none, some, ltb, length}
use ssh_rocket.Config.{RuleAction, proxy, direct, block}
use ssh_rocket.Net.{v4, v6}
use ssh_rocket.Net.Blocks.{Block}
use ssh_rocket.Net.Parse.{parse_radix}
use ssh_rocket.Text.{Text, codes, trim, split, is_whitespace, starts_with, str_eq, contains, lines}
use ssh_rocket.System.Apps.{read_cgroup_pids, insert_pids, insert_pid}
use ssh_rocket.System.Calls.{
  Operation, call, call_args, link_up, address_del, address_replace, rule_add, dns_priority,
  tuntap_add, kill,
}
use ssh_rocket.System.DomainSets.{update_domain_addresses, batch}
use ssh_rocket.System.Effects.{bare, affect_all, affect_each}
use ssh_rocket.System.Examples.{state, lookup_host, plain}
use ssh_rocket.System.AppExamples.{show}
use ssh_rocket.System.Nft.{ip}
use ssh_rocket.System.Restored.{done_by, cleanup-setup}
use ssh_rocket.System.Setup.{
  SetupWorld, cleanup, clean_stale_resources, configure_tun_interface, parse_flags,
  ensure_persistent_tun, kill_stale,
}
use ssh_rocket.System.Tasks.{must, attempt, give_up}

abbrev world : SetupWorld
world = record {
  flags = some (codes "0x1002\n");
  addresses = some (codes "7: sshrocket0    inet 10.0.0.33/24 scope global sshrocket0");
  processes = some [];
  groups = [];
}

interface_tasks :
    configure_tun_interface {N = Block} world
    ≡ must (call link_up)
      ∷ attempt (call (address_del (codes "10.0.0.33/24")))
      ∷ must (call address_replace)
      ∷ []
unfolding configure_tun_interface parse_flags parse_radix trim split is_whitespace starts_with
    str_eq
interface_tasks = refl

-- A device that has IFF_NO_PI set.
incompatible : ensure_persistent_tun {N = Block} true true (some (codes "0x1001\n")) ≡ give_up ∷ []
unfolding ensure_persistent_tun parse_flags parse_radix trim is_whitespace
incompatible = refl

created :
    ensure_persistent_tun {N = Block} false false (some (codes "0x1\n"))
    ≡ must (call tuntap_add) ∷ []
unfolding ensure_persistent_tun parse_flags parse_radix trim is_whitespace
created = refl

rule_args : call_args plain (rule_add ip dns_priority) ≡ (
  codes "ip",
  codes "-4"
      ∷ codes "rule"
      ∷ codes "add"
      ∷ codes "priority"
      ∷ codes "21328"
      ∷ codes "uidrange"
      ∷ codes "0-0"
      ∷ codes "to"
      ∷ codes "10.0.0.1/32"
      ∷ codes "lookup"
      ∷ codes "21330"
      ∷ [],
)
unfolding call_args
rule_args = refl

one_killed :
    kill_stale {N = Block} 5 (
      (5, codes "ssh-rocket-helper")
      ∷ (6, codes "/usr/bin/ssh-rocket-helper daemon")
      ∷ (7, codes "bash")
      ∷ [])
    ≡ kill 6 ∷ []
unfolding kill_stale contains starts_with
one_killed = refl

abbrev groups_read : RuleAction → Option Text
groups_read proxy = some (codes "7\n8\n")
groups_read direct = none
groups_read block = some (codes "x\n8\n")

read : read_cgroup_pids groups_read ≡ (7, proxy) ∷ (8, block) ∷ []
unfolding read_cgroup_pids insert_pids insert_pid parse_radix lines
read = refl

elements :
    update_domain_addresses plain (v4 1 2 3 4 ∷ v6 [] ∷ []) direct
    ≡ some (
        codes
          "add element inet ssh_rocket domain_direct4 { 1.2.3.4 timeout 1800s }\nadd element inet ssh_rocket domain_direct6 { 1.2.3.4 timeout 1800s }\n")
unfolding update_domain_addresses batch
elements = refl

abbrev works : List (Operation Block) → Bool
works done = true

-- The setup fails after its eleventh operation.
abbrev fails_late : List (Operation Block) → Bool
fails_late done = ltb (length done) 11

cleanup-setup_example :
    (affect_each
        (cleanup {N = Block} [])
        (affect_all works [] (done_by Block show lookup_host state world fails_late works) bare)
      ≡ bare)
    × (affect_each
          (clean_stale_resources {N = Block} 5 [] [])
          (affect_all works [] (done_by Block show lookup_host state world fails_late works) bare)
        ≡ bare)
cleanup-setup_example =
    cleanup-setup Block show lookup_host state world fails_late works works 5 [] []

-- ===== src/System/Setup.antt =====
-- crates/ssh-rocket-runtime/src/system.rs: `setup`, `cleanup`, `clean_stale_resources` and
-- `ensure_persistent_tun` as lists of tasks. What is read from the system is an argument.
use ssh_rocket.Base.{
  ℕ, ◌-◌, ◌/◌, ◌%◌, ◌^◌, Bool, true, false, not, ◌&&◌, List, [], ◌∷◌, ◌++◌, map, Option, none, some,
  ◌==◌, if◌then◌else◌, null, any, retain,
}
use ssh_rocket.Config.{RuleAction, direct, proxy, block}
use ssh_rocket.Net.{IpAddr}
use ssh_rocket.Net.Parse.{parse_hex}
use ssh_rocket.Text.{
  Text, codes, str_eq, is_empty, is_whitespace, split, starts_with, contains, trim,
}
use ssh_rocket.System.Apps.{is_in, Process, Groups, assign_apps, restore_app_processes}
use ssh_rocket.System.Calls.{
  dns_priority, fake_priority, mark_priority, default_route, fake_route, nft, rule_add, rule_del,
  route_replace, route_flush, dns_route_del, link_up, address_replace, tuntap_add, address_del,
  resolver_revert, resolver_dns, resolver_domain, resolver_default_route, Operation, call,
  create_group, remove_group, move, kill,
}
use ssh_rocket.System.Firewall.{SystemState, install_nftables}
use ssh_rocket.System.Nft.{ip, ip6, delete_table}
use ssh_rocket.System.Tasks.{Task, must, attempt, give_up}

-- What setup reads: the flags of the interface, its addresses, the processes and their groups.
pub record SetupWorld : Type 0 where
  pub flags : Option Text
  pub addresses : Option Text
  pub processes : Option (List Process)
  pub groups : Groups

-- `trim_start_matches("0x")`
abbrev strip_0x : Text → Text
strip_0x (c ∷ d ∷ s) = let rest = strip_0x s in if c == b'0' && d == b'x' then rest else c ∷ d ∷ s
strip_0x s = s

unfoldable pub parse_flags : Option Text → Option ℕ
parse_flags none = none
parse_flags (some text) = parse_hex (2 ^ 32 - 1) (strip_0x (trim text))

abbrev pub mapped_tasks : {C D : Type 0} → (C → D) → List (Task C) → List (Task D)
mapped_tasks f [] = []
mapped_tasks f (must c ∷ ts) = must (f c) ∷ mapped_tasks f ts
mapped_tasks f (attempt c ∷ ts) = attempt (f c) ∷ mapped_tasks f ts
mapped_tasks f (give_up ∷ ts) = give_up ∷ mapped_tasks f ts

abbrev pub is_stale : Text → Bool
is_stale value = starts_with value (codes "10.0.0.33/") && not (str_eq value (codes "10.0.0.33/32"))

abbrev pub address_words : Text → List Text
address_words text = retain (λ w. not (is_empty w)) (split is_whitespace text)

abbrev pub of_group : RuleAction → Groups → Groups
of_group a g = retain (λ e. is_in a (some e.1)) g

-- IFF_TUN is the lowest bit and IFF_NO_PI the thirteenth.
abbrev is_compatible : Option ℕ → Bool
is_compatible none = false
is_compatible (some flags) = not (flags % 2 == 0) && (flags / 4096) % 2 == 0

module _ {N : Type 0} where
  abbrev pub all_attempts : List (Operation N) → List (Task (Operation N))
  all_attempts [] = []
  all_attempts (c ∷ cs) = attempt c ∷ all_attempts cs

  abbrev pub address_tasks : Option Text → List (Task (Operation N))
  address_tasks none = give_up ∷ []
  address_tasks (some text) =
      all_attempts (map (λ a. call (address_del a)) (retain is_stale (address_words text)))
      ++ (if any (λ w. str_eq w (codes "10.0.0.33/32")) (address_words text)
          then []
          else must (call address_replace) ∷ [])

  -- The lowest bit is IFF_UP.
  abbrev pub link_tasks : Option ℕ → Option Text → List (Task (Operation N))
  link_tasks none addresses = give_up ∷ []
  link_tasks (some flags) addresses =
      (if flags % 2 == 0 then must (call link_up) ∷ [] else []) ++ address_tasks addresses

  unfoldable pub configure_tun_interface : SetupWorld → List (Task (Operation N))
  configure_tun_interface w = link_tasks (parse_flags w.flags) w.addresses

  unfoldable pub setup_cgroups : List (Task (Operation N))
  setup_cgroups =
      must (create_group proxy) ∷ must (create_group direct) ∷ must (create_group block) ∷ []

  abbrev pub move_tasks :
      (ℕ → Text) → SystemState N → Groups → List Process → List (Task (Operation N))
  move_tasks show s groups processes =
      all_attempts (map move (assign_apps show s.uid s.config.settings.app_rules processes groups))

  -- Without application rules the processes are not listed. Otherwise `none` stands for a directory
  -- that cannot be opened or a next entry that cannot be read; both end it before the first move.
  abbrev pub assign_tasks : (ℕ → Text) → SystemState N → SetupWorld → List (Task (Operation N))
  assign_tasks show s w =
      if null s.config.settings.app_rules then move_tasks show s w.groups [] else elim w.processes [
        | none ↦ give_up ∷ []
        | some processes ↦ move_tasks show s w.groups processes
      ]

  unfoldable pub ipv6_tasks : Bool → List (Task (Operation N))
  ipv6_tasks false = []
  ipv6_tasks true =
      must (call (route_replace ip6 default_route)) ∷ must (call (rule_add ip6 mark_priority)) ∷ []

  unfoldable pub setup :
      (ℕ → Text)
      → (Text → ℕ → Option (List IpAddr))
      → SystemState N
      → SetupWorld
      → List (Task (Operation N))
  setup show lookup_host s w =
      attempt (call (rule_del ip dns_priority))
      ∷ attempt (call (rule_del ip fake_priority))
      ∷ attempt (call (rule_del ip mark_priority))
      ∷ attempt (call (rule_del ip6 mark_priority))
      ∷ (configure_tun_interface w
          ++ (attempt (call (route_replace ip fake_route))
              ∷ must (call (route_replace ip default_route))
              ∷ must (call (rule_add ip dns_priority))
              ∷ must (call (rule_add ip mark_priority))
              ∷ attempt (call (rule_add ip fake_priority))
              ∷ (ipv6_tasks s.config.settings.ipv6
                  ++ (setup_cgroups
                      ++ (mapped_tasks (λ c. call (nft c)) (install_nftables lookup_host s)
                          ++ assign_tasks show s w)))))

  -- The calls that `cleanup` and `clean_stale_resources` share.
  unfoldable pub cleaning_calls : List (Operation N)
  cleaning_calls =
      call (nft delete_table)
      ∷ call resolver_revert
      ∷ call (rule_del ip dns_priority)
      ∷ call (rule_del ip fake_priority)
      ∷ call (rule_del ip mark_priority)
      ∷ call (rule_del ip6 mark_priority)
      ∷ call (route_flush ip)
      ∷ call (route_flush ip6)
      ∷ call dns_route_del
      ∷ []

  -- The argument is what the groups hold.
  unfoldable pub cleanup : Groups → List (Operation N)
  cleanup g =
      cleaning_calls
      ++ (map move (restore_app_processes g)
          ++ remove_group proxy ∷ remove_group direct ∷ remove_group block ∷ [])

  -- The processes with their command lines, without those that cannot be read.
  unfoldable pub kill_stale : ℕ → List (ℕ × Text) → List (Operation N)
  kill_stale my_pid [] = []
  kill_stale my_pid ((pid, cmdline) ∷ ps) =
      let rest = kill_stale my_pid ps in
      if not (pid == my_pid) && contains cmdline (codes "ssh-rocket-helper")
      then kill pid ∷ rest
      else rest

  unfoldable pub clean_group : RuleAction → Groups → List (Operation N)
  clean_group a g = map move (restore_app_processes (of_group a g)) ++ remove_group a ∷ []

  unfoldable pub clean_stale_resources : ℕ → List (ℕ × Text) → Groups → List (Operation N)
  clean_stale_resources my_pid processes g =
      kill_stale my_pid processes
      ++ (cleaning_calls ++ (clean_group proxy g ++ (clean_group direct g ++ clean_group block g)))

  unfoldable pub configure_system_resolver : List (Task (Operation N))
  configure_system_resolver =
      must (call resolver_dns)
      ∷ must (call resolver_domain)
      ∷ must (call resolver_default_route)
      ∷ []

  abbrev pub or_give_up : Bool → List (Task (Operation N))
  or_give_up true = []
  or_give_up false = give_up ∷ []

  -- Whether there is a TUN device of the name, whether there is an interface, and the flags then.
  unfoldable pub ensure_persistent_tun : Bool → Bool → Option Text → List (Task (Operation N))
  ensure_persistent_tun true has_interface flags = or_give_up (is_compatible (parse_flags flags))
  ensure_persistent_tun false true flags = give_up ∷ []
  ensure_persistent_tun false false flags =
      must (call tuntap_add) ∷ or_give_up (is_compatible (parse_flags flags))

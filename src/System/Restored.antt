-- ===== src/System/Restored.antt =====
-- A setup adds at most one rule of each kind, so that cleaning leaves nothing of it.
use ssh_rocket.Base.{ℕ, ◌+◌, ◌≤◌, ◌≡◌, refl, ◌∙◌, Bool, List, [], ◌∷◌, ◌++◌, Option, arith}
use ssh_rocket.System.Clean.{clean_stale_resources-bare, cleanup-bare}
use ssh_rocket.Net.{IpAddr}
use ssh_rocket.Text.{Text}
use ssh_rocket.System.Apps.{Groups}
use ssh_rocket.System.Calls.{
  fake_priority, default_route, dns_priority, fake_route, route_replace, rule_del, mark_priority,
  rule_add, nft, Operation, call,
}
use ssh_rocket.System.Effects.{
  dns, fake, mark, mark6, Kind, mark6, mark, fake, affect_all-rules, bare, affect_all, affect_each,
  count-execute, rules, IsSingle, Kind, count, count-append,
}
use ssh_rocket.System.Firewall.{SystemState, install_nftables}
use ssh_rocket.System.Nft.{ip, ip6}
use ssh_rocket.System.Setup.{
  cleanup, clean_stale_resources, configure_system_resolver, SetupWorld, parse_flags, mapped_tasks,
  link_tasks, configure_tun_interface, setup_cgroups, assign_tasks, ipv6_tasks, setup,
  configure_system_resolver,
}
use ssh_rocket.System.Tasks.{Task, must, attempt, execute}
use ssh_rocket.System.Counts.{
  tasks, tasks-append, tasks_nft, tasks_link, tasks_assign, tasks_ipv6, tasks_deletes, tasks_groups,
  tasks_resolver,
}

module _ (N : Type 0) where
  module _ (show : ℕ → Text) (lookup_host : Text → ℕ → Option (List IpAddr)) (s : SystemState N)
      (w : SetupWorld) where
    -- The last tasks of a setup.
    tasks_last :
        (k : Kind)
        → tasks N k (
            setup_cgroups
            ++ (mapped_tasks (λ c. call (nft c)) (install_nftables lookup_host s)
                ++ assign_tasks show s w))
          ≡ 0
    tasks_last k =
        tasks-append N k setup_cgroups (
          mapped_tasks (λ c. call (nft c)) (install_nftables lookup_host s)
          ++ assign_tasks show s w)
        ∙ rw
            (
              tasks-append N k (mapped_tasks (λ c. call (nft c)) (install_nftables lookup_host s))
                  (assign_tasks show s w),
              tasks_groups N k,
              tasks_nft N k (install_nftables lookup_host s),
              tasks_assign N k show s w w.processes refl,
            )
            refl

    -- The tasks that set up routes and rules.
    abbrev routing : List (Task (Operation N))
    routing =
        attempt (call (route_replace ip fake_route))
        ∷ must (call (route_replace ip default_route))
        ∷ must (call (rule_add ip dns_priority))
        ∷ must (call (rule_add ip mark_priority))
        ∷ attempt (call (rule_add ip fake_priority))
        ∷ []

    tasks_routing :
        (k : Kind)
        → tasks N k routing + tasks N k (must (call (rule_add ip6 mark_priority)) ∷ []) ≤ 1
    unfolding tasks
    tasks_routing k = ground arith

    tasks_setup : (k : Kind) → tasks N k (setup show lookup_host s w) ≤ 1
    unfolding setup configure_tun_interface
    tasks_setup k =
        let last =
          setup_cgroups
          ++ (mapped_tasks (λ c. call (nft c)) (install_nftables lookup_host s)
              ++ assign_tasks show s w) in
        let more = ipv6_tasks s.config.settings.ipv6 ++ last in
        ground (
          arith,
          tasks-append N k
              (attempt (call (rule_del ip dns_priority))
                ∷ attempt (call (rule_del ip fake_priority))
                ∷ attempt (call (rule_del ip mark_priority))
                ∷ attempt (call (rule_del ip6 mark_priority))
                ∷ [])
              (link_tasks (parse_flags w.flags) w.addresses ++ (routing ++ more)),
          tasks_deletes N k,
          tasks-append N k (link_tasks (parse_flags w.flags) w.addresses) (routing ++ more),
          tasks_link N k (parse_flags w.flags) w.addresses,
          tasks-append N k routing more,
          tasks-append N k (ipv6_tasks s.config.settings.ipv6) last,
          tasks_ipv6 N k s.config.settings.ipv6,
          tasks_last k,
          tasks_routing k,
        )

    -- What a setup and the configuration of the resolver do, each up to its first failure.
    abbrev pub done_by :
        (List (Operation N) → Bool) → (List (Operation N) → Bool) → List (Operation N)
    done_by ok ok_resolver =
        (execute ok [] (setup show lookup_host s w)).0
        ++ (execute ok_resolver [] configure_system_resolver).0

    count-done_by :
        (ok ok_resolver : List (Operation N) → Bool) (k : Kind)
        → count k (done_by ok ok_resolver) ≤ 1
    unfolding tasks
    count-done_by ok ok_resolver k = ground (
      arith,
      count-append k (execute ok [] (setup show lookup_host s w)).0
          (execute ok_resolver [] configure_system_resolver).0,
      count-execute ok k [] (setup show lookup_host s w),
      count-execute ok_resolver k [] configure_system_resolver,
      tasks_setup k,
      tasks_resolver N k,
    )

    done_by-rules :
        (ok ok_resolver took : List (Operation N) → Bool) (k : Kind)
        → rules k (affect_all took [] (done_by ok ok_resolver) bare) ≤ rules k bare + 1
    done_by-rules ok ok_resolver took k = ground (
      arith,
      affect_all-rules took k [] (done_by ok ok_resolver) bare,
      count-done_by ok ok_resolver k,
    )

    done_by-IsSingle :
        (ok ok_resolver took : List (Operation N) → Bool)
        → IsSingle (affect_all took [] (done_by ok ok_resolver) bare)
    done_by-IsSingle ok ok_resolver took = (
      done_by-rules ok ok_resolver took dns,
      done_by-rules ok ok_resolver took fake,
      done_by-rules ok ok_resolver took mark,
      done_by-rules ok ok_resolver took mark6,
    )

    -- Whatever the system answers and whichever operations take effect, wherever setup and the
    -- configuration of the resolver end, on a host without anything of the program: if every
    -- operation of cleanup, or of clean_stale_resources, then takes effect, no table, routing
    -- rule, route or resolver setting of the program is left.
    pub cleanup-setup :
        (ok ok_resolver took : List (Operation N) → Bool) (my_pid : ℕ) (ps : List (ℕ × Text))
        (g : Groups)
        → (affect_each {N = N} (cleanup g) (affect_all took [] (done_by ok ok_resolver) bare)
            ≡ bare)
          × (affect_each {N = N}
                (clean_stale_resources my_pid ps g)
                (affect_all took [] (done_by ok ok_resolver) bare)
              ≡ bare)
    cleanup-setup ok ok_resolver took my_pid ps g = (
      cleanup-bare N g _ (done_by-IsSingle ok ok_resolver took),
      clean_stale_resources-bare N my_pid ps g _ (done_by-IsSingle ok ok_resolver took),
    )

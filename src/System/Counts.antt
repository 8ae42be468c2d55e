-- ===== src/System/Counts.antt =====
-- How many rules of a kind the parts of a setup add.
use ssh_rocket.Base.{
  null, ℕ, ◌+◌, ◌%◌, ◌≤◌, ◌≡◌, refl, ◌∙◌, Bool, true, false, List, [], ◌∷◌, ◌++◌, map, Option, none,
  some, arith, ◌==◌, if◌then◌else◌, any, retain,
}
use ssh_rocket.Text.{Text, codes, str_eq}
use ssh_rocket.System.Apps.{Move, Process, assign_apps}
use ssh_rocket.System.Calls.{
  fake_priority, dns_priority, rule_del, mark_priority, rule_add, link_up, address_replace, nft,
  address_del, Operation, call, move,
}
use ssh_rocket.System.Effects.{Kind, Kind, added, count, count-append}
use ssh_rocket.System.Firewall.{SystemState}
use ssh_rocket.System.Nft.{ip, ip6, NftCommand}
use ssh_rocket.System.Setup.{
  move_tasks, configure_system_resolver, SetupWorld, mapped_tasks, all_attempts, address_tasks,
  link_tasks, setup_cgroups, assign_tasks, ipv6_tasks, configure_system_resolver, is_stale,
  address_words,
}
use ssh_rocket.System.Tasks.{Task, must, attempt, give_up, commands_of, commands_of-append}

abbrev is_rule : {N : Type 0} → Operation N → Bool
is_rule (call (rule_add f p)) = true
is_rule _ = false

module _ (N : Type 0) where
  -- The rules of a kind that tasks add if they are all done.
  unfoldable pub tasks : Kind → List (Task (Operation N)) → ℕ
  tasks k ts = count k (commands_of ts)

  pub tasks-append :
      (k : Kind) (ts us : List (Task (Operation N))) → tasks k (ts ++ us) ≡ tasks k ts + tasks k us
  unfolding tasks
  tasks-append k ts us =
      rw (commands_of-append ts us) (count-append k (commands_of ts) (commands_of us))

  pub added-nft : (k : Kind) (c : NftCommand N) → added k (call (nft c)) ≡ 0
  added-nft k c = ground arith

  pub tasks_nft :
      (k : Kind) (ts : List (Task (NftCommand N)))
      → tasks k (mapped_tasks (λ c. call (nft c)) ts) ≡ 0
  unfolding tasks
  tasks_nft k [] = refl
  tasks_nft k (must c ∷ ts) = ground (arith, added-nft k c, tasks_nft k ts)
  tasks_nft k (attempt c ∷ ts) = ground (arith, added-nft k c, tasks_nft k ts)
  tasks_nft k (give_up ∷ ts) = tasks_nft k ts

  pub tasks_moves : (k : Kind) (ms : List Move) → tasks k (all_attempts (map move ms)) ≡ 0
  unfolding tasks
  tasks_moves k [] = refl
  tasks_moves k (m ∷ ms) = ground (arith, tasks_moves k ms)

  pub tasks_deletions :
      (k : Kind) (xs : List Text) → tasks k (all_attempts (map (λ a. call (address_del a)) xs)) ≡ 0
  unfolding tasks
  tasks_deletions k [] = refl
  tasks_deletions k (x ∷ xs) = ground (arith, tasks_deletions k xs)

  pub tasks_if :
      (k : Kind) (b : Bool) (ts us : List (Task (Operation N)))
      → tasks k ts ≡ 0
      → tasks k us ≡ 0
      → tasks k (if b then ts else us) ≡ 0
  tasks_if k true ts us h e = h
  tasks_if k false ts us h e = e

  pub added-none : (k : Kind) (c : Operation N) → is_rule c ≡ false → tasks k (must c ∷ []) ≡ 0
  unfolding tasks
  added-none k c h = ground arith

  pub tasks_addresses : (k : Kind) (text : Option Text) → tasks k (address_tasks text) ≡ 0
  unfolding tasks
  tasks_addresses k none = refl
  tasks_addresses k (some text) =
      unfold tasks in
      (tasks-append k
          (all_attempts (map (λ a. call (address_del a)) (retain is_stale (address_words text))))
          (if any (λ w. str_eq w (codes "10.0.0.33/32")) (address_words text)
            then []
            else must (call address_replace) ∷ [])
        ∙ rw
            (
              tasks_deletions k (retain is_stale (address_words text)),
              tasks_if k (any (λ w. str_eq w (codes "10.0.0.33/32")) (address_words text)) []
                  (must (call address_replace) ∷ []) refl
                  (added-none k (call address_replace) refl),
            )
            refl)

  pub tasks_link :
      (k : Kind) (flags : Option ℕ) (text : Option Text) → tasks k (link_tasks flags text) ≡ 0
  unfolding tasks
  tasks_link k none text = refl
  tasks_link k (some flags) text =
      tasks-append k (if flags % 2 == 0 then must (call link_up) ∷ [] else []) (address_tasks text)
      ∙ rw
          (
            tasks_if k (flags % 2 == 0) (must (call link_up) ∷ []) []
                (added-none k (call link_up) refl) refl,
            tasks_addresses k text,
          )
          refl

  pub tasks_assign :
      (k : Kind) (show : ℕ → Text) (s : SystemState N) (w : SetupWorld) (o : Option (List Process))
      → w.processes ≡ o
      → tasks k (assign_tasks show s w) ≡ 0
  unfolding tasks
  tasks_assign k show s w o e =
      tasks_if k (null s.config.settings.app_rules) (move_tasks show s w.groups []) _
        (tasks_moves k (assign_apps show s.uid s.config.settings.app_rules [] w.groups))
        (rw e (listed o))
    where
      listed :
          (o : Option (List Process))
          → tasks k (elim o [
            | none ↦ give_up ∷ []
            | some processes ↦ move_tasks show s w.groups processes
          ])
            ≡ 0
      listed none = refl
      listed (some processes) =
          tasks_moves k (assign_apps show s.uid s.config.settings.app_rules processes w.groups)

  pub tasks_ipv6 :
      (k : Kind) (b : Bool)
      → tasks k (ipv6_tasks b) ≤ tasks k (must (call (rule_add ip6 mark_priority)) ∷ [])
  unfolding ipv6_tasks tasks
  tasks_ipv6 k b = ground arith

  pub tasks_deletes :
      (k : Kind)
      → tasks k (
          attempt (call (rule_del ip dns_priority))
          ∷ attempt (call (rule_del ip fake_priority))
          ∷ attempt (call (rule_del ip mark_priority))
          ∷ attempt (call (rule_del ip6 mark_priority))
          ∷ [])
        ≡ 0
  unfolding tasks
  tasks_deletes k = ground arith

  pub tasks_groups : (k : Kind) → tasks k setup_cgroups ≡ 0
  unfolding setup_cgroups tasks
  tasks_groups k = ground arith

  pub tasks_resolver : (k : Kind) → tasks k configure_system_resolver ≡ 0
  unfolding configure_system_resolver tasks
  tasks_resolver k = ground arith

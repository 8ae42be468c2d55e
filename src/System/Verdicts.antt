-- ===== src/System/Verdicts.antt =====
-- What the installed chain does with a TCP packet, in terms of the settings.
use ssh_rocket.Base.{
  ℕ, ◌≡◌, refl, ap, ◌∙◌, Bool, true, false, List, [], ◌∷◌, ◌++◌, Option, none, some, if◌then◌else◌,
  arith, any, Bool-cases, inl, inr, append_assoc,
}
use ssh_rocket.Config.{RuleAction, direct, proxy, block, IpRule, GlobalSettings}
use ssh_rocket.Net.{IpAddr, IpNet}
use ssh_rocket.Routing.{find_ip_rule}
use ssh_rocket.Routing.Decide.{ip_action}
use ssh_rocket.System.Firewall.{
  SystemState, action_rules, install_ip_rules, install_cgroup_rules, set_rules, default_rules,
}
use ssh_rocket.System.Nft.{to_set, Family, ip, ip6, family_of, Match, NftRule, to_network, in_group}
use ssh_rocket.System.Packets.{
  same_action, same_family, Packet, tcp, Fate, rejected, passed, Sets, holds, applies, run_chain,
}
use ssh_rocket.System.Installed.{exempt_rules, routed_rules, output_rules}

-- What an action does with a TCP packet.
abbrev pub enact : RuleAction → Fate
enact direct = passed false
enact proxy = passed true
enact block = rejected

abbrev pub first_action : List (Option RuleAction) → RuleAction → RuleAction
first_action [] a = a
first_action (none ∷ os) a = first_action os a
first_action (some b ∷ os) a = b

-- The action of the address sets that hold an address: blocked before direct before proxied.
abbrev pub set_action : Sets → IpAddr → Option RuleAction
set_action sets a =
    if sets block a
    then some block
    else if sets direct a
    then some direct
    else if sets proxy a
    then some proxy
    else none

abbrev enact_or : Option RuleAction → Fate → Fate
enact_or none f = f
enact_or (some a) f = enact a

module _ {N : Type 0} (net : IpNet N) (sets : Sets) (p : Packet) (is : p.protocol ≡ tcp) where
  abbrev run : List (NftRule N) → Fate
  run rs = run_chain net sets p rs false

  -- Rules that do not apply are passed over.
  run-skip :
      (rs rest : List (NftRule N))
      → any (applies net sets p) rs ≡ false
      → run (rs ++ rest) ≡ run rest
  unfolding run_chain
  run-skip [] rest h = refl
  run-skip (r ∷ rs) rest h = elim (Bool-cases (applies net sets p r)) [
    | inl e ↦ ground (arith, e)
    | inr e ↦ rw e (run-skip rs rest (ground (arith, e)))
  ]

  run-action_rules :
      (m : Match N) (a : RuleAction) (rest : List (NftRule N))
      → run (action_rules m a ++ rest)
        ≡ enact_or (if holds net sets p m then some a else none) (run rest)
  unfolding run_chain action_rules holds
  run-action_rules m direct rest = ground arith
  run-action_rules m block rest = ground arith
  run-action_rules m proxy rest = ground (arith, is)

  run-install_ip_rules :
      (rs : List (IpRule N)) (rest : List (NftRule N))
      → run (install_ip_rules rs ++ rest)
        ≡ enact_or (ip_action (find_ip_rule net rs (some p.destination))) (run rest)
  unfolding install_ip_rules find_ip_rule holds
  run-install_ip_rules [] rest = refl
  run-install_ip_rules (r ∷ rs) rest =
      ap run
        (append_assoc (action_rules (to_network r.network) r.action) (install_ip_rules rs) rest)
      ∙ run-action_rules (to_network r.network) r.action (install_ip_rules rs ++ rest)
      ∙ ground (arith, run-install_ip_rules rs rest)

  one_group :
      (o : Option RuleAction) (rest : Fate)
      → enact_or (if same_action block o then some block else none) (
          enact_or
            (if same_action direct o then some direct else none)
            (enact_or (if same_action proxy o then some proxy else none) rest))
        ≡ enact_or o rest
  one_group none rest = refl
  one_group (some direct) rest = refl
  one_group (some proxy) rest = refl
  one_group (some block) rest = refl

  run-install_cgroup_rules :
      (rest : List (NftRule N)) → run (install_cgroup_rules ++ rest) ≡ enact_or p.group (run rest)
  unfolding install_cgroup_rules holds
  run-install_cgroup_rules rest =
      ap run (append_assoc (action_rules (in_group block) block) _ rest)
      ∙ run-action_rules (in_group block) block _
      ∙ rw
          (
            append_assoc (action_rules {N = N} (in_group direct) direct)
                (action_rules (in_group proxy) proxy) rest,
            run-action_rules (in_group direct) direct (action_rules (in_group proxy) proxy ++ rest),
            run-action_rules (in_group proxy) proxy rest,
          )
          (one_group p.group (run rest))

  run-set_rules_of :
      (f : Family) (rest : List (NftRule N))
      → run (set_rules f ++ rest) ≡ (
          if same_family f (family_of p.destination)
          then enact_or (set_action sets p.destination) (run rest)
          else run rest)
  unfolding action_rules holds
  run-set_rules_of f rest =
      run-action_rules (to_set f block) block
        (action_rules (to_set f direct) direct ++ (action_rules (to_set f proxy) proxy ++ rest))
      ∙ ground (
        arith,
        run-action_rules (to_set f direct) direct (action_rules (to_set f proxy) proxy ++ rest),
        run-action_rules (to_set f proxy) proxy rest,
      )

  one_family :
      (f : Family) (o : Option RuleAction) (rest : Fate)
      → (if same_family ip f
          then enact_or o (if same_family ip6 f then enact_or o rest else rest)
          else (if same_family ip6 f then enact_or o rest else rest))
        ≡ enact_or o rest
  one_family ip o rest = refl
  one_family ip6 o rest = refl

  run-set_rules :
      (rest : List (NftRule N))
      → run ((set_rules ip ++ set_rules ip6) ++ rest)
        ≡ enact_or (set_action sets p.destination) (run rest)
  run-set_rules rest =
      run-set_rules_of ip (set_rules ip6 ++ rest)
      ∙ rw (run-set_rules_of ip6 rest)
          (one_family (family_of p.destination) (set_action sets p.destination) (run rest))

  run-default_rules : (a : RuleAction) → run (default_rules a) ≡ enact a
  unfolding run_chain default_rules holds
  run-default_rules a = ground (arith, is)

enact_or-find_ip_rule :
    {N : Type 0} (net : IpNet N) (xs ys : List (IpRule N)) (a : IpAddr) (f : Fate)
    → enact_or
        (ip_action (find_ip_rule net xs (some a)))
        (enact_or (ip_action (find_ip_rule net ys (some a))) f)
      ≡ enact_or (ip_action (find_ip_rule net (xs ++ ys) (some a))) f
unfolding find_ip_rule
enact_or-find_ip_rule net [] ys a f = refl
enact_or-find_ip_rule net (x ∷ xs) ys a f = ground (arith, enact_or-find_ip_rule net xs ys a f)

enact_or-first_action :
    (a g d i : Option RuleAction) (e : RuleAction)
    → enact_or a (enact_or g (enact_or d (enact_or i (enact e))))
      ≡ enact (first_action (a ∷ g ∷ d ∷ i ∷ []) e)
enact_or-first_action a g d i e = ground arith

module _ {N : Type 0} (net : IpNet N) (sets : Sets) (p : Packet) where
  -- The action of the first stage that has one.
  abbrev pub routed_action : GlobalSettings N → RuleAction
  routed_action t =
      first_action
        (ip_action (find_ip_rule net t.custom_overrides (some p.destination))
          ∷ p.group
          ∷ set_action sets p.destination
          ∷ ip_action (find_ip_rule net (t.ip_rules ++ t.imported_ip_rules) (some p.destination))
          ∷ [])
        t.default_policy

  run-routed_rules :
      (t : GlobalSettings N)
      → p.protocol ≡ tcp
      → run_chain net sets p (routed_rules t) false ≡ enact (routed_action t)
  run-routed_rules t is =
      rw
        (
          run-install_ip_rules net sets p is t.custom_overrides,
          run-install_cgroup_rules net sets p is,
          run-set_rules net sets p is,
          run-install_ip_rules net sets p is t.ip_rules,
          run-install_ip_rules net sets p is t.imported_ip_rules,
          run-default_rules net sets p is t.default_policy,
          enact_or-find_ip_rule net t.ip_rules t.imported_ip_rules p.destination,
        )
        (enact_or-first_action
          (ip_action (find_ip_rule net t.custom_overrides (some p.destination))) p.group
          (set_action sets p.destination)
          (ip_action (find_ip_rule net (t.ip_rules ++ t.imported_ip_rules) (some p.destination)))
          t.default_policy)

module _ {N : Type 0} (net : IpNet N) (sets : Sets) (s : SystemState N)
    (endpoints : List (IpAddr × ℕ)) (p : Packet) where
  -- A rule before those that the settings make applies.
  abbrev pub is_exempt : Bool
  is_exempt = any (applies net sets p) (exempt_rules s endpoints)

  -- A packet that is not exempt meets the rules of the settings, whose first action decides.
  pub run_chain-first_action :
      p.protocol ≡ tcp
      → is_exempt ≡ false
      → run_chain net sets p (output_rules s endpoints) false
        ≡ enact (routed_action net sets p s.config.settings)
  run_chain-first_action is free =
      run-skip net sets p is (exempt_rules s endpoints) (routed_rules s.config.settings) free
      ∙ run-routed_rules net sets p s.config.settings is

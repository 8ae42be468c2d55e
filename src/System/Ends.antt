-- ===== src/System/Ends.antt =====
-- The ends of the direct forwardings that `install_direct_forward_bypasses` collects, told apart from
-- all others by the settings alone.
use ssh_rocket.Base.{
  find?, ℕ, ◌≡◌, refl, ◌∙◌, Bool, false, not, ◌&&◌, ◌||◌, List, [], ◌∷◌, Option, none, some, arith,
  ◌==◌, find?, any, inl, inr, Bool-cases,
}
use ssh_rocket.Config.{Profile, PortForwardRule, AppConfig}
use ssh_rocket.Net.{IpAddr}
use ssh_rocket.Net.Equality.{addr_eq, addr_eq_iff}
use ssh_rocket.System.Firewall.{
  add_endpoint, extend, resolved, profile_endpoints, rule_endpoints, collect_endpoints,
}
use ssh_rocket.System.Packets.{Packet}
use ssh_rocket.Text.{Text, is_empty, trim}

-- The packet goes to an end of a direct forwarding.
abbrev pub is_end : Packet → IpAddr × ℕ → Bool
is_end p (a, port) = addr_eq p.destination a && p.port == port

-- The host of a profile resolves to the destination of the packet.
abbrev resolves_to : Packet → Option (List IpAddr) → Bool
resolves_to p none = false
resolves_to p (some addresses) = any (addr_eq p.destination) addresses

some_same : {A : Type 0} (a b : A) → some a ≡ some b → a ≡ b
some_same a b e = cc

abbrev pub goes_to_profile : (Text → ℕ → Option (List IpAddr)) → Packet → Option Profile → Bool
goes_to_profile lookup_host p none = false
goes_to_profile lookup_host p (some profile) =
    not (is_empty (trim profile.host))
    && (p.port == profile.port && resolves_to p (lookup_host (trim profile.host) profile.port))

-- The packet goes to the SSH server of a forwarding that is enabled and not proxied.
abbrev pub is_direct_end :
    {N : Type 0} → (Text → ℕ → Option (List IpAddr)) → AppConfig N → Packet → PortForwardRule → Bool
is_direct_end lookup_host config p rule =
    rule.enabled
    && (not rule.use_proxy
        && goes_to_profile lookup_host p (find? (λ x. x.id == rule.profile_id) config.profiles))

any-add_endpoint :
    (p : Packet) (a : IpAddr) (port : ℕ) (endpoints : List (IpAddr × ℕ))
    → any (is_end p) (add_endpoint a port endpoints)
      ≡ (is_end p (a, port) || any (is_end p) endpoints)
any-add_endpoint p a port [] = refl
any-add_endpoint p a port ((b, q) ∷ endpoints) = elim (Bool-cases (addr_eq a b && port == q)) [
  | inl e ↦
      let same : a ≡ b = (addr_eq_iff a b).0 (ground (arith, e)) in
      let at : port ≡ q = ground (arith, e) in rw e (rw (same, at) (ground arith))
  | inr e ↦ rw e (ground (arith, any-add_endpoint p a port endpoints))
]

any-extend :
    (p : Packet) (addresses : List IpAddr) (port : ℕ) (endpoints : List (IpAddr × ℕ))
    → any (is_end p) (extend addresses port endpoints)
      ≡ ((p.port == port && any (addr_eq p.destination) addresses) || any (is_end p) endpoints)
unfolding extend
any-extend p [] port endpoints = ground arith
any-extend p (a ∷ addresses) port endpoints = ground (
  arith,
  any-extend p addresses port (add_endpoint a port endpoints),
  any-add_endpoint p a port endpoints,
)

module _ {N : Type 0} (lookup_host : Text → ℕ → Option (List IpAddr)) (config : AppConfig N)
    (p : Packet) where
  any-resolved :
      (found : Option (List IpAddr)) (port : ℕ) (endpoints more : List (IpAddr × ℕ))
      → resolved lookup_host config found port endpoints ≡ some more
      → any (is_end p) more ≡ ((p.port == port && resolves_to p found) || any (is_end p) endpoints)
  any-resolved none port endpoints more e = cc
  any-resolved (some addresses) port endpoints more e =
      rw (← some_same _ _ e) (any-extend p addresses port endpoints)

  any-profile_endpoints :
      (profile : Option Profile) (endpoints more : List (IpAddr × ℕ))
      → profile_endpoints lookup_host config profile endpoints ≡ some more
      → any (is_end p) more ≡ (goes_to_profile lookup_host p profile || any (is_end p) endpoints)
  any-profile_endpoints none endpoints more e = rw (← some_same _ _ e) refl
  any-profile_endpoints (some profile) endpoints more e =
      elim (Bool-cases (is_empty (trim profile.host))) [
        | inl g ↦ rw g (rw (← some_same _ _ (rw g at e)) refl)
        | inr g ↦ rw g (
            any-resolved (lookup_host (trim profile.host) profile.port) profile.port endpoints more
              (rw g at e))
      ]

  any-rule_endpoints :
      (rule : PortForwardRule) (endpoints more : List (IpAddr × ℕ))
      → rule_endpoints lookup_host config rule endpoints ≡ some more
      → any (is_end p) more ≡ (is_direct_end lookup_host config p rule || any (is_end p) endpoints)
  any-rule_endpoints rule endpoints more e =
      elim (Bool-cases (rule.enabled && not rule.use_proxy)) [
        | inl g ↦ any-profile_endpoints _ endpoints more (rw g at e) ∙ ground (arith, g)
        | inr g ↦ rw (← some_same _ _ (rw g at e)) (ground (arith, g))
      ]

  -- The ends that are collected are those of the direct forwardings and those there were before.
  pub any-collect_endpoints :
      (rules : List PortForwardRule) (endpoints more : List (IpAddr × ℕ))
      → collect_endpoints lookup_host config rules endpoints ≡ some more
      → any (is_end p) more
        ≡ (any (is_direct_end lookup_host config p) rules || any (is_end p) endpoints)
  unfolding collect_endpoints
  any-collect_endpoints [] endpoints more e = rw (← some_same _ _ e) refl
  any-collect_endpoints (rule ∷ rules) endpoints more e =
      at (rule_endpoints lookup_host config rule endpoints) refl e
        (λ mid. any-collect_endpoints rules mid more)
    where
      at :
          (o : Option (List (IpAddr × ℕ)))
          → rule_endpoints lookup_host config rule endpoints ≡ o
          → (elim o [ none ↦ none | some mid ↦ collect_endpoints lookup_host config rules mid ])
            ≡ some more
          → ((mid : List (IpAddr × ℕ))
              → collect_endpoints lookup_host config rules mid ≡ some more
              → any (is_end p) more
                ≡ (any (is_direct_end lookup_host config p) rules || any (is_end p) mid))
          → any (is_end p) more ≡ (
              (is_direct_end lookup_host config p rule
                || any (is_direct_end lookup_host config p) rules)
              || any (is_end p) endpoints)
      at none g h k = cc
      at (some mid) g h k = ground (arith, any-rule_endpoints rule endpoints mid g, k mid h)

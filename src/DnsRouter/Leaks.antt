-- ===== src/DnsRouter/Leaks.antt =====
-- Which servers see a query: those that the routing decision allows.
use mathlib.Core.Path.{subst}
use ssh_rocket.Base.{
  ◌∙◌, sym, Option-cases, Bool-cases, inl, inr, null, ℕ, ◌≡◌, refl, Bool, true, false, not, ◌&&◌,
  List, [], ◌∷◌, ◌++◌, none, some, if◌then◌else◌, any, any-append, arith, ◌==◌,
}
use ssh_rocket.Config.{RuleAction, direct, proxy, block}
use ssh_rocket.Dns.{
  Packet, parse_dns_query, nodata_response, nxdomain_response, servfail_response,
  normalize_dns_response, parse_dns_addresses,
}
use ssh_rocket.DnsRouter.{
  is_default, primary, backup, remote, Upstream, Effect, ask, update_domain_addresses, send, Answer,
  forward_dns_local, forward_dns_over_tcp, deliver, resolved, handle_decision, handle_dns_query,
  domain_flow, is_block, is_proxy, is_direct, reply,
}
use ssh_rocket.Net.{IpAddr, IpNet}
use ssh_rocket.Outcome.{Outcome, returned, absent, panicked, exhausted, ◌>>=◌, let_else}
use ssh_rocket.Routing.{RouteDecision, RoutingEngine, decide}
use ssh_rocket.Text.{Text}

-- The effect shows the query to a resolver on the open network, or to the one behind the tunnel.
abbrev pub asks_local : Effect → Bool
asks_local (ask primary) = true
asks_local (ask backup) = true
asks_local _ = false

abbrev pub asks_remote : Effect → Bool
asks_remote (ask remote) = true
asks_remote _ = false

abbrev pub asks : Effect → Bool
asks (ask s) = true
asks _ = false

-- No effect of the outcome passes the test.
abbrev Never : (Effect → Bool) → Outcome (List Effect) → Type 0
Never t (returned es) = any t es ≡ false
Never t _ = Unit

module _ (t : Effect → Bool) (no_send : (r : Packet) → t (send r) ≡ false)
    (no_update : (xs : List IpAddr) (a : RuleAction)
      → t (update_domain_addresses xs a) ≡ false) where
  Never-reply : (m : Outcome Packet) → Never t (reply m)
  Never-reply (returned r) = rw (no_send r) refl
  Never-reply absent = tt
  Never-reply panicked = tt
  Never-reply exhausted = tt

  quiet_end :
      (b : Bool) (xs : List IpAddr) (a : RuleAction) (r : Packet)
      → any t ((if b then update_domain_addresses xs a ∷ [] else []) ++ send r ∷ []) ≡ false
  quiet_end true xs a r = rw (no_update xs a, no_send r) refl
  quiet_end false xs a r = rw (no_send r) refl

  Never-deliver :
      (d : RouteDecision) (asked : List Effect) (response : Packet)
      → any t asked ≡ false
      → Never t (deliver d asked response)
  unfolding deliver
  Never-deliver d asked response h = at (normalize_dns_response response)
    where
      at_addresses :
          (r : Packet) (m : Outcome (List IpAddr)) (b : List IpAddr → Bool)
          → Never t (
              m >>= λ xs. returned (
                asked
                ++ ((if b xs then update_domain_addresses xs d.action ∷ [] else [])
                    ++ send r ∷ [])))
      at_addresses r (returned xs) b =
          rw
            (
              any-append t asked
                  ((if b xs then update_domain_addresses xs d.action ∷ [] else []) ++ send r ∷ []),
              h,
            )
            (quiet_end (b xs) xs d.action r)
      at_addresses r absent b = tt
      at_addresses r panicked b = tt
      at_addresses r exhausted b = tt

      at :
          (m : Outcome Packet)
          → Never t (
              m >>= λ r.
              (parse_dns_addresses r >>= λ xs. returned (
                asked
                ++ ((if not (null xs) && not (is_default d.source)
                      then update_domain_addresses xs d.action ∷ []
                      else [])
                    ++ send r ∷ []))))
      at (returned r) =
          at_addresses r (parse_dns_addresses r) (λ xs. not (null xs) && not (is_default d.source))
      at absent = tt
      at panicked = tt
      at exhausted = tt

  Never-resolved :
      (d : RouteDecision) (p : Packet) (a : Answer) → any t a.0 ≡ false → Never t (resolved d p a)
  unfolding resolved
  Never-resolved d p (asked, none) h = at (servfail_response p)
    where
      at : (m : Outcome Packet) → Never t (m >>= λ r. returned (asked ++ send r ∷ []))
      at (returned r) = rw (any-append t asked (send r ∷ []), h, no_send r) refl
      at absent = tt
      at panicked = tt
      at exhausted = tt
  Never-resolved d p (asked, some response) h = Never-deliver d asked response h

  Never-handle_decision :
      (u : Upstream) (d : RouteDecision) (p : Packet) (qtype : ℕ)
      → (is_block d.action ≡ false
          → any t (if is_direct d.action then forward_dns_local u p else forward_dns_over_tcp u p).0
            ≡ false)
      → Never t (handle_decision u d p qtype)
  unfolding handle_decision
  Never-handle_decision u d p qtype h = elim (Bool-cases (is_block d.action)) [
    | inl e ↦ rw e (Never-reply (nxdomain_response p))
    | inr e ↦ rw e (elim (Bool-cases (is_proxy d.action && not (qtype == 1))) [
      | inl g ↦ rw g (Never-reply (nodata_response p))
      | inr g ↦ rw g (Never-resolved d p _ (h e))
    ])
  ]

  Never-handle_dns_query :
      {N : Type 0} (net : IpNet N) (u : Upstream) (engine : RoutingEngine N) (ipv6_enabled : Bool)
      (p : Packet)
      → ((name : Text) (qtype : ℕ)
          → parse_dns_query p ≡ returned (name, qtype)
          → Never t (handle_decision u (decide net engine (domain_flow name)) p qtype))
      → Never t (handle_dns_query net u engine ipv6_enabled p)
  unfolding handle_dns_query
  Never-handle_dns_query net u engine ipv6_enabled p h = at (parse_dns_query p) refl
    where
      ready :
          (name : Text) (qtype : ℕ) (b : Bool)
          → parse_dns_query p ≡ returned (name, qtype)
          → Never t (
              if b
              then reply (nodata_response p)
              else handle_decision u (decide net engine (domain_flow name)) p qtype)
      ready name qtype true e = Never-reply (nodata_response p)
      ready name qtype false e = h name qtype e

      at :
          (m : Outcome (Text × ℕ))
          → parse_dns_query p ≡ m
          → Never t (
              let_else m (returned []) λ query.
                if not ipv6_enabled && query.1 == 28
                then reply (nodata_response p)
                else handle_decision u (decide net engine (domain_flow query.0)) p query.1)
      at (returned (name, qtype)) e = ready name qtype (not ipv6_enabled && qtype == 28) e
      at absent e = refl
      at panicked e = tt
      at exhausted e = tt

returned_same : {x y : Text × ℕ} → ◌≡◌ {A = Outcome (Text × ℕ)} (returned x) (returned y) → x ≡ y
returned_same e = cc

Never-returned :
    (t : Effect → Bool) (m : Outcome (List Effect)) (es : List Effect)
    → m ≡ returned es
    → Never t m
    → any t es ≡ false
Never-returned t m es e h = rw e at h

module _ {N : Type 0} (net : IpNet N) (u : Upstream) (engine : RoutingEngine N)
    (ipv6_enabled : Bool) (p : Packet) (name : Text) (qtype : ℕ) (es : List Effect)
    (query : parse_dns_query p ≡ returned (name, qtype))
    (handled : handle_dns_query net u engine ipv6_enabled p ≡ returned es) where
  never :
      (t : Effect → Bool)
      → ((r : Packet) → t (send r) ≡ false)
      → ((xs : List IpAddr) (a : RuleAction) → t (update_domain_addresses xs a) ≡ false)
      → Never t (handle_decision u (decide net engine (domain_flow name)) p qtype)
      → any t es ≡ false
  never t no_send no_update h = Never-returned t _ es handled (
      Never-handle_dns_query t no_send no_update net u engine ipv6_enabled p (λ name' qtype' e.
        let same : ◌≡◌ {A = Outcome (Text × ℕ)} (returned (name', qtype'))
            (returned (name, qtype)) =
          sym e ∙ query in
        subst (λ x. Never t (handle_decision u (decide net engine (domain_flow x.0)) p x.1))
          (sym (returned_same same)) h))

  -- If a query parses, the routing decision for its domain is proxy and the handler returns its
  -- effects, then none of them asks a resolver outside the tunnel.
  pub proxied_stays_inside :
      (decide net engine (domain_flow name)).action ≡ proxy → any asks_local es ≡ false
  unfolding forward_dns_over_tcp
  proxied_stays_inside a =
      never asks_local (λ _. refl) (λ _ _. refl)
        (Never-handle_decision asks_local (λ _. refl) (λ _ _. refl) u _ p qtype (λ _. rw a refl))

  -- If a query parses, the decision for its domain is direct and the handler returns its effects,
  -- then none of them asks the resolver behind the tunnel.
  pub direct_stays_outside :
      (decide net engine (domain_flow name)).action ≡ direct → any asks_remote es ≡ false
  unfolding forward_dns_local
  direct_stays_outside a =
      never asks_remote (λ _. refl) (λ _ _. refl)
        (Never-handle_decision asks_remote (λ _. refl) (λ _ _. refl) u _ p qtype
          (λ _. rw a (ground (arith, Option-cases (u.answer primary p)))))

  -- If a query parses, the decision for its domain is block and the handler returns its effects,
  -- then none of them asks any resolver.
  pub blocked_asks_nobody :
      (decide net engine (domain_flow name)).action ≡ block → any asks es ≡ false
  blocked_asks_nobody a =
      never asks (λ _. refl) (λ _ _. refl)
        (Never-handle_decision asks (λ _. refl) (λ _ _. refl) u _ p qtype
          (λ e. absurd (ground arith)))

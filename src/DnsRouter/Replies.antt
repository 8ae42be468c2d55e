-- ===== src/DnsRouter/Replies.antt =====
-- Every query that can be parsed gets exactly one reply, and an update of the address sets only for
-- an explicit rule.
use ssh_rocket.Base.{
  length, leb, ◌∙◌, ℕ, ◌+◌, ◌≡◌, refl, Bool, true, false, not, ◌&&◌, List, [], ◌∷◌, ◌++◌, Option,
  none, some, if◌then◌else◌, arith, ◌≤◌, ◌==◌, null,
}
use ssh_rocket.Dns.{
  Packet, parse_dns_query, normalize_dns_response, parse_dns_addresses, empty_dns_response,
}
use ssh_rocket.Dns.Addresses.{AllAddresses, answer_count, IsPacket, parse_dns_addresses-Ensures}
use ssh_rocket.Dns.Normalize.{normalize-Returns}
use ssh_rocket.Dns.Responses.{empty_dns_response-IsReturned}
use ssh_rocket.Dns.Returned.{parse_dns_addresses-IsReturned}
use ssh_rocket.DnsRouter.{
  Server, primary, backup, remote, Upstream, Effect, ask, update_domain_addresses, send, Answer,
  forward_dns_local, forward_dns_over_tcp, deliver, resolved, handle_decision, handle_dns_query,
  domain_flow, is_block, is_proxy, is_direct, is_default,
}
use ssh_rocket.Net.{IpAddr, IpNet}
use ssh_rocket.Outcome.{
  panicked, exhausted, Returns-weaken, IsSafe, Outcome, returned, absent, ◌>>=◌, Returns,
  Ensures-Returns, bind-Returns, branch-Returns,
}
use ssh_rocket.Dns.Safety.{parse_dns_query-IsSafe}
use ssh_rocket.Routing.{RouteDecision, RoutingEngine, decide}
use ssh_rocket.Text.{Text}

-- The resolvers answer with bytes.
abbrev pub IsUpstream : Upstream → Type 0
IsUpstream u = (s : Server) (p r : Packet) → u.answer s p ≡ some r → IsPacket r

abbrev pub sends : List Effect → ℕ
sends [] = 0
sends (send r ∷ es) = 1 + sends es
sends (ask s ∷ es) = sends es
sends (update_domain_addresses xs a ∷ es) = sends es

-- An update carries the decision's action and some address, and the decision is a rule's.
abbrev pub Updates : RouteDecision → List Effect → Type 0
Updates d [] = Unit
Updates d (send r ∷ es) = Updates d es
Updates d (ask s ∷ es) = Updates d es
Updates d (update_domain_addresses xs a ∷ es) =
    (a ≡ d.action) × (is_default d.source ≡ false) × (null xs ≡ false) × Updates d es

abbrev pub IsReply : RouteDecision → List Effect → Type 0
IsReply d es = (sends es ≡ 1) × Updates d es

-- Effects that only ask.
abbrev OnlyAsks : List Effect → Type 0
OnlyAsks [] = Unit
OnlyAsks (ask s ∷ es) = OnlyAsks es
OnlyAsks (send r ∷ es) = ⊥
OnlyAsks (update_domain_addresses xs a ∷ es) = ⊥

asked-IsReply :
    (d : RouteDecision) (asked es : List Effect)
    → OnlyAsks asked
    → IsReply d es
    → IsReply d (asked ++ es)
asked-IsReply d [] es h k = k
asked-IsReply d (ask s ∷ asked) es h k = asked-IsReply d asked es h k
asked-IsReply d (send r ∷ asked) es h k = absurd h
asked-IsReply d (update_domain_addresses xs a ∷ asked) es h k = absurd h

IsReply-Returns :
    (d : RouteDecision) (asked : List Effect) (p : Packet) (code : ℕ)
    → OnlyAsks asked
    → Returns (IsReply d) (empty_dns_response p code >>= λ r. returned (asked ++ send r ∷ []))
IsReply-Returns d asked p code h =
    bind-Returns _ (IsReply d) (empty_dns_response p code) _ (empty_dns_response-IsReturned p code)
      λ r _. asked-IsReply d asked (send r ∷ []) h (omega arith)

delivered :
    (d : RouteDecision) (asked : List Effect) (xs : List IpAddr) (r : Packet) (b : Bool)
    → OnlyAsks asked
    → (b ≡ true → (is_default d.source ≡ false) × (null xs ≡ false))
    → IsReply d
        (asked ++ ((if b then update_domain_addresses xs d.action ∷ [] else []) ++ send r ∷ []))
delivered d asked xs r true h k =
    asked-IsReply d asked _ h (refl, (refl, (k refl).0, (k refl).1, tt))
delivered d asked xs r false h k = asked-IsReply d asked _ h (refl, tt)

found_addresses :
    (p : Packet)
    → IsPacket p
    → Returns (λ xs. AllAddresses xs × (length xs ≤ answer_count p)) (parse_dns_addresses p)
found_addresses p bytes =
    Ensures-Returns _ _ (parse_dns_addresses p) (parse_dns_addresses-Ensures p bytes)
      (parse_dns_addresses-IsReturned p)

deliver-Returns :
    (d : RouteDecision) (asked : List Effect) (response : Packet)
    → IsPacket response
    → OnlyAsks asked
    → Returns (IsReply d) (deliver d asked response)
unfolding deliver
deliver-Returns d asked response bytes h =
    bind-Returns _ (IsReply d) (normalize_dns_response response) _
      (normalize-Returns response bytes)
      λ r kept.
        bind-Returns _ (IsReply d) (parse_dns_addresses r) _ (found_addresses r kept.0) λ xs found.
          delivered d asked xs r (not (null xs) && not (is_default d.source)) h (λ e. ground arith)

resolved-Returns :
    (d : RouteDecision) (p : Packet) (a : Answer)
    → OnlyAsks a.0
    → ((r : Packet) → a.1 ≡ some r → IsPacket r)
    → Returns (IsReply d) (resolved d p a)
unfolding resolved
resolved-Returns d p (asked, none) h k = IsReply-Returns d asked p 2 h
resolved-Returns d p (asked, some response) h k =
    deliver-Returns d asked response (k response refl) h

abbrev IsAnswer : Answer → Type 0
IsAnswer a = OnlyAsks a.0 × ((r : Packet) → a.1 ≡ some r → IsPacket r)

local-IsAnswer : (u : Upstream) (p : Packet) → IsUpstream u → IsAnswer (forward_dns_local u p)
unfolding forward_dns_local
local-IsAnswer u p h = at (u.answer primary p) refl
  where
    at :
        (o : Option Packet)
        → u.answer primary p ≡ o
        → IsAnswer (elim o [
          | some response ↦ (ask primary ∷ [], some response)
          | none ↦ (ask primary ∷ ask backup ∷ [], u.answer backup p)
        ])
    at (some response) e = (tt, λ r g. h primary p r (e ∙ g))
    at none e = (tt, h backup p)

remote-IsAnswer : (u : Upstream) (p : Packet) → IsUpstream u → IsAnswer (forward_dns_over_tcp u p)
unfolding forward_dns_over_tcp
remote-IsAnswer u p h = (tt, at (leb (length p) 65535))
  where
    at : (b : Bool) (r : Packet) → (if b then u.answer remote p else none) ≡ some r → IsPacket r
    at true r e = h remote p r e
    at false r e = cc

handle_decision-Returns :
    (u : Upstream) (d : RouteDecision) (p : Packet) (qtype : ℕ)
    → IsUpstream u
    → Returns (IsReply d) (handle_decision u d p qtype)
unfolding handle_decision
handle_decision-Returns u d p qtype h =
    branch-Returns (IsReply d) (is_block d.action) _ _ (λ _. IsReply-Returns d [] p 3 tt)
      λ _.
        branch-Returns (IsReply d) (is_proxy d.action && not (qtype == 1)) _ _
          (λ _. IsReply-Returns d [] p 0 tt) λ _. at (is_direct d.action)
  where
    at :
        (b : Bool)
        → Returns
            (IsReply d)
            (resolved d p (if b then forward_dns_local u p else forward_dns_over_tcp u p))
    at true = let (a, r) = local-IsAnswer u p h in resolved-Returns d p (forward_dns_local u p) a r
    at false =
        let (a, r) = remote-IsAnswer u p h in resolved-Returns d p (forward_dns_over_tcp u p) a r

-- The replies that are due to a packet: one if it is a query.
abbrev pub replies_due : Outcome (Text × ℕ) → ℕ
replies_due (returned query) = 1
replies_due _ = 0

module _ {N : Type 0} (net : IpNet N) (u : Upstream) (engine : RoutingEngine N)
    (ipv6_enabled : Bool) (bytes : IsUpstream u) (p : Packet) where
  -- If the resolvers answer with bytes and a query parses, the handler returns, without a panic
  -- and with enough fuel, sends exactly one reply, and updates the address sets only with the
  -- action of the decision, for some address, and never under the default policy.
  pub handle_dns_query-IsReply :
      (name : Text) (qtype : ℕ)
      → parse_dns_query p ≡ returned (name, qtype)
      → Returns
          (IsReply (decide net engine (domain_flow name)))
          (handle_dns_query net u engine ipv6_enabled p)
  unfolding handle_dns_query
  handle_dns_query-IsReply name qtype e =
      let d = decide net engine (domain_flow name) in
      rw e (
        branch-Returns (IsReply d) (not ipv6_enabled && qtype == 28) _ _
          (λ _. IsReply-Returns d [] p 0 tt) λ _. handle_decision-Returns u d p qtype bytes)

  -- Any other packet is dropped without an effect.
  pub handle_dns_query_dropped :
      parse_dns_query p ≡ absent → handle_dns_query net u engine ipv6_enabled p ≡ returned []
  unfolding handle_dns_query
  handle_dns_query_dropped e = rw e refl

  -- If the resolvers answer with bytes, then for every packet, whatever it holds, the handler
  -- returns, without a panic and with enough fuel; it sends one reply if the packet can be parsed
  -- as a query, and none if it cannot.
  pub handle_dns_query-replies_due :
      Returns
        (λ es. sends es ≡ replies_due (parse_dns_query p))
        (handle_dns_query net u engine ipv6_enabled p)
  handle_dns_query-replies_due = at (parse_dns_query p) refl (parse_dns_query-IsSafe p)
    where
      at :
          (m : Outcome (Text × ℕ))
          → parse_dns_query p ≡ m
          → IsSafe m
          → Returns
              (λ es. sends es ≡ replies_due (parse_dns_query p))
              (handle_dns_query net u engine ipv6_enabled p)
      at (returned (name, qtype)) e safe =
          Returns-weaken (IsReply (decide net engine (domain_flow name))) _
            (handle_dns_query net u engine ipv6_enabled p) (handle_dns_query-IsReply name qtype e)
            λ es h. rw e h.0
      at absent e safe = rw (handle_dns_query_dropped e, e) refl
      at panicked e safe = absurd safe
      at exhausted e safe = absurd safe

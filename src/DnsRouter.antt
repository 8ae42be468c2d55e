-- ===== src/DnsRouter.antt =====
-- `handle_dns_query` of crates/ssh-rocket-runtime/src/dns_router.rs: one query, from the packet to
-- the effects. What the resolvers answer, or that they fail or time out, is a parameter.
pub mod Leaks
pub mod Replies
mod Examples
use ssh_rocket.Base.{
  null, ℕ, Bool, true, false, not, ◌&&◌, ◌||◌, List, [], ◌∷◌, ◌++◌, Option, none, some, leb, ◌==◌,
  if◌then◌else◌, length,
}
use ssh_rocket.Config.{RuleAction, direct, proxy, block}
use ssh_rocket.Dns.{
  Packet, parse_dns_query, nodata_response, servfail_response, nxdomain_response,
  normalize_dns_response, parse_dns_addresses,
}
use ssh_rocket.Net.{IpAddr, IpNet}
use ssh_rocket.Outcome.{Outcome, returned, absent, panicked, exhausted, ◌>>=◌, let_else}
use ssh_rocket.Routing.{
  FlowContext, MatchSource, custom_override, app_rule, domain_rule, ip_rule, default_policy,
  RouteDecision, RoutingEngine, decide,
}
use ssh_rocket.Text.{Text}

-- 223.5.5.5 and 114.114.114.114 over UDP, and the DNS server behind the SSH tunnel over TCP.
pub data Server : Type 0 where
  primary backup remote : Server

-- What each server answers to a packet; `none` is an error or a timeout.
pub record Upstream : Type 0 where
  pub answer : Server → Packet → Option Packet

pub data Effect : Type 0 where
  ask : Server → Effect
  update_domain_addresses : List IpAddr → RuleAction → Effect
  send : Packet → Effect

abbrev pub Answer : Type 0
Answer = List Effect × Option Packet

unfoldable pub forward_dns_local : Upstream → Packet → Answer
forward_dns_local u p = elim (u.answer primary p) [
  | some response ↦ (ask primary ∷ [], some response)
  | none ↦ (ask primary ∷ ask backup ∷ [], u.answer backup p)
]

-- The length of a packet is sent in two bytes; a longer packet is an error.
unfoldable pub forward_dns_over_tcp : Upstream → Packet → Answer
forward_dns_over_tcp u p =
    (ask remote ∷ [], if leb (length p) 65535 then u.answer remote p else none)

abbrev pub is_block : RuleAction → Bool
is_block block = true
is_block _ = false

abbrev pub is_proxy : RuleAction → Bool
is_proxy proxy = true
is_proxy _ = false

abbrev pub is_direct : RuleAction → Bool
is_direct direct = true
is_direct _ = false

abbrev pub is_default : MatchSource → Bool
is_default default_policy = true
is_default _ = false

abbrev pub reply : Outcome Packet → Outcome (List Effect)
reply m = m >>= λ r. returned (send r ∷ [])

-- The effects behind a response: the update of the firewall's address sets, and the reply.
unfoldable pub deliver : RouteDecision → List Effect → Packet → Outcome (List Effect)
deliver d asked response = do
  response ← normalize_dns_response response
  addresses ← parse_dns_addresses response
  returned (
      asked
      ++ ((if not (null addresses) && not (is_default d.source)
            then update_domain_addresses addresses d.action ∷ []
            else [])
          ++ send response ∷ []))

unfoldable pub resolved : RouteDecision → Packet → Answer → Outcome (List Effect)
unfolding deliver
resolved d p (asked, none) = servfail_response p >>= λ r. returned (asked ++ send r ∷ [])
resolved d p (asked, some response) = deliver d asked response

-- From the decision on.
unfoldable pub handle_decision : Upstream → RouteDecision → Packet → ℕ → Outcome (List Effect)
unfolding resolved forward_dns_local forward_dns_over_tcp
handle_decision u d p qtype =
    if is_block d.action
    then reply (nxdomain_response p)
    else if is_proxy d.action && not (qtype == 1)
    then reply (nodata_response p)
    else resolved d p
        (if is_direct d.action then forward_dns_local u p else forward_dns_over_tcp u p)

abbrev pub domain_flow : Text → FlowContext
domain_flow name = record { destination = none; domain_name = some name; executable = none }

module _ {N : Type 0} (net : IpNet N) (u : Upstream) (engine : RoutingEngine N)
    (ipv6_enabled : Bool) where
  unfoldable pub handle_dns_query : Packet → Outcome (List Effect)
  unfolding handle_decision
  handle_dns_query p = let_else (parse_dns_query p) (returned []) λ query.
      if not ipv6_enabled && query.1 == 28
      then reply (nodata_response p)
      else handle_decision u (decide net engine (domain_flow query.0)) p query.1

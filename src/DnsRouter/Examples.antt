-- ===== src/DnsRouter/Examples.antt =====
-- One query under each decision, and the theorems at it.
use ssh_rocket.Base.{drop, ◌≡◌, refl, false, List, [], ◌∷◌, Option, none, some, any}
use ssh_rocket.Config.{RuleAction, direct, proxy, block, domain_suffix, default_settings}
use ssh_rocket.Dns.{
  Packet, parse_dns_query, empty_dns_response, normalize_dns_response, parse_dns_addresses,
  skip_dns_name, be16,
}
use ssh_rocket.Dns.Responses.{answered}
use ssh_rocket.Net.{IpAddr, v4}
use ssh_rocket.Dns.Examples.{query, response, response_bytes}
use ssh_rocket.DnsRouter.{
  Server, primary, backup, remote, Upstream, Effect, ask, update_domain_addresses, send,
  handle_dns_query, domain_flow,
}
use ssh_rocket.DnsRouter.Leaks.{
  asks_local, asks_remote, asks, proxied_stays_inside, direct_stays_outside, blocked_asks_nobody,
}
use ssh_rocket.DnsRouter.Replies.{
  IsUpstream, IsReply, handle_dns_query-IsReply, handle_dns_query-replies_due, replies_due, sends,
}
use ssh_rocket.Net.Blocks.{Block, blocks}
use ssh_rocket.Outcome.{returned, Returns, index, slice, store}
use ssh_rocket.Routing.{RoutingEngine, new, decide}
use ssh_rocket.Text.{
  codes, trim_start_matches, trim_end_matches, to_ascii_lowercase, trim, ends_with,
}
use ssh_rocket.Utf8.{from_utf8}

-- The primary server is down; the others answer with the same packet.
abbrev answers : Server → Packet → Option Packet
answers primary p = none
answers backup p = some response
answers remote p = some response

abbrev upstream : Upstream
upstream = record { answer = answers }

some_same : (a b : Packet) → some a ≡ some b → a ≡ b
some_same a b e = cc

upstream_bytes : IsUpstream upstream
upstream_bytes primary p r e = cc
upstream_bytes backup p r e = rw (← some_same response r e) response_bytes
upstream_bytes remote p r e = rw (← some_same response r e) response_bytes

abbrev engine : RuleAction → RoutingEngine Block
engine a = new (record (default_settings Block) {
  domain_rules = record { pattern = codes "chatgpt.com"; action = a; kind = domain_suffix } ∷ [];
})

chosen :
    (a : RuleAction) → (decide blocks (engine a) (domain_flow (codes "chatgpt.com"))).action ≡ a
unfolding decide new blocks trim_start_matches trim_end_matches to_ascii_lowercase trim ends_with
chosen a = refl

-- The response with the two flags set.
abbrev marked : Packet
marked = 0x12 ∷ 0x34 ∷ 0x81 ∷ 0x80 ∷ drop 4 response

abbrev found : List IpAddr
found = v4 93 184 216 34 ∷ []

-- The effects under each action.
abbrev effects : RuleAction → List Effect
effects direct = ask primary ∷ ask backup ∷ update_domain_addresses found direct ∷ send marked ∷ []
effects proxy = ask remote ∷ update_domain_addresses found proxy ∷ send marked ∷ []
effects block = send (answered (query 1) 3 29) ∷ []

parsed : parse_dns_query (query 1) ≡ returned (codes "chatgpt.com", 1)
unfolding parse_dns_query be16 index slice from_utf8
parsed = refl

handled :
    (a : RuleAction)
    → handle_dns_query blocks upstream (engine a) false (query 1) ≡ returned (effects a)
unfolding handle_dns_query parse_dns_query parse_dns_addresses normalize_dns_response
    empty_dns_response skip_dns_name be16 index slice store from_utf8 decide new blocks
    trim_start_matches trim_end_matches to_ascii_lowercase trim ends_with
handled direct = refl
handled proxy = refl
handled block = refl

proxied_stays_inside_example : any asks_local (effects proxy) ≡ false
proxied_stays_inside_example =
    proxied_stays_inside blocks upstream (engine proxy) false (query 1) (codes "chatgpt.com") 1
      (effects proxy) parsed (handled proxy) (chosen proxy)

direct_stays_outside_example : any asks_remote (effects direct) ≡ false
direct_stays_outside_example =
    direct_stays_outside blocks upstream (engine direct) false (query 1) (codes "chatgpt.com") 1
      (effects direct) parsed (handled direct) (chosen direct)

blocked_asks_nobody_example : any asks (effects block) ≡ false
blocked_asks_nobody_example =
    blocked_asks_nobody blocks upstream (engine block) false (query 1) (codes "chatgpt.com") 1
      (effects block) parsed (handled block) (chosen block)

handle_dns_query-IsReply_example :
    Returns
      (IsReply (decide blocks (engine direct) (domain_flow (codes "chatgpt.com"))))
      (handle_dns_query blocks upstream (engine direct) false (query 1))
handle_dns_query-IsReply_example =
    handle_dns_query-IsReply blocks upstream (engine direct) false upstream_bytes (query 1)
      (codes "chatgpt.com") 1 parsed

-- A query that announces nine questions and holds one: its response is empty.
abbrev cut_off : Packet
cut_off = 0x12 ∷ 0x34 ∷ 1 ∷ 0 ∷ 0 ∷ 9 ∷ drop 6 (query 1)

handle_dns_query-replies_due_example :
    Returns
      (λ es. sends es ≡ replies_due (parse_dns_query cut_off))
      (handle_dns_query blocks upstream (engine block) false cut_off)
handle_dns_query-replies_due_example =
    handle_dns_query-replies_due blocks upstream (engine block) false upstream_bytes cut_off

empty_reply :
    handle_dns_query blocks upstream (engine block) false cut_off ≡ returned (send [] ∷ [])
unfolding handle_dns_query parse_dns_query parse_dns_addresses normalize_dns_response
    empty_dns_response skip_dns_name be16 index slice store from_utf8 decide new blocks
    trim_start_matches trim_end_matches to_ascii_lowercase trim ends_with
empty_reply = refl

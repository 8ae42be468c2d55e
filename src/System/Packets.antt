-- ===== src/System/Packets.antt =====
-- What the rules of the output chain mean for a packet, as nft(8) documents them: the first rule whose
-- conditions all hold is applied, and the policy of the chain is to accept.
use ssh_rocket.Base.{
  ℕ, Bool, true, false, not, ◌&&◌, ◌||◌, List, [], ◌∷◌, Option, some, ◌==◌, leb, if◌then◌else◌, all,
  get_or,
}
use ssh_rocket.Config.{RuleAction, direct, proxy, block}
use ssh_rocket.Net.{IpAddr, v4, v6, IpNet}
use ssh_rocket.Net.Equality.{addr_eq}
use ssh_rocket.System.Nft.{
  Family, ip, ip6, family_of, Chain, output, dns_output, Match, skuid, skuid_not, local_address,
  private4, private6, fake_address, tcp_port, udp_port, is_tcp, to_address, to_network, to_set,
  in_group, Statement, leave, reject, set_mark, set_mark_leave, redirect_dns, NftRule, NftCommand,
  add_rule,
}

pub data Protocol : Type 0 where
  tcp udp other : Protocol

-- A packet that a process sends; `group` is the control group of the process, named by its action.
pub record Packet : Type 0 where
  pub uid : ℕ
  pub is_local : Bool
  pub destination : IpAddr
  pub protocol : Protocol
  pub port : ℕ
  pub group : Option RuleAction

-- A packet is rejected, or leaves with or without the mark that routes it into the tunnel.
pub data Fate : Type 0 where
  rejected : Fate
  passed : Bool → Fate

abbrev pub tcp_packet : Packet → Bool
tcp_packet p = elim p.protocol [ tcp ↦ true | udp ↦ false | other ↦ false ]

abbrev pub udp_packet : Packet → Bool
udp_packet p = elim p.protocol [ tcp ↦ false | udp ↦ true | other ↦ false ]

abbrev pub between : ℕ → ℕ → ℕ → Bool
between low high x = leb low x && leb x high

unfoldable pub is_private4 : IpAddr → Bool
is_private4 (v4 a b c d) =
    a == 127
    || ((a == 169 && b == 254)
        || ((a == 192 && b == 168)
            || ((a == 172 && between 16 31 b)
                || (a == 10
                    || (between 224 239 a || (a == 255 && (b == 255 && (c == 255 && d == 255))))))))
is_private4 (v6 octets) = false

abbrev loopback6 : IpAddr
loopback6 = v6 (0 ∷ 0 ∷ 0 ∷ 0 ∷ 0 ∷ 0 ∷ 0 ∷ 0 ∷ 0 ∷ 0 ∷ 0 ∷ 0 ∷ 0 ∷ 0 ∷ 0 ∷ 1 ∷ [])

unfoldable pub is_private6 : IpAddr → Bool
unfolding addr_eq
is_private6 (v4 a b c d) = false
is_private6 (v6 octets) =
    addr_eq (v6 octets) loopback6
    || (between 0xfc 0xfd (get_or octets 0 0)
        || ((get_or octets 0 0 == 0xfe && between 0x80 0xbf (get_or octets 1 0))
            || get_or octets 0 0 == 0xff))

unfoldable pub is_fake : IpAddr → Bool
is_fake (v4 a b c d) = a == 198 && between 18 19 b
is_fake (v6 octets) = false

abbrev pub same_action : RuleAction → Option RuleAction → Bool
same_action direct (some direct) = true
same_action proxy (some proxy) = true
same_action block (some block) = true
same_action _ _ = false

abbrev pub same_family : Family → Family → Bool
same_family ip ip = true
same_family ip6 ip6 = true
same_family _ _ = false

-- The rules of a chain, in the order in which they were added.
unfoldable pub rules_of : {N : Type 0} → Chain → List (NftCommand N) → List (NftRule N)
rules_of c [] = []
rules_of output (add_rule output r ∷ cs) = r ∷ rules_of output cs
rules_of dns_output (add_rule dns_output r ∷ cs) = r ∷ rules_of dns_output cs
rules_of c (_ ∷ cs) = rules_of c cs

-- The addresses that the sets hold for each action.
abbrev pub Sets : Type 0
Sets = RuleAction → IpAddr → Bool

module _ {N : Type 0} (net : IpNet N) (sets : Sets) (p : Packet) where
  unfoldable pub holds : Match N → Bool
  holds (skuid uid) = p.uid == uid
  holds (skuid_not uid) = not (p.uid == uid)
  holds local_address = p.is_local
  holds private4 = is_private4 p.destination
  holds private6 = is_private6 p.destination
  holds fake_address = is_fake p.destination
  holds (tcp_port port) = tcp_packet p && p.port == port
  holds (udp_port port) = udp_packet p && p.port == port
  holds is_tcp = tcp_packet p
  holds (to_address a) = addr_eq p.destination a
  holds (to_network n) = net.contains n p.destination
  holds (to_set f a) = same_family f (family_of p.destination) && sets a p.destination
  holds (in_group a) = same_action a p.group

  abbrev pub applies : NftRule N → Bool
  applies r = all holds r.matches

  -- What a rule that applies does with a packet, given what the rules behind it would do.
  abbrev pub apply : Statement → Bool → Fate → Fate
  apply leave marked rest = passed marked
  apply reject marked rest = rejected
  apply set_mark marked rest = rest
  apply set_mark_leave marked rest = passed true
  apply redirect_dns marked rest = passed marked

  abbrev pub marks : Statement → Bool
  marks set_mark = true
  marks _ = false

  unfoldable pub run_chain : List (NftRule N) → Bool → Fate
  run_chain [] marked = passed marked
  run_chain (r ∷ rs) marked =
      let rest = run_chain rs (marked || (applies r && marks r.statement)) in
      if applies r then apply r.statement marked rest else rest

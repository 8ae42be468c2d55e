-- ===== src/System/Nft.antt =====
-- crates/ssh-rocket-runtime/src/system.rs: the statements that are handed to the command nft, and the
-- arguments that stand for them.
use ssh_rocket.Base.{ℕ, Bool, List, [], ◌∷◌, ◌++◌, if◌then◌else◌}
use ssh_rocket.Config.{RuleAction, direct, proxy, block}
use ssh_rocket.Net.{IpAddr, v4, v6}
use ssh_rocket.Text.{Text, codes}

pub data Family : Type 0 where
  ip ip6 : Family

pub data Chain : Type 0 where
  output dns_output : Chain

-- The conditions that the rules use.
pub data Match (N : Type 0) : Type 0 where
  skuid : ℕ → Match N
  skuid_not : ℕ → Match N
  local_address : Match N
  private4 private6 fake_address : Match N
  tcp_port udp_port : ℕ → Match N
  is_tcp : Match N
  to_address : IpAddr → Match N
  to_network : N → Match N
  to_set : Family → RuleAction → Match N
  in_group : RuleAction → Match N

-- `set_mark` goes on with the next rule, `set_mark_leave` does not.
pub data Statement : Type 0 where
  leave reject set_mark set_mark_leave redirect_dns : Statement

pub record NftRule (N : Type 0) : Type 0 where
  pub matches : List (Match N)
  pub statement : Statement

pub data NftCommand (N : Type 0) : Type 0 where
  delete_table add_table : NftCommand N
  add_chain : Chain → NftCommand N
  add_rule : Chain → NftRule N → NftCommand N
  add_set : Family → RuleAction → NftCommand N

-- `to_string` of numbers, addresses and networks.
pub record Printing (N : Type 0) : Type 0 where
  pub number : ℕ → Text
  pub address : IpAddr → Text
  pub network : N → Text
  pub is_v4 : N → Bool

abbrev pub family_of : IpAddr → Family
family_of (v4 a b c d) = ip
family_of (v6 octets) = ip6

abbrev pub family_name : Family → Text
family_name ip = codes "ip"
family_name ip6 = codes "ip6"

abbrev pub address_type : Family → Text
address_type ip = codes "ipv4_addr"
address_type ip6 = codes "ipv6_addr"

abbrev pub suffix : Family → Text
suffix ip = codes "4"
suffix ip6 = codes "6"

abbrev pub category : RuleAction → Text
category proxy = codes "proxy"
category direct = codes "direct"
category block = codes "block"

abbrev pub group_name : RuleAction → Text
group_name a = codes "sshrocket-" ++ category a

abbrev pub set_name : Family → RuleAction → Text
set_name f a = codes "domain_" ++ (category a ++ suffix f)

abbrev pub chain_name : Chain → Text
chain_name output = codes "output"
chain_name dns_output = codes "dns_output"

abbrev pub in_table : List Text
in_table = codes "inet" ∷ codes "ssh_rocket" ∷ []

abbrev pub chain_type : Chain → List Text
chain_type output =
    codes "{"
    ∷ codes "type"
    ∷ codes "route"
    ∷ codes "hook"
    ∷ codes "output"
    ∷ codes "priority"
    ∷ codes "mangle"
    ∷ codes ";"
    ∷ codes "policy"
    ∷ codes "accept"
    ∷ codes ";"
    ∷ codes "}"
    ∷ []
chain_type dns_output =
    codes "{"
    ∷ codes "type"
    ∷ codes "nat"
    ∷ codes "hook"
    ∷ codes "output"
    ∷ codes "priority"
    ∷ codes "dstnat"
    ∷ codes ";"
    ∷ codes "policy"
    ∷ codes "accept"
    ∷ codes ";"
    ∷ codes "}"
    ∷ []

abbrev pub statement_args : Statement → List Text
statement_args leave = codes "return" ∷ []
statement_args reject = codes "reject" ∷ []
statement_args set_mark = codes "meta" ∷ codes "mark" ∷ codes "set" ∷ codes "0x5352" ∷ []
statement_args set_mark_leave =
    codes "meta" ∷ codes "mark" ∷ codes "set" ∷ codes "0x5352" ∷ codes "return" ∷ []
statement_args redirect_dns = codes "redirect" ∷ codes "to" ∷ codes ":15353" ∷ []

abbrev to : Family → List Text → List Text
to f args = family_name f ∷ codes "daddr" ∷ args

module _ {N : Type 0} (print : Printing N) where
  abbrev pub match_args : Match N → List Text
  match_args (skuid uid) = codes "meta" ∷ codes "skuid" ∷ print.number uid ∷ []
  match_args (skuid_not uid) = codes "meta" ∷ codes "skuid" ∷ codes "!=" ∷ print.number uid ∷ []
  match_args local_address = codes "fib" ∷ codes "daddr" ∷ codes "type" ∷ codes "local" ∷ []
  match_args private4 = to ip (
      codes "{"
      ∷ codes "127.0.0.0/8"
      ∷ codes ","
      ∷ codes "169.254.0.0/16"
      ∷ codes ","
      ∷ codes "192.168.0.0/16"
      ∷ codes ","
      ∷ codes "172.16.0.0/12"
      ∷ codes ","
      ∷ codes "10.0.0.0/8"
      ∷ codes ","
      ∷ codes "224.0.0.0/4"
      ∷ codes ","
      ∷ codes "255.255.255.255"
      ∷ codes "}"
      ∷ [])
  match_args private6 = to ip6 (
      codes "{"
      ∷ codes "::1"
      ∷ codes ","
      ∷ codes "fc00::/7"
      ∷ codes ","
      ∷ codes "fe80::/10"
      ∷ codes ","
      ∷ codes "ff00::/8"
      ∷ codes "}"
      ∷ [])
  match_args fake_address = to ip (codes "198.18.0.0/15" ∷ [])
  match_args (tcp_port port) = codes "tcp" ∷ codes "dport" ∷ print.number port ∷ []
  match_args (udp_port port) = codes "udp" ∷ codes "dport" ∷ print.number port ∷ []
  match_args is_tcp = codes "meta" ∷ codes "l4proto" ∷ codes "tcp" ∷ []
  match_args (to_address a) = to (family_of a) (print.address a ∷ [])
  match_args (to_network n) = to (if print.is_v4 n then ip else ip6) (print.network n ∷ [])
  match_args (to_set f a) = to f ((codes "@" ++ set_name f a) ∷ [])
  match_args (in_group a) =
      codes "socket" ∷ codes "cgroupv2" ∷ codes "level" ∷ codes "1" ∷ group_name a ∷ []

  abbrev pub all_match_args : List (Match N) → List Text
  all_match_args [] = []
  all_match_args (m ∷ ms) = match_args m ++ all_match_args ms

  -- The arguments of one call of nft.
  unfoldable pub arguments : NftCommand N → List Text
  arguments delete_table = codes "delete" ∷ codes "table" ∷ in_table
  arguments add_table = codes "add" ∷ codes "table" ∷ in_table
  arguments (add_chain c) = codes "add" ∷ codes "chain" ∷ (in_table ++ chain_name c ∷ chain_type c)
  arguments (add_rule c r) =
      codes "add"
      ∷ codes "rule"
      ∷ (in_table ++ chain_name c ∷ (all_match_args r.matches ++ statement_args r.statement))
  arguments (add_set f a) =
      codes "add"
      ∷ codes "set"
      ∷ (in_table
          ++ set_name f a
            ∷ codes "{"
            ∷ codes "type"
            ∷ address_type f
            ∷ codes ";"
            ∷ codes "flags"
            ∷ codes "timeout"
            ∷ codes ";"
            ∷ codes "}"
            ∷ [])

-- ===== src/System/Calls.antt =====
-- crates/ssh-rocket-runtime/src/system.rs: what `setup`, `cleanup` and `clean_stale_resources` do to
-- the system, and the arguments of the programs they call.
use ssh_rocket.Base.{ℕ, List, [], ◌∷◌, ◌++◌}
use ssh_rocket.Config.{RuleAction}
use ssh_rocket.Text.{Text, codes}
use ssh_rocket.System.Apps.{Move}
use ssh_rocket.System.Nft.{Family, ip, ip6, NftCommand, Printing, arguments}

-- The priorities of the routing rules; each has one selector.
pub data Priority : Type 0 where
  dns_priority fake_priority mark_priority : Priority

pub data Route : Type 0 where
  default_route fake_route : Route

pub data Call (N : Type 0) : Type 0 where
  nft : NftCommand N → Call N
  rule_add rule_del : Family → Priority → Call N
  route_replace : Family → Route → Call N
  route_flush : Family → Call N
  dns_route_del link_up address_replace tuntap_add : Call N
  address_del : Text → Call N
  resolver_revert resolver_dns resolver_domain resolver_default_route : Call N

-- A call of a program, or a write under /sys/fs/cgroup, or a signal.
pub data Operation (N : Type 0) : Type 0 where
  call : Call N → Operation N
  create_group remove_group : RuleAction → Operation N
  move : Move → Operation N
  kill : ℕ → Operation N

abbrev version : Family → Text
version ip = codes "-4"
version ip6 = codes "-6"

abbrev priority_text : Priority → Text
priority_text dns_priority = codes "21328"
priority_text fake_priority = codes "21329"
priority_text mark_priority = codes "21330"

abbrev selector : Priority → List Text
selector dns_priority = codes "uidrange" ∷ codes "0-0" ∷ codes "to" ∷ codes "10.0.0.1/32" ∷ []
selector fake_priority = codes "to" ∷ codes "198.18.0.0/15" ∷ []
selector mark_priority = codes "fwmark" ∷ codes "0x5352" ∷ []

abbrev route_text : Route → Text
route_text default_route = codes "default"
route_text fake_route = codes "198.18.0.0/15"

abbrev tun_name : Text
tun_name = codes "sshrocket0"

abbrev table_text : Text
table_text = codes "21330"

module _ {N : Type 0} (print : Printing N) where
  -- The program and its arguments.
  unfoldable pub call_args : Call N → Text × List Text
  call_args (nft c) = (codes "nft", arguments print c)
  call_args (rule_add f p) = (
    codes "ip",
    version f
        ∷ codes "rule"
        ∷ codes "add"
        ∷ codes "priority"
        ∷ priority_text p
        ∷ (selector p ++ codes "lookup" ∷ table_text ∷ []),
  )
  call_args (rule_del f p) =
      (codes "ip", version f ∷ codes "rule" ∷ codes "del" ∷ codes "priority" ∷ priority_text p ∷ [])
  call_args (route_replace f r) = (
    codes "ip",
    version f
        ∷ codes "route"
        ∷ codes "replace"
        ∷ route_text r
        ∷ codes "dev"
        ∷ tun_name
        ∷ codes "table"
        ∷ table_text
        ∷ [],
  )
  call_args (route_flush f) =
      (codes "ip", version f ∷ codes "route" ∷ codes "flush" ∷ codes "table" ∷ table_text ∷ [])
  call_args dns_route_del = (
    codes "ip",
    codes "-4" ∷ codes "route" ∷ codes "del" ∷ codes "10.0.0.1/32" ∷ codes "dev" ∷ tun_name ∷ [],
  )
  call_args link_up =
      (codes "ip", codes "link" ∷ codes "set" ∷ codes "dev" ∷ tun_name ∷ codes "up" ∷ [])
  call_args address_replace = (
    codes "ip",
    codes "-4"
        ∷ codes "addr"
        ∷ codes "replace"
        ∷ codes "10.0.0.33/32"
        ∷ codes "dev"
        ∷ tun_name
        ∷ [],
  )
  call_args tuntap_add = (
    codes "ip",
    codes "tuntap"
        ∷ codes "add"
        ∷ codes "dev"
        ∷ tun_name
        ∷ codes "mode"
        ∷ codes "tun"
        ∷ codes "pi"
        ∷ [],
  )
  call_args (address_del a) =
      (codes "ip", codes "-4" ∷ codes "addr" ∷ codes "del" ∷ a ∷ codes "dev" ∷ tun_name ∷ [])
  call_args resolver_revert = (codes "resolvectl", codes "revert" ∷ tun_name ∷ [])
  call_args resolver_dns = (codes "resolvectl", codes "dns" ∷ tun_name ∷ codes "10.0.0.33" ∷ [])
  call_args resolver_domain = (codes "resolvectl", codes "domain" ∷ tun_name ∷ codes "~." ∷ [])
  call_args resolver_default_route =
      (codes "resolvectl", codes "default-route" ∷ tun_name ∷ codes "yes" ∷ [])

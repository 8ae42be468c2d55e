-- ===== src/Net/Blocks.antt =====
-- A concrete network type for the tests: an address with a prefix length. Only the literals of the
-- tests are read.
use ssh_rocket.Base.{
  ℕ, ◌+◌, ◌-◌, ◌*◌, ◌/◌, ◌^◌, Bool, true, false, ◌&&◌, Option, none, some, ◌≡◌, ◌↔◌, ◌==◌, leb,
  if◌then◌else◌, arith,
}
use ssh_rocket.Net.{IpAddr, v4, v6, IpNet}
use ssh_rocket.Net.Equality.{addr_eq, addr_eq_iff}
use ssh_rocket.Text.{Text, str_eq, codes}

pub record Block : Type 0 where
  pub address : IpAddr
  pub prefix : ℕ

abbrev value : ℕ → ℕ → ℕ → ℕ → ℕ
value a b c d = ((a * 256 + b) * 256 + c) * 256 + d

block_contains : Block → IpAddr → Bool
unfolding addr_eq
block_contains n ip = elim n.address [
  | v4 a b c d ↦ elim ip [
    | v4 x y z w ↦ value a b c d / 2 ^ (32 - n.prefix) == value x y z w / 2 ^ (32 - n.prefix)
    | v6 t ↦ false
  ]
  | v6 s ↦ addr_eq (v6 s) ip
]

pub block_eq : Block → Block → Bool
unfolding addr_eq
block_eq m n = addr_eq m.address n.address && m.prefix == n.prefix

pub block_eq_iff : (m n : Block) → (block_eq m n ≡ true) ↔ (m ≡ n)
unfolding block_eq
block_eq_iff m n = ground (arith, addr_eq_iff m.address n.address)

abbrev pub ten : Block
ten = record { address = v4 10 0 0 0; prefix = 8 }

block_from_str : Text → Option Block
unfolding str_eq
block_from_str s = if str_eq s (codes "10.0.0.0/8") then some ten else none

block_new : IpAddr → ℕ → Option Block
block_new (v4 a b c d) n =
    if leb n 32 then some (record { address = v4 a b c d; prefix = n }) else none
block_new (v6 t) n = if leb n 128 then some (record { address = v6 t; prefix = n }) else none

unfoldable pub blocks : IpNet Block
unfolding block_contains block_eq block_from_str block_new
blocks = record {
  contains = block_contains;
  net_eq = block_eq;
  net_eq_iff = block_eq_iff;
  from_str = block_from_str;
  new = block_new;
}

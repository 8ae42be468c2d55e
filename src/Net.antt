-- ===== src/Net.antt =====
-- `std::net::IpAddr`, and the interface of `ipnet::IpNet`, a crate that the program only calls.
pub mod Equality
pub mod Blocks
pub mod Parse
use ssh_rocket.Base.{ℕ, Bool, true, List, Option, ◌≡◌, ◌↔◌}
use ssh_rocket.Text.{Text}

-- The octets of an address, in network order.
pub data IpAddr : Type 0 where
  v4 : ℕ → ℕ → ℕ → ℕ → IpAddr
  v6 : List ℕ → IpAddr

-- What the program uses of a network type `N`: `contains`, the derived `==`, `from_str` and `new`.
pub record IpNet (N : Type 0) : Type 0 where
  pub contains : N → IpAddr → Bool
  pub net_eq : N → N → Bool
  pub net_eq_iff : (a b : N) → (net_eq a b ≡ true) ↔ (a ≡ b)
  pub from_str : Text → Option N
  pub new : IpAddr → ℕ → Option N

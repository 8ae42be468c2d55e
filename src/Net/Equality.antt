-- ===== src/Net/Equality.antt =====
-- The derived `==` of `std::net::IpAddr`.
use ssh_rocket.Base.{Bool, true, false, ◌&&◌, ◌≡◌, ◌↔◌, ◌==◌, arith}
use ssh_rocket.Net.{IpAddr, v4, v6}
use ssh_rocket.Text.{str_eq}
use ssh_rocket.Text.Laws.{str_eq_iff}

unfoldable pub addr_eq : IpAddr → IpAddr → Bool
unfolding str_eq
addr_eq (v4 a b c d) (v4 x y z w) = a == x && (b == y && (c == z && d == w))
addr_eq (v6 s) (v6 t) = str_eq s t
addr_eq _ _ = false

pub addr_eq_iff : (a b : IpAddr) → (addr_eq a b ≡ true) ↔ (a ≡ b)
unfolding addr_eq
addr_eq_iff (v4 a b c d) (v4 x y z w) = ground arith
addr_eq_iff (v6 s) (v6 t) = ground (arith, str_eq_iff s t)
addr_eq_iff (v4 a b c d) (v6 t) = ground arith
addr_eq_iff (v6 s) (v4 x y z w) = ground arith

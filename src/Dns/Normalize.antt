-- ===== src/Dns/Normalize.antt =====
-- `normalize_dns_response` never panics, keeps the length, and leaves bytes.
use Prim.Native.Nat.{bit_or}
use ssh_rocket.Base.{
  [], all, List, ℕ, zero, suc, ◌<◌, ◌≡◌, refl, Bool, true, false, ◌∷◌, ltb, length, arith,
  Bool-cases, inl, inr,
}
use ssh_rocket.Outcome.{Returns, index, store}
use ssh_rocket.Dns.{Packet, normalize_dns_response}
use ssh_rocket.Dns.Addresses.{is_byte, IsPacket}
use ssh_rocket.Dns.Responses.{Long, long, split_header}

-- The numbers below a bound, from the largest down.
down_from : ℕ → List ℕ
down_from zero = []
down_from (suc top) = top ∷ down_from top

all-down_from :
    (test : ℕ → Bool) (top b : ℕ) → b < top → all test (down_from top) ≡ true → test b ≡ true
unfolding down_from
all-down_from test zero b lt h = elim lt [ ]
all-down_from test (suc top) b lt h = ground (arith, all-down_from test top b)

all_marked : all (λ b. is_byte (bit_or b 0x80)) (down_from 256) ≡ true
unfolding down_from
all_marked = refl

marked_byte : (b : ℕ) → is_byte b ≡ true → is_byte (bit_or b 0x80) ≡ true
marked_byte b h = all-down_from (λ x. is_byte (bit_or x 0x80)) 256 b (ground arith) all_marked

normalize-Long :
    (p : Packet)
    → Long p
    → IsPacket p
    → Returns (λ r. IsPacket r × (length r ≡ length p)) (normalize_dns_response p)
unfolding normalize_dns_response index store
normalize-Long p (long a b c d e f g h i j k l rest) bytes =
    let n : ltb (length (a ∷ b ∷ c ∷ d ∷ e ∷ f ∷ g ∷ h ∷ i ∷ j ∷ k ∷ l ∷ rest)) 12 ≡ false =
      ground arith in
    rw n (ground (arith, marked_byte c, marked_byte d), refl)

pub normalize-Returns :
    (p : Packet)
    → IsPacket p
    → Returns (λ r. IsPacket r × (length r ≡ length p)) (normalize_dns_response p)
normalize-Returns p bytes = elim (Bool-cases (ltb (length p) 12)) [
  | inl short ↦ unfold normalize_dns_response in rw short (bytes, refl)
  | inr e ↦ normalize-Long p (split_header p (ground arith)) bytes
]

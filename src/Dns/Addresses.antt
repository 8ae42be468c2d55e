-- ===== src/Dns/Addresses.antt =====
-- The addresses of a response: no packet makes the reader panic, every address is well formed, and
-- there are at most as many as the header announces.
use ssh_rocket.Base.{
  ℕ, zero, suc, ◌+◌, ◌-◌, ◌*◌, ◌≤◌, ◌<◌, ◌≡◌, refl, Bool, true, not, ◌&&◌, List, [], ◌∷◌, ◌++◌,
  Option, none, some, ltb, ◌==◌, length, get_or, get_elem?, take, drop, all, arith, length-append,
  length-take,
}
use ssh_rocket.Outcome.{
  let_else-Ensures, Outcome, returned, panicked, ◌>>=◌, Ensures, bind-Ensures, index,
  slice_in_bounds,
}
use ssh_rocket.Dns.{
  Packet, be16, skip_dns_name, skip_questions_saturating, read_address, read_answers,
  parse_dns_addresses,
}
use ssh_rocket.Dns.Safety.{
  branch-Ensures, be16-Ensures, skip_dns_name-Ensures, skip_questions_saturating-Ensures,
}
use ssh_rocket.Net.{IpAddr, v4, v6}

abbrev pub is_byte : ℕ → Bool
is_byte b = ltb b 256

-- A packet holds bytes.
abbrev pub IsPacket : Packet → Type 0
IsPacket p = all is_byte p ≡ true

-- An address has 4 or 16 octets.
abbrev pub IsAddress : IpAddr → Type 0
IsAddress (v4 a b c d) = (a < 256) × (b < 256) × (c < 256) × (d < 256)
IsAddress (v6 octets) = (length octets ≡ 16) × (all is_byte octets ≡ true)

abbrev pub AllAddresses : List IpAddr → Type 0
AllAddresses [] = Unit
AllAddresses (a ∷ xs) = IsAddress a × AllAddresses xs

AllAddresses-append :
    (xs ys : List IpAddr) → AllAddresses xs → AllAddresses ys → AllAddresses (xs ++ ys)
AllAddresses-append [] ys h k = k
AllAddresses-append (x ∷ xs) ys h k = (h.0, AllAddresses-append xs ys h.1 k)

get_byte : (p : Packet) (i : ℕ) (b : ℕ) → IsPacket p → get_elem? p i ≡ some b → b < 256
get_byte [] i b h e = cc
get_byte (x ∷ p) zero b h e = ground arith
get_byte (x ∷ p) (suc i) b h e = get_byte p i b (ground arith) e

all-take : (n : ℕ) (p : Packet) → IsPacket p → IsPacket (take n p)
all-take zero p h = refl
all-take (suc n) [] h = refl
all-take (suc n) (x ∷ p) h = ground (arith, all-take n p)

all-drop : (n : ℕ) (p : Packet) → IsPacket p → IsPacket (drop n p)
all-drop zero p h = h
all-drop (suc n) [] h = refl
all-drop (suc n) (x ∷ p) h = all-drop n p (ground arith)

length-drop : (n : ℕ) (p : Packet) → length (drop n p) ≡ length p - n
length-drop zero p = omega arith
length-drop (suc n) [] = omega arith
length-drop (suc n) (x ∷ p) = omega (arith, length-drop n p)

get_some : (p : Packet) (i : ℕ) → i < length p → get_elem? p i ≡ none → ⊥
get_some [] i h e = elim h [ ]
get_some (x ∷ p) zero h e = cc
get_some (x ∷ p) (suc i) h e = get_some p i (omega arith) e

index_byte :
    {B : Type 0} (Q : B → Type 0) (p : Packet) (i : ℕ) (f : ℕ → Outcome B)
    → IsPacket p
    → i < length p
    → ((b : ℕ) → b < 256 → Ensures Q (f b))
    → Ensures Q (index p i >>= f)
unfolding index
index_byte Q p i f bytes h k = at (get_elem? p i) refl
  where
    at :
        (o : Option ℕ)
        → get_elem? p i ≡ o
        → Ensures Q (elim (get_elem? p i) [ none ↦ panicked | some x ↦ returned x ] >>= f)
    at none e = absurd (get_some p i h e)
    at (some b) e = rw e (k b (get_byte p i b bytes e))

abbrev IsOne : List IpAddr → Type 0
IsOne found = AllAddresses found × (length found ≤ 1)

-- A slice of 16 bytes has 16 bytes.
six :
    (offset : ℕ) (p : Packet)
    → offset + 16 ≤ length p
    → length (take (offset + 16 - offset) (drop offset p)) ≡ 16
six offset p h =
    omega (arith, length-take (offset + 16 - offset) (drop offset p), length-drop offset p)

read_address-Ensures :
    (p : Packet) (offset class kind size : ℕ)
    → IsPacket p
    → offset + size ≤ length p
    → Ensures IsOne (read_address p offset class kind size)
unfolding read_address
read_address-Ensures p offset class kind size bytes h =
    branch-Ensures IsOne (not (class == 1)) _ _ (λ _. omega arith)
      λ _.
        branch-Ensures IsOne (kind == 1 && size == 4) _ _
          (λ e. index_byte IsOne p offset _ bytes (ground arith) λ a ha.
            index_byte IsOne p (offset + 1) _ bytes (ground arith) λ b hb.
              index_byte IsOne p (offset + 2) _ bytes (ground arith)
                λ c hc. index_byte IsOne p (offset + 3) _ bytes (ground arith) λ d hd. omega arith)
          λ _.
            branch-Ensures IsOne (kind == 28 && size == 16) _ _
              (λ e. rw (slice_in_bounds p offset (offset + 16) (omega arith) (ground arith)) (
                (
                  (
                    six offset p (ground arith),
                    all-take (offset + 16 - offset) (drop offset p) (all-drop offset p bytes),
                  ),
                  tt,
                ),
                omega arith,
              ))
              λ _. omega arith

abbrev Found : ℕ → List IpAddr → Type 0
Found n found = AllAddresses found × (length found ≤ n)

more-Found :
    (m n : ℕ) (found here : List IpAddr)
    → Found m found
    → IsOne here
    → Found (m + 1) (found ++ here)
more-Found m n found here h k =
    (AllAddresses-append found here h.0 k.0, omega (arith, length-append found here))

read_answers-Ensures :
    (n : ℕ) (p : Packet) (offset m k : ℕ) (found : List IpAddr)
    → IsPacket p
    → Found m found
    → m + n ≤ k
    → Ensures (Found k) (read_answers n p offset found)
unfolding read_answers
read_answers-Ensures zero p offset m k found bytes h le = (h.0, omega arith)
read_answers-Ensures (suc n) p offset m k found bytes h le =
    let_else-Ensures _ (Found k) (skip_dns_name p offset) _ _ (skip_dns_name-Ensures p offset)
      (h.0, omega arith)
      λ start g.
        branch-Ensures (Found k) (ltb (length p) (start + 10)) _ _ (λ _. (h.0, omega arith))
          λ fits. be16-Ensures (Found k) p start _ (ground arith) λ kind.
            be16-Ensures (Found k) p (start + 2) _ (ground arith) λ class.
              be16-Ensures (Found k) p (start + 8) _ (ground arith) λ size.
                branch-Ensures (Found k) (ltb (length p) (start + 10 + size)) _ _
                  (λ _. (h.0, omega arith))
                  λ inside.
                    bind-Ensures IsOne (Found k) (read_address p (start + 10) class kind size) _
                      (read_address-Ensures p (start + 10) class kind size bytes (ground arith))
                      λ here one.
                        read_answers-Ensures n p (start + 10 + size) (m + 1) k (found ++ here) bytes
                          (more-Found m n found here h one) (omega arith)

abbrev pub answer_count : Packet → ℕ
answer_count p = get_or p 6 0 * 256 + get_or p 7 0

get_or_index : (p : Packet) (i : ℕ) → i < length p → index p i ≡ returned (get_or p i 0)
unfolding index
get_or_index [] i h = elim h [ ]
get_or_index (x ∷ p) zero h = refl
get_or_index (x ∷ p) (suc i) h = get_or_index p i (omega arith)

be16_count : (p : Packet) → 12 ≤ length p → be16 p 6 ≡ returned (answer_count p)
unfolding be16
be16_count p h =
    let a = get_or_index p 6 (omega arith) in
    let b = get_or_index p 7 (omega arith) in rw a (rw b refl)

-- For any packet of bytes, reading the addresses does not panic and does not run out of fuel; each
-- address has 4 or 16 octets, all of them bytes, and there are at most as many addresses as the
-- answer count of the header.
pub parse_dns_addresses-Ensures :
    (p : Packet)
    → IsPacket p
    → Ensures (λ xs. AllAddresses xs × (length xs ≤ answer_count p)) (parse_dns_addresses p)
unfolding parse_dns_addresses
parse_dns_addresses-Ensures p bytes =
    branch-Ensures (Found (answer_count p)) (ltb (length p) 12) _ _ (λ _. omega arith)
      λ long. be16-Ensures (Found (answer_count p)) p 4 _ (ground arith) λ questions.
        rw (be16_count p (ground arith)) (
          let_else-Ensures _ (Found (answer_count p)) (skip_questions_saturating questions p 12) _ _
            (skip_questions_saturating-Ensures questions p 12 (ground arith)) (omega arith)
            λ offset inside.
              read_answers-Ensures (answer_count p) p offset 0 (answer_count p) [] bytes
                (omega arith) (omega arith))

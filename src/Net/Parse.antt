-- ===== src/Net/Parse.antt =====
-- `IpAddr::from_str` and `u8::from_str` of the standard library.
use ssh_rocket.Base.{
  ℕ, ◌+◌, ◌-◌, ◌*◌, ◌/◌, ◌%◌, Bool, true, false, not, ◌&&◌, List, [], ◌∷◌, ◌++◌, Option, none, some,
  ltb, leb, ◌==◌, if◌then◌else◌, length, all, null, replicate,
}
use ssh_rocket.Net.{IpAddr, v4, v6}
use ssh_rocket.Text.{Text, split, is_char}

abbrev is_digit : ℕ → Bool
is_digit c = leb b'0' c && leb c b'9'

-- The value of a digit in base 16; 16 for any other character.
hex_value : ℕ → ℕ
hex_value c =
    if is_digit c
    then c - b'0'
    else if leb b'a' c && leb c b'f'
    then c - b'a' + 10
    else if leb b'A' c && leb c b'F'
    then c - b'A' + 10
    else 16

number : ℕ → ℕ → Text → ℕ
unfolding hex_value
number base acc [] = acc
number base acc (c ∷ s) = number base (acc * base + hex_value c) s

abbrev in_base : ℕ → Text → Bool
in_base base s = not (null s) && all (λ c. ltb (hex_value c) base) s

abbrev leads_zero : Text → Bool
leads_zero (c ∷ d ∷ s) = c == b'0'
leads_zero s = false

-- At most three digits, with no leading zero, and a value of at most 255.
octet : Text → Option ℕ
unfolding number
octet s =
    if in_base 10 s && (leb (length s) 3 && (not (leads_zero s) && leb (number 10 0 s) 255))
    then some (number 10 0 s)
    else none

abbrev four : Option ℕ → Option ℕ → Option ℕ → Option ℕ → Option IpAddr
four (some a) (some b) (some c) (some d) = some (v4 a b c d)
four _ _ _ _ = none

ipv4_parts : List Text → Option IpAddr
unfolding octet
ipv4_parts (a ∷ b ∷ c ∷ d ∷ []) = four (octet a) (octet b) (octet c) (octet d)
ipv4_parts _ = none

ipv4 : Text → Option IpAddr
unfolding ipv4_parts split
ipv4 s = ipv4_parts (split (is_char b'.') s)

-- One group of an IPv6 address: at most four hexadecimal digits.
group : Text → Option (List ℕ)
unfolding number
group s =
    if in_base 16 s && leb (length s) 4
    then some (number 16 0 s / 256 ∷ number 16 0 s % 256 ∷ [])
    else none

abbrev joined : Option (List ℕ) → Option (List ℕ) → Option (List ℕ)
joined (some a) (some b) = some (a ++ b)
joined _ _ = none

-- The last group may be an IPv4 address.
last_group : Text → Option (List ℕ)
unfolding ipv4 group
last_group s = elim (ipv4 s) [
  | some (v4 a b c d) ↦ some (a ∷ b ∷ c ∷ d ∷ [])
  | some (v6 octets) ↦ none
  | none ↦ group s
]

-- The octets of some groups; the flag says whether an IPv4 address may end them.
groups : Bool → List Text → Option (List ℕ)
unfolding last_group group
groups tail [] = some []
groups tail (w ∷ []) = if tail then last_group w else group w
groups tail (w ∷ v ∷ ws) = joined (group w) (groups tail (v ∷ ws))

groups_of : Bool → Text → Option (List ℕ)
unfolding groups split
groups_of tail [] = some []
groups_of tail (c ∷ s) = groups tail (split (is_char b':') (c ∷ s))

abbrev push_head : ℕ → Option (Text × Text) → Option (Text × Text)
push_head c none = none
push_head c (some (h, t)) = some (c ∷ h, t)

-- The text before and behind the first `::`.
split_gap : Text → Option (Text × Text)
split_gap [] = none
split_gap (c ∷ []) = none
split_gap (c ∷ d ∷ s) =
    if c == b':' && d == b':' then some ([], s) else push_head c (split_gap (d ∷ s))

-- A gap stands for one group of zeros or more.
fill_gap : Option (List ℕ) → Option (List ℕ) → Option IpAddr
fill_gap (some h) (some t) =
    if leb (length h + length t) 14
    then some (v6 (h ++ (replicate (16 - (length h + length t)) 0 ++ t)))
    else none
fill_gap _ _ = none

whole : Option (List ℕ) → Option IpAddr
whole (some octets) = if length octets == 16 then some (v6 octets) else none
whole none = none

ipv6 : Text → Option IpAddr
unfolding groups_of split_gap fill_gap whole
ipv6 s = elim (split_gap s) [
  | some (h, t) ↦ fill_gap (groups_of false h) (groups_of true t)
  | none ↦ whole (groups_of true s)
]

-- `IpAddr::from_str`
unfoldable pub parse_addr : Text → Option IpAddr
unfolding ipv4 ipv6
parse_addr s = elim (ipv4 s) [ some a ↦ some a | none ↦ ipv6 s ]

abbrev strip_plus : Text → Text
strip_plus [] = []
strip_plus (c ∷ s) = if c == b'+' then s else c ∷ s

-- An unsigned integer in a base with a largest value: digits behind an optional plus sign.
unfoldable pub parse_radix : ℕ → ℕ → Text → Option ℕ
unfolding number hex_value
parse_radix base max s =
    if in_base base (strip_plus s) && leb (number base 0 (strip_plus s)) max
    then some (number base 0 (strip_plus s))
    else none

-- `from_str` of an unsigned integer
abbrev pub parse_below : ℕ → Text → Option ℕ
parse_below max s = parse_radix 10 max s

-- `from_str_radix` with base 16
abbrev pub parse_hex : ℕ → Text → Option ℕ
parse_hex max s = parse_radix 16 max s

-- `u8::from_str`
abbrev pub parse_u8 : Text → Option ℕ
parse_u8 s = parse_below 255 s

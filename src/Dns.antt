-- ===== src/Dns.antt =====
-- crates/ssh-rocket-runtime/src/dns_router.rs: reading and answering DNS packets. A packet is a list
-- of bytes. An access out of bounds is a panic, and a loop over the packet has fuel. Offsets stay
-- below the packet's length plus 260, so that `usize` additions do not overflow; where the source
-- checks them all the same, the check is here too.
pub mod Safety
pub mod Addresses
pub mod Responses
pub mod Normalize
pub mod Returned
pub mod Labels
pub mod Reply
pub mod Question
pub mod Examples
use Prim.Native.Nat.{bit_and, bit_or}
use ssh_rocket.Base.{
  null, ℕ, zero, suc, ◌+◌, ◌*◌, Bool, true, false, not, ◌&&◌, ◌||◌, List, [], ◌∷◌, ◌++◌, ltb, leb,
  ◌==◌, if◌then◌else◌, length, get_elem?, min, usize_max,
}
use ssh_rocket.Outcome.{
  let_else, Outcome, returned, absent, panicked, exhausted, ◌>>=◌, try, index, slice, store,
}
use ssh_rocket.Net.{IpAddr, v4, v6}
use ssh_rocket.Text.{Text, join}
use ssh_rocket.Utf8.{from_utf8}

abbrev pub Packet : Type 0
Packet = List ℕ

-- `u16::from_be_bytes([packet[i], packet[i + 1]])`
unfoldable pub be16 : Packet → ℕ → Outcome ℕ
be16 p i = do hi ← index p i; lo ← index p (i + 1); returned (hi * 256 + lo)

-- The `while` loop of `parse_dns_query`: the labels up to the zero byte, and the offset behind it.
unfoldable pub read_labels : ℕ → Packet → ℕ → List Text → Outcome (ℕ × List Text)
read_labels zero p offset labels = exhausted
read_labels (suc fuel) p offset labels =
    let next = λ (n : ℕ).
      let rest = (do
        word ← slice p (offset + 1) (offset + 1 + n)
        label ← try (from_utf8 word)
        read_labels fuel p (offset + 1 + n) (labels ++ label ∷ [])) in
      if n == 0
      then returned (offset + 1, labels)
      else if not (bit_and n 0xc0 == 0) || ltb (length p) (offset + 1 + n)
      then absent
      else rest in
    if ltb offset (length p) then index p offset >>= next else returned (offset, labels)

unfoldable pub parse_dns_query : Packet → Outcome (Text × ℕ)
unfolding read_labels join
parse_dns_query p =
    let query = (do
      (offset, labels) ← read_labels (suc (length p)) p 12 []
      let kind = (do qtype ← be16 p offset; returned (join (b'.' ∷ []) labels, qtype))
      if null labels || ltb (length p) (offset + 4) then absent else kind) in
    let counted = (do questions ← be16 p 4; if questions == 0 then absent else query) in
    if ltb (length p) 12 then absent else counted

-- `usize::checked_add`
abbrev pub checked_add : ℕ → ℕ → Outcome ℕ
checked_add a b = if leb (a + b) usize_max then returned (a + b) else absent

unfoldable pub skip_dns_name_from : ℕ → Packet → ℕ → Outcome ℕ
skip_dns_name_from zero p offset = exhausted
skip_dns_name_from (suc fuel) p offset = do
  n ← try (get_elem? p offset)
  let pointer = (do b ← try (get_elem? p (offset + 1)); returned (offset + 1 + 1))
  let label = (do
    next ← checked_add (offset + 1) n
    let rest = skip_dns_name_from fuel p next
    if ltb (length p) next then absent else rest)
  if n == 0 then returned (offset + 1) else if bit_and n 0xc0 == 0xc0 then pointer else label

unfoldable pub skip_dns_name : Packet → ℕ → Outcome ℕ
unfolding skip_dns_name_from
skip_dns_name p offset = skip_dns_name_from (suc (length p)) p offset

-- The `for _ in 0..questions` loop of `dns_question_end`.
unfoldable pub skip_questions : ℕ → Packet → ℕ → Outcome ℕ
skip_questions zero p offset = returned offset
skip_questions (suc n) p offset = do
  name_end ← skip_dns_name p offset
  next ← checked_add name_end 4
  let rest = skip_questions n p next
  if ltb (length p) next then absent else rest

unfoldable pub dns_question_end : Packet → Outcome ℕ
unfolding skip_questions
dns_question_end p =
    let counted = (do questions ← be16 p 4; skip_questions questions p 12) in
    if ltb (length p) 12 then absent else counted

-- `response[6..12].fill(0)`
pub fill_zero : ℕ → ℕ → Packet → Outcome Packet
fill_zero zero i r = returned r
fill_zero (suc n) i r = do s ← store r i 0; fill_zero n (i + 1) s

pub respond : Packet → ℕ → ℕ → Outcome Packet
unfolding fill_zero
respond p code question_end = do
  response ← slice p 0 question_end
  flags ← index p 2
  response ← store response 2 (bit_or 0x80 (bit_and flags 0x79))
  response ← store response 3 (bit_or 0x80 (bit_and code 0x0f))
  fill_zero 6 6 response

unfoldable pub empty_dns_response : Packet → ℕ → Outcome Packet
unfolding dns_question_end respond
empty_dns_response p code =
    let_else (dns_question_end p) (returned []) (λ question_end. respond p code question_end)

abbrev pub nodata_response : Packet → Outcome Packet
nodata_response p = empty_dns_response p 0

abbrev pub servfail_response : Packet → Outcome Packet
servfail_response p = empty_dns_response p 2

abbrev pub nxdomain_response : Packet → Outcome Packet
nxdomain_response p = empty_dns_response p 3

unfoldable pub normalize_dns_response : Packet → Outcome Packet
normalize_dns_response r =
    let marked = (do
      a ← index r 2
      s ← store r 2 (bit_or a 0x80)
      b ← index s 3
      store s 3 (bit_or b 0x80)) in
    if ltb (length r) 12 then returned r else marked

-- The first loop of `parse_dns_addresses`; `saturating_add` stops at `usize::MAX`.
pub skip_questions_saturating : ℕ → Packet → ℕ → Outcome ℕ
skip_questions_saturating zero p offset = returned offset
skip_questions_saturating (suc n) p offset = do
  name_end ← skip_dns_name p offset
  let next = min (name_end + 4) usize_max
  let rest = skip_questions_saturating n p next
  if ltb (length p) next then absent else rest

-- The `match (record_type, data_length)` under `if record_class == 1`.
pub read_address : Packet → ℕ → ℕ → ℕ → ℕ → Outcome (List IpAddr)
read_address p offset class kind size =
    let four = (do
      a ← index p offset
      b ← index p (offset + 1)
      c ← index p (offset + 2)
      d ← index p (offset + 3)
      returned (v4 a b c d ∷ [])) in
    let sixteen = (do octets ← slice p offset (offset + 16); returned (v6 octets ∷ [])) in
    if not (class == 1)
    then returned []
    else if kind == 1 && size == 4
    then four
    else if kind == 28 && size == 16
    then sixteen
    else returned []

-- The loop over the answers; `break` returns what was found.
unfoldable pub read_answers : ℕ → Packet → ℕ → List IpAddr → Outcome (List IpAddr)
unfolding read_address
read_answers zero p offset found = returned found
read_answers (suc n) p offset found = let_else (skip_dns_name p offset) (returned found) λ start.
    let fields = (do
      kind ← be16 p start
      class ← be16 p (start + 2)
      size ← be16 p (start + 8)
      let read = (do
        here ← read_address p (start + 10) class kind size
        read_answers n p (start + 10 + size) (found ++ here))
      if ltb (length p) (start + 10 + size) then returned found else read) in
    if ltb (length p) (start + 10) then returned found else fields

-- A name that cannot be skipped in the questions gives no addresses.
unfoldable pub parse_dns_addresses : Packet → Outcome (List IpAddr)
unfolding skip_questions_saturating read_answers
parse_dns_addresses p =
    let counted = (do
      questions ← be16 p 4
      answers ← be16 p 6
      let_else (skip_questions_saturating questions p 12) (returned [])
          λ offset. read_answers answers p offset []) in
    if ltb (length p) 12 then returned [] else counted

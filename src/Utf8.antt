-- ===== src/Utf8.antt =====
-- `std::str::from_utf8`: the decoder of well-formed UTF-8.
use ssh_rocket.Base.{
  ℕ, ◌+◌, ◌-◌, ◌*◌, ◌&&◌, ◌||◌, List, [], ◌∷◌, Option, none, some, ltb, leb, ◌==◌, if◌then◌else◌,
}
use ssh_rocket.Text.{Text}

-- The bytes that a character still wants, its value so far, and the range of the next byte.
record Pending : Type 0 where
  left : ℕ
  value : ℕ
  low : ℕ
  high : ℕ

abbrev clear : Pending
clear = record { left = 0; value = 0; low = 0; high = 0 }

-- The first byte of a character of several bytes; `none` if there is no such first byte.
lead : ℕ → Option Pending
lead b =
    if leb 0xC2 b && leb b 0xDF
    then some (record { left = 1; value = b - 0xC0; low = 0x80; high = 0xBF })
    else if leb 0xE0 b && leb b 0xEF
    then some (record {
      left = 2;
      value = b - 0xE0;
      low = if b == 0xE0 then 0xA0 else 0x80;
      high = if b == 0xED then 0x9F else 0xBF;
    })
    else if leb 0xF0 b && leb b 0xF4
    then some (record {
      left = 3;
      value = b - 0xF0;
      low = if b == 0xF0 then 0x90 else 0x80;
      high = if b == 0xF4 then 0x8F else 0xBF;
    })
    else none

abbrev cons_text : ℕ → Option Text → Option Text
cons_text c none = none
cons_text c (some s) = some (c ∷ s)

decode : Pending → List ℕ → Option Text
unfolding lead
decode q [] = if q.left == 0 then some [] else none
decode q (b ∷ bs) =
    let value = q.value * 64 + (b - 0x80) in
    let first : Option Text = elim (lead b) [ none ↦ none | some r ↦ decode r bs ] in
    let plain = cons_text b (decode clear bs) in
    let last = cons_text value (decode clear bs) in
    let more = decode (record { left = q.left - 1; value = value; low = 0x80; high = 0xBF }) bs in
    if q.left == 0
    then (if ltb b 0x80 then plain else first)
    else if ltb b q.low || ltb q.high b
    then none
    else if q.left == 1
    then last
    else more

unfoldable pub from_utf8 : List ℕ → Option Text
unfolding decode
from_utf8 bytes = decode clear bytes

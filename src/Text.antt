-- ===== src/Text.antt =====
-- The operations of Rust's `str` that the program uses, over lists of Unicode code points. Every
-- slice in the program is cut at an ASCII character, so positions in code points serve as well as
-- positions in bytes.
pub mod Laws
pub mod Affixes
pub mod Trims
use Prim.Native.Char.{code}
use Prim.Native.String.{String}
use ssh_rocket.Base.{
  ℕ, suc, ◌+◌, ◌-◌, Bool, true, false, not, ◌&&◌, ◌||◌, List, [], ◌∷◌, ◌++◌, map, Option, none,
  some, ltb, leb, ◌==◌, if◌then◌else◌,
}
use mathlib.Core.List.{reverse}

abbrev pub Text : Type 0
Text = List ℕ

-- A literal of the source.
abbrev pub codes : String → Text
codes String.[] = []
codes (String.◌∷◌ c s) = code c ∷ codes s

-- `==` on strings
unfoldable pub str_eq : Text → Text → Bool
str_eq [] [] = true
str_eq (x ∷ xs) (y ∷ ys) = (x == y) && str_eq xs ys
str_eq _ _ = false

abbrev pub is_empty : Text → Bool
is_empty [] = true
is_empty (c ∷ s) = false

-- `str::len`: the bytes of the UTF-8 encoding
unfoldable pub utf8_len : Text → ℕ
utf8_len [] = 0
utf8_len (c ∷ s) =
    (if ltb c 0x80 then 1 else if ltb c 0x800 then 2 else if ltb c 0x10000 then 3 else 4)
    + utf8_len s

-- `u8::to_ascii_lowercase`, `u8::to_ascii_uppercase` and their liftings to strings
unfoldable pub lower : ℕ → ℕ
lower c = if leb b'A' c && leb c b'Z' then c + 32 else c

unfoldable pub upper : ℕ → ℕ
upper c = if leb b'a' c && leb c b'z' then c - 32 else c

unfoldable pub to_ascii_lowercase : Text → Text
unfolding lower
to_ascii_lowercase [] = []
to_ascii_lowercase (c ∷ s) = lower c ∷ to_ascii_lowercase s

unfoldable pub to_ascii_uppercase : Text → Text
unfolding upper
to_ascii_uppercase [] = []
to_ascii_uppercase (c ∷ s) = upper c ∷ to_ascii_uppercase s

-- `char::is_whitespace`: the code points with the property White_Space
unfoldable pub is_whitespace : ℕ → Bool
is_whitespace c =
    (leb 9 c && leb c 13)
    || c == 32
    || c == 0x85
    || c == 0xA0
    || c == 0x1680
    || (leb 0x2000 c && leb c 0x200A)
    || c == 0x2028
    || c == 0x2029
    || c == 0x202F
    || c == 0x205F
    || c == 0x3000

-- `trim_start_matches` and `trim_end_matches` by a test on one character
unfoldable pub trim_start_matches : (ℕ → Bool) → Text → Text
trim_start_matches p [] = []
trim_start_matches p (c ∷ s) = let rest = trim_start_matches p s in if p c then rest else c ∷ s

keep_unless_empty : (ℕ → Bool) → ℕ → Text → Text
keep_unless_empty p c [] = if p c then [] else c ∷ []
keep_unless_empty p c (d ∷ s) = c ∷ d ∷ s

unfoldable pub trim_end_matches : (ℕ → Bool) → Text → Text
unfolding keep_unless_empty
trim_end_matches p [] = []
trim_end_matches p (c ∷ s) = keep_unless_empty p c (trim_end_matches p s)

unfoldable pub trim : Text → Text
unfolding trim_start_matches trim_end_matches is_whitespace
trim s = trim_end_matches is_whitespace (trim_start_matches is_whitespace s)

abbrev pub is_char : ℕ → ℕ → Bool
is_char x c = c == x

-- `strip_prefix` and `starts_with`
unfoldable pub strip_prefix : Text → Text → Option Text
strip_prefix s [] = some s
strip_prefix [] (x ∷ p) = none
strip_prefix (c ∷ s) (x ∷ p) = if c == x then strip_prefix s p else none

unfoldable pub starts_with : Text → Text → Bool
starts_with s [] = true
starts_with [] (x ∷ p) = false
starts_with (c ∷ s) (x ∷ p) = (c == x) && starts_with s p

-- `ends_with`: some suffix of the text is the pattern
unfoldable pub ends_with : Text → Text → Bool
unfolding str_eq
ends_with [] p = str_eq [] p
ends_with (c ∷ s) p = str_eq (c ∷ s) p || ends_with s p

-- `str::contains` with a string
unfoldable pub contains : Text → Text → Bool
unfolding starts_with
contains [] p = starts_with [] p
contains (c ∷ s) p = starts_with (c ∷ s) p || contains s p

-- `str::split` at every character that passes the test; there is always at least one part
abbrev cons_first : ℕ → List Text → List Text
cons_first c [] = (c ∷ []) ∷ []
cons_first c (w ∷ ws) = (c ∷ w) ∷ ws

unfoldable pub split : (ℕ → Bool) → Text → List Text
split p [] = [] ∷ []
split p (c ∷ s) = if p c then [] ∷ split p s else cons_first c (split p s)

-- `str::split_once` at a character
unfoldable pub split_once : ℕ → Text → Option (Text × Text)
split_once x [] = none
split_once x (c ∷ s) =
    if c == x
    then some ([], s)
    else elim (split_once x s) [ none ↦ none | some (a, b) ↦ some (c ∷ a, b) ]

-- `[String]::join`
unfoldable pub join : Text → List Text → Text
join sep [] = []
join sep (w ∷ []) = w
join sep (w ∷ v ∷ ws) = w ++ (sep ++ join sep (v ∷ ws))

drop_last_empty : List Text → List Text
drop_last_empty [] = []
drop_last_empty (w ∷ []) = if is_empty w then [] else w ∷ []
drop_last_empty (w ∷ v ∷ ws) = w ∷ drop_last_empty (v ∷ ws)

strip_return : Text → Text
strip_return [] = []
strip_return (c ∷ []) = if c == b'\r' then [] else c ∷ []
strip_return (c ∷ d ∷ s) = c ∷ strip_return (d ∷ s)

-- `str::lines`
unfoldable pub lines : Text → List Text
unfolding split drop_last_empty strip_return
lines s = map strip_return (drop_last_empty (split (is_char b'\n') s))

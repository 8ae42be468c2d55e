-- ===== src/Text/Trims.antt =====
-- Trimming: what is left does not begin, or end, with a character that was trimmed.
use ssh_rocket.Base.{
  ℕ, zero, suc, ◌+◌, ◌≡◌, refl, ap, ◌∙◌, Bool, true, false, not, ◌&&◌, ◌||◌, [], ◌∷◌, ◌++◌, arith,
  leb, ◌==◌,
}
use ssh_rocket.Text.{
  Text, lower, to_ascii_lowercase, trim_start_matches, trim_end_matches, keep_unless_empty, is_char,
}

-- The last character, if there is one, fails the test.
abbrev pub ends_clear : (ℕ → Bool) → Text → Bool
ends_clear p [] = true
ends_clear p (c ∷ []) = not (p c)
ends_clear p (c ∷ d ∷ s) = ends_clear p (d ∷ s)

abbrev pub starts_clear : (ℕ → Bool) → Text → Bool
starts_clear p [] = true
starts_clear p (c ∷ s) = not (p c)

keep-ends_clear :
    (p : ℕ → Bool) (c : ℕ) (s : Text)
    → ends_clear p s ≡ true
    → ends_clear p (keep_unless_empty p c s) ≡ true
unfolding keep_unless_empty
keep-ends_clear p c [] h = ground arith
keep-ends_clear p c (d ∷ s) h = h

pub trim_end_matches-ends_clear :
    (p : ℕ → Bool) (s : Text) → ends_clear p (trim_end_matches p s) ≡ true
unfolding trim_end_matches
trim_end_matches-ends_clear p [] = refl
trim_end_matches-ends_clear p (c ∷ s) =
    keep-ends_clear p c (trim_end_matches p s) (trim_end_matches-ends_clear p s)

pub trim_start_matches-starts_clear :
    (p : ℕ → Bool) (s : Text) → starts_clear p (trim_start_matches p s) ≡ true
unfolding trim_start_matches
trim_start_matches-starts_clear p [] = refl
trim_start_matches-starts_clear p (c ∷ s) = ground (arith, trim_start_matches-starts_clear p s)

lower_dot : (c : ℕ) → is_char b'.' (lower c) ≡ is_char b'.' c
unfolding lower
lower_dot c = ground arith

pub ends_clear-lowercase :
    (s : Text)
    → ends_clear (is_char b'.') s ≡ true
    → ends_clear (is_char b'.') (to_ascii_lowercase s) ≡ true
unfolding to_ascii_lowercase
ends_clear-lowercase [] h = refl
ends_clear-lowercase (c ∷ []) h = rw (lower_dot c) h
ends_clear-lowercase (c ∷ d ∷ s) h = ends_clear-lowercase (d ∷ s) h

-- The same letter, in any of the two cases, or the same character.
abbrev same_letter : ℕ → ℕ → Bool
same_letter c d =
    c == d
    || ((leb b'A' c && (leb c b'Z' && d == c + 32)) || (leb b'A' d && (leb d b'Z' && c == d + 32)))

-- The texts differ at most in the case of ASCII letters.
abbrev pub same_case : Text → Text → Bool
same_case [] [] = true
same_case (c ∷ s) (d ∷ t) = same_letter c d && same_case s t
same_case _ _ = false

lower_same : (c d : ℕ) → same_letter c d ≡ true → lower c ≡ lower d
unfolding lower
lower_same c d h = ground arith

pub to_ascii_lowercase_same :
    (s t : Text) → same_case s t ≡ true → to_ascii_lowercase s ≡ to_ascii_lowercase t
unfolding to_ascii_lowercase
to_ascii_lowercase_same [] [] h = refl
to_ascii_lowercase_same (c ∷ s) (d ∷ t) h =
    cc (lower_same c d (ground arith), to_ascii_lowercase_same s t (ground arith))
to_ascii_lowercase_same [] (d ∷ t) h = ground arith
to_ascii_lowercase_same (c ∷ s) [] h = ground arith

keep_lower :
    (c : ℕ) (s : Text)
    → to_ascii_lowercase (keep_unless_empty (is_char b'.') c s)
      ≡ keep_unless_empty (is_char b'.') (lower c) (to_ascii_lowercase s)
unfolding keep_unless_empty to_ascii_lowercase
keep_lower c [] = rw (lower_dot c) (ground arith)
keep_lower c (d ∷ s) = refl

-- Dots are trimmed before or behind the change to lower case.
pub to_ascii_lowercase-trim_end_matches :
    (s : Text)
    → to_ascii_lowercase (trim_end_matches (is_char b'.') s)
      ≡ trim_end_matches (is_char b'.') (to_ascii_lowercase s)
unfolding to_ascii_lowercase trim_end_matches
to_ascii_lowercase-trim_end_matches [] = refl
to_ascii_lowercase-trim_end_matches (c ∷ s) =
    keep_lower c (trim_end_matches (is_char b'.') s)
    ∙ ap (keep_unless_empty (is_char b'.') (lower c)) (to_ascii_lowercase-trim_end_matches s)

abbrev pub dots : ℕ → Text
dots zero = []
dots (suc n) = b'.' ∷ dots n

trim_end_matches-dots : (n : ℕ) → trim_end_matches (is_char b'.') (dots n) ≡ []
unfolding trim_end_matches keep_unless_empty
trim_end_matches-dots zero = refl
trim_end_matches-dots (suc n) = rw (trim_end_matches-dots n) refl

pub trim_end_matches_dotted :
    (s : Text) (n : ℕ)
    → trim_end_matches (is_char b'.') (s ++ dots n) ≡ trim_end_matches (is_char b'.') s
unfolding trim_end_matches
trim_end_matches_dotted [] n = trim_end_matches-dots n
trim_end_matches_dotted (c ∷ s) n =
    ap (keep_unless_empty (is_char b'.') c) (trim_end_matches_dotted s n)

-- ===== src/Forward/Quote.antt =====
-- What a POSIX shell reads of one word, and that it reads a quoted text as that text.
use ssh_rocket.Base.{
  ==_iff, ℕ, ◌≡◌, refl, Bool, ◌||◌, [], ◌∷◌, ◌++◌, Option, none, some, ◌==◌, if◌then◌else◌, any,
  inl, inr, Bool-cases,
}
use ssh_rocket.Text.{Text, codes}
use ssh_rocket.Forward.{replace, shell_quote}

pub data Mode : Type 0 where
  plain single double : Mode

abbrev cons_to : ℕ → Option Text → Option Text
cons_to c none = none
cons_to c (some s) = some (c ∷ s)

-- Expansions and escapes begin with these; in the reader they are no literal text.
abbrev is_active : ℕ → Bool
is_active c = c == b'$' || c == b'`' || c == b'\\'

-- Outside quotes, these begin an expansion, an escape, a pattern, a comment or a tilde prefix, or end
-- the word: blanks, newlines and the characters of operators.
abbrev is_special : ℕ → Bool
is_special c =
    is_active c
    || any (λ x. c == x)
        (b' ' ∷ 9 ∷ 10 ∷ b';' ∷ b'&' ∷ b'|' ∷ b'<' ∷ b'>' ∷ b'(' ∷ b')' ∷ b'*' ∷ b'?' ∷ b'[' ∷ b'#'
          ∷ b'~' ∷ [])

-- One word: quotes are taken away, all within single quotes is literal, and within double quotes all
-- but expansions and escapes.
pub shell_word : Mode → Text → Option Text
shell_word plain [] = some []
shell_word plain (c ∷ s) =
    if c == b'\''
    then shell_word single s
    else if c == b'"'
    then shell_word double s
    else if is_special c
    then none
    else cons_to c (shell_word plain s)
shell_word single [] = none
shell_word single (c ∷ s) =
    if c == b'\'' then shell_word plain s else cons_to c (shell_word single s)
shell_word double [] = none
shell_word double (c ∷ s) =
    if c == b'"'
    then shell_word plain s
    else if is_active c
    then none
    else cons_to c (shell_word double s)

word-replace :
    (v : Text) → shell_word single (replace b'\'' (codes "'\"'\"'") v ++ codes "'") ≡ some v
unfolding shell_word replace
word-replace [] = refl
word-replace (c ∷ v) = elim (Bool-cases (c == b'\'')) [
  | inl e ↦ rw ((==_iff c b'\'').0 e, word-replace v) refl
  | inr e ↦ rw (e, e, word-replace v) refl
]

-- For every text, a shell that reads the quoted text as a word, with single and double quotes
-- taken away, gets the text itself, and meets outside the quotes none of $ ` \ ; & | < > ( ) * ? [
-- # ~, blanks, tabs or newlines.
pub shell_word-shell_quote : (v : Text) → shell_word plain (shell_quote v) ≡ some v
unfolding shell_word shell_quote
shell_word-shell_quote v = word-replace v

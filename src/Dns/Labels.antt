-- ===== src/Dns/Labels.antt =====
-- The label loop of `parse_dns_query`: it reads the same on packets that agree up to its end.
use Prim.Native.Nat.{bit_and}
use ssh_rocket.Base.{
  ℕ, zero, suc, ◌+◌, ◌≤◌, ◌<◌, ◌≡◌, refl, sym, ◌∙◌, Bool, false, not, ◌||◌, List, [], ◌∷◌, ◌++◌,
  Option, none, some, ltb, lt→ltb, ◌==◌, if◌then◌else◌, length, arith, Bool-cases, inl, inr,
}
use ssh_rocket.Outcome.{
  Outcome, returned, absent, panicked, exhausted, ◌>>=◌, try, Ensures-returned, index, slice,
  index_in_bounds,
}
use ssh_rocket.Dns.{Packet, read_labels}
use ssh_rocket.Dns.Safety.{read_labels-Ensures}
use ssh_rocket.Text.{Text}
use ssh_rocket.Utf8.{from_utf8}

-- `r` has the bytes of `p` from 12 up to its own end, and is no longer.
pub record Agrees (p r : Packet) : Type 0 where
  pub shorter : length r ≤ length p
  pub same_index : (i : ℕ) → 12 ≤ i → i < length r → index r i ≡ index p i
  pub same_slice :
      (from to : ℕ) → 12 ≤ from → from ≤ to → to ≤ length r → slice r from to ≡ slice p from to

-- One label: what the loop does at a length byte `n` that is neither zero nor refused.
pub label_at : (f : ℕ) (p : Packet) (offset n : ℕ) (labels : List Text) → Outcome (ℕ × List Text)
label_at f p offset n labels = do
  word ← slice p (offset + 1) (offset + 1 + n)
  label ← try (from_utf8 word)
  read_labels f p (offset + 1 + n) (labels ++ label ∷ [])

abbrev pub refused : Packet → ℕ → ℕ → Bool
refused p offset n = not (bit_and n 0xc0 == 0) || ltb (length p) (offset + 1 + n)

pub read_labels_step :
    (f : ℕ) (p : Packet) (offset n : ℕ) (labels : List Text)
    → offset < length p
    → index p offset ≡ returned n
    → read_labels (suc f) p offset labels ≡ (
        if n == 0
        then returned (offset + 1, labels)
        else if refused p offset n
        then absent
        else label_at f p offset n labels)
unfolding read_labels label_at
read_labels_step f p offset n labels lt e = rw (lt→ltb offset (length p) lt, e) refl

pub label_at_inv :
    (f : ℕ) (p : Packet) (offset n : ℕ) (labels : List Text) (x : ℕ × List Text)
    → label_at f p offset n labels ≡ returned x
    → (word : Packet) × (label : Text) × (slice p (offset + 1) (offset + 1 + n) ≡ returned word)
      × (from_utf8 word ≡ some label)
      × (read_labels f p (offset + 1 + n) (labels ++ label ∷ []) ≡ returned x)
unfolding label_at
label_at_inv f p offset n labels x e = at (slice p (offset + 1) (offset + 1 + n)) refl
  where
    found :
        (word : Packet) (l : Option Text)
        → slice p (offset + 1) (offset + 1 + n) ≡ returned word
        → from_utf8 word ≡ l
        → (w : Packet) × (label : Text) × (slice p (offset + 1) (offset + 1 + n) ≡ returned w)
          × (from_utf8 w ≡ some label)
          × (read_labels f p (offset + 1 + n) (labels ++ label ∷ []) ≡ returned x)
    found word none s u = absurd (ground arith)
    found word (some label) s u = (word, label, s, u, ground arith)

    at :
        (s : Outcome Packet)
        → slice p (offset + 1) (offset + 1 + n) ≡ s
        → (w : Packet) × (label : Text) × (slice p (offset + 1) (offset + 1 + n) ≡ returned w)
          × (from_utf8 w ≡ some label)
          × (read_labels f p (offset + 1 + n) (labels ++ label ∷ []) ≡ returned x)
    at (returned word) s = found word (from_utf8 word) s refl
    at absent s = absurd (ground arith)
    at panicked s = absurd (ground arith)
    at exhausted s = absurd (ground arith)

label_at_eq :
    (f : ℕ) (p : Packet) (offset n : ℕ) (labels : List Text) (x : ℕ × List Text) (word : Packet)
    (label : Text)
    → slice p (offset + 1) (offset + 1 + n) ≡ returned word
    → from_utf8 word ≡ some label
    → read_labels f p (offset + 1 + n) (labels ++ label ∷ []) ≡ returned x
    → label_at f p offset n labels ≡ returned x
unfolding label_at
label_at_eq f p offset n labels x word label s u e = rw (s, u) e

pub inside_step :
    (f : ℕ) (p : Packet) (offset o : ℕ) (labels found : List Text)
    → offset ≤ length p
    → length p < f + offset
    → read_labels f p offset labels ≡ returned (o, found)
    → offset ≤ o
inside_step f p offset o labels found le k e =
    (Ensures-returned (λ x. (offset ≤ x.0) × (x.0 ≤ length p)) _ (o, found) e
      (read_labels-Ensures f p offset labels le k)).0

pub if_refused :
    {x : ℕ × List Text} (b : Bool) (m : Outcome (ℕ × List Text))
    → (if b then absent else m) ≡ returned x
    → (b ≡ false) × (m ≡ returned x)
if_refused b m e = ground arith

-- The label loop runs alike on two packets that agree up to the end of the second.
pub read_labels-Agrees :
    (f g : ℕ) (p r : Packet) (offset o : ℕ) (labels found : List Text)
    → Agrees p r
    → 12 ≤ offset
    → offset ≤ length p
    → length p < f + offset
    → length r < g + offset
    → o + 4 ≤ length r
    → read_labels f p offset labels ≡ returned (o, found)
    → read_labels g r offset labels ≡ returned (o, found)
read_labels-Agrees zero g p r offset o labels found ag h le k m n e = absurd (omega arith)
read_labels-Agrees (suc f) zero p r offset o labels found ag h le k m n e =
    let b = inside_step (suc f) p offset o labels found le k e in absurd (omega arith)
read_labels-Agrees (suc f) (suc g) p r offset o labels found ag h le k m n e =
    let b = inside_step (suc f) p offset o labels found le k e in
    let (len, at) = index_in_bounds p offset (omega arith) in
    let on_p = sym (read_labels_step f p offset len labels (omega arith) at) ∙ e in
    let on_r =
      read_labels_step g r offset len labels (omega arith)
        (ag.same_index offset h (omega arith) ∙ at) in
    on_r
    ∙ compare_steps len on_p (λ inside labels' e'.
      read_labels-Agrees f g p r (offset + 1 + len) o labels' found ag (omega arith) inside
        (omega arith) (omega arith) n e')
  where
    compare_steps :
        (len : ℕ)
        → (if len == 0
            then returned (offset + 1, labels)
            else if refused p offset len
            then absent
            else label_at f p offset len labels)
          ≡ returned (o, found)
        → (offset + 1 + len ≤ length p
            → (labels' : List Text)
            → read_labels f p (offset + 1 + len) labels' ≡ returned (o, found)
            → read_labels g r (offset + 1 + len) labels' ≡ returned (o, found))
        → (if len == 0
            then returned (offset + 1, labels)
            else if refused r offset len
            then absent
            else label_at g r offset len labels)
          ≡ returned (o, found)
    compare_steps len e ih = elim (Bool-cases (len == 0)) [
      | inl z ↦ rw z (rw z at e)
      | inr z ↦
          let (kept, e') = if_refused (refused p offset len) _ (rw z at e) in
          let (word, label, s, u, e'') = label_at_inv f p offset len labels (o, found) e' in
          let inside : offset + 1 + len ≤ length p = ground arith in
          let far = inside_step f p (offset + 1 + len) o _ found inside (omega arith) e'' in
          let same =
            ag.same_slice (offset + 1) (offset + 1 + len) (omega arith) (omega arith)
              (omega arith) in
          let open_r : refused r offset len ≡ false = ground arith in
          rw (z, open_r)
            (label_at_eq g r offset len labels (o, found) word label (same ∙ s) u (ih inside _ e''))
    ]

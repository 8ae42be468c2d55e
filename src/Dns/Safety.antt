-- ===== src/Dns/Safety.antt =====
-- No packet makes the reading functions panic, and the fuel that they take is enough.
use Prim.Native.Nat.{bit_and}
use ssh_rocket.Base.{
  null, ◌++◌, ℕ, zero, suc, ◌+◌, ◌*◌, ◌≤◌, ◌<◌, ◌≡◌, refl, Bool, true, false, not, ◌||◌, List, [],
  ◌∷◌, Option, none, some, ltb, leb, ◌==◌, if◌then◌else◌, length, get_elem?, arith, Bool-cases, inl,
  inr, usize_max, min,
}
use ssh_rocket.Outcome.{
  Outcome, returned, absent, panicked, exhausted, ◌>>=◌, IsSafe, Ensures, bind-Ensures,
  Ensures-IsSafe, index, slice, index_in_bounds, slice_in_bounds, try,
}
use ssh_rocket.Dns.{
  Packet, be16, read_labels, parse_dns_query, skip_dns_name_from, skip_dns_name, skip_questions,
  dns_question_end, skip_questions_saturating, checked_add,
}
use ssh_rocket.Text.{Text}
use ssh_rocket.Utf8.{from_utf8}

-- An access in bounds returns, whatever is asked of the rest.
pub index-Ensures :
    {B : Type 0} (Q : B → Type 0) (p : Packet) (i : ℕ) (f : ℕ → Outcome B)
    → i < length p
    → ((b : ℕ) → Ensures Q (f b))
    → Ensures Q (index p i >>= f)
index-Ensures Q p i f h k = let (b, e) = index_in_bounds p i h in rw e (k b)

pub be16-Ensures :
    {B : Type 0} (Q : B → Type 0) (p : Packet) (i : ℕ) (f : ℕ → Outcome B)
    → i + 2 ≤ length p
    → ((b : ℕ) → Ensures Q (f b))
    → Ensures Q (be16 p i >>= f)
unfolding be16
be16-Ensures Q p i f h k =
    let (a, e) = index_in_bounds p i (omega arith) in
    let (b, g) = index_in_bounds p (i + 1) (omega arith) in rw (e, g) (k (a * 256 + b))

pub slice-Ensures :
    {B : Type 0} (Q : B → Type 0) (p : Packet) (from to : ℕ) (f : Packet → Outcome B)
    → from ≤ to
    → to ≤ length p
    → ((b : Packet) → Ensures Q (f b))
    → Ensures Q (slice p from to >>= f)
slice-Ensures Q p from to f h g k = rw (slice_in_bounds p from to h g) (k _)

try-Ensures :
    {A B : Type 0} (Q : B → Type 0) (o : Option A) (f : A → Outcome B)
    → ((a : A) → o ≡ some a → Ensures Q (f a))
    → Ensures Q (try o >>= f)
try-Ensures Q none f k = tt
try-Ensures Q (some a) f k = k a refl

pub guarded-Ensures :
    {A : Type 0} (Q : A → Type 0) (b : Bool) (m : Outcome A)
    → (b ≡ false → Ensures Q m)
    → Ensures Q (if b then absent else m)
guarded-Ensures Q true m h = tt
guarded-Ensures Q false m h = h refl

pub branch-Ensures :
    {A : Type 0} (Q : A → Type 0) (b : Bool) (m n : Outcome A)
    → (b ≡ true → Ensures Q m)
    → (b ≡ false → Ensures Q n)
    → Ensures Q (if b then m else n)
branch-Ensures Q true m n h k = h refl
branch-Ensures Q false m n h k = k refl

-- The label loop moves on and ends inside the packet.
pub read_labels-Ensures :
    (fuel : ℕ) (p : Packet) (offset : ℕ) (labels : List Text)
    → offset ≤ length p
    → length p < fuel + offset
    → Ensures (λ r. (offset ≤ r.0) × (r.0 ≤ length p)) (read_labels fuel p offset labels)
unfolding read_labels
read_labels-Ensures zero p offset labels h k = absurd (omega arith)
read_labels-Ensures (suc fuel) p offset labels h k =
    branch-Ensures _ (ltb offset (length p)) _ _
      (λ lt. index-Ensures _ p offset _ (ground arith) λ n.
        branch-Ensures _ (n == 0) _ _ (λ _. ground arith)
          λ _.
            guarded-Ensures _ (not (bit_and n 0xc0 == 0) || ltb (length p) (offset + 1 + n)) _
              λ fits.
                slice-Ensures _ p (offset + 1) (offset + 1 + n) _ (omega arith) (ground arith)
                  λ word. try-Ensures _ (from_utf8 word) _ λ label _.
                    weaken n (read_labels fuel p (offset + 1 + n) (labels ++ label ∷ []))
                      (read_labels-Ensures fuel p (offset + 1 + n) _ (ground arith) (omega arith)))
      (λ _. omega arith)
  where
    weaken :
        (n : ℕ) (m : Outcome (ℕ × List Text))
        → Ensures (λ r. (offset + 1 + n ≤ r.0) × (r.0 ≤ length p)) m
        → Ensures (λ r. (offset ≤ r.0) × (r.0 ≤ length p)) m
    weaken n (returned o) h = omega arith
    weaken n absent h = h
    weaken n panicked h = h
    weaken n exhausted h = h

pub get_elem?_bound : (p : Packet) (i : ℕ) (b : ℕ) → get_elem? p i ≡ some b → i < length p
get_elem?_bound [] i b h = cc
get_elem?_bound (x ∷ p) zero b h = omega arith
get_elem?_bound (x ∷ p) (suc i) b h = omega (arith, get_elem?_bound p i b h)

checked_add-Ensures :
    {B : Type 0} (Q : B → Type 0) (a b : ℕ) (f : ℕ → Outcome B)
    → Ensures Q (f (a + b))
    → Ensures Q (checked_add a b >>= f)
checked_add-Ensures Q a b f k = elim (Bool-cases (leb (a + b) usize_max)) [
  | inl e ↦ rw e k
  | inr e ↦ rw e tt
]

-- A name that is skipped ends inside the packet, behind its first byte.
skip_dns_name_from-Ensures :
    (fuel : ℕ) (p : Packet) (offset : ℕ)
    → 0 < fuel
    → length p < fuel + offset
    → Ensures (λ o. (offset < o) × (o ≤ length p)) (skip_dns_name_from fuel p offset)
unfolding skip_dns_name_from
skip_dns_name_from-Ensures zero p offset pos h = elim pos [ ]
skip_dns_name_from-Ensures (suc fuel) p offset pos h = try-Ensures _ (get_elem? p offset) _ λ n e.
    let lt = get_elem?_bound p offset n e in
    branch-Ensures _ (n == 0) _ _ (λ _. omega arith)
      λ _.
        branch-Ensures _ (bit_and n 0xc0 == 0xc0) _ _
          (λ _.
            try-Ensures _ (get_elem? p (offset + 1)) _
              λ b g. let below = get_elem?_bound p (offset + 1) b g in omega arith)
          (λ _. checked_add-Ensures _ (offset + 1) n _ (
            guarded-Ensures _ (ltb (length p) (offset + 1 + n)) _ λ fits.
              weaken n (skip_dns_name_from fuel p (offset + 1 + n))
                (skip_dns_name_from-Ensures fuel p (offset + 1 + n) (ground arith) (omega arith))))
  where
    weaken :
        (n : ℕ) (m : Outcome ℕ)
        → Ensures (λ o. (offset + 1 + n < o) × (o ≤ length p)) m
        → Ensures (λ o. (offset < o) × (o ≤ length p)) m
    weaken n (returned o) h = omega arith
    weaken n absent h = h
    weaken n panicked h = h
    weaken n exhausted h = h

-- From any offset of any packet, skipping a name does not panic or run out of fuel, and if it
-- returns an offset, that lies behind the first one and not behind the end of the packet.
pub skip_dns_name-Ensures :
    (p : Packet) (offset : ℕ)
    → Ensures (λ o. (offset < o) × (o ≤ length p)) (skip_dns_name p offset)
unfolding skip_dns_name
skip_dns_name-Ensures p offset =
    skip_dns_name_from-Ensures (suc (length p)) p offset (omega arith) (omega arith)

pub skip_questions-Ensures :
    (n : ℕ) (p : Packet) (offset : ℕ)
    → offset ≤ length p
    → Ensures (λ o. (offset ≤ o) × (o ≤ length p)) (skip_questions n p offset)
unfolding skip_questions
skip_questions-Ensures zero p offset h = omega arith
skip_questions-Ensures (suc n) p offset h =
    bind-Ensures _ _ (skip_dns_name p offset) _ (skip_dns_name-Ensures p offset) λ name_end g.
      checked_add-Ensures _ name_end 4 _ (
        guarded-Ensures _ (ltb (length p) (name_end + 4)) _ λ fits.
          weaken (name_end + 4) (omega arith) (skip_questions n p (name_end + 4))
            (skip_questions-Ensures n p (name_end + 4) (ground arith)))
  where
    weaken :
        (a : ℕ)
        → offset ≤ a
        → (m : Outcome ℕ) → Ensures (λ o. (a ≤ o) × (o ≤ length p)) m
        → Ensures (λ o. (offset ≤ o) × (o ≤ length p)) m
    weaken a b (returned o) h = omega arith
    weaken a b absent h = h
    weaken a b panicked h = h
    weaken a b exhausted h = h

-- The end of the questions lies behind the header and inside the packet.
pub dns_question_end-Ensures :
    (p : Packet) → Ensures (λ o. (12 ≤ o) × (o ≤ length p)) (dns_question_end p)
unfolding dns_question_end
dns_question_end-Ensures p = guarded-Ensures _ (ltb (length p) 12) _ λ long.
    be16-Ensures _ p 4 _ (ground arith)
      λ questions. skip_questions-Ensures questions p 12 (ground arith)

-- Parsing a query does not panic and does not run out of fuel, whatever the packet holds.
pub parse_dns_query-IsSafe : (p : Packet) → IsSafe (parse_dns_query p)
unfolding parse_dns_query
parse_dns_query-IsSafe p =
    Ensures-IsSafe (λ _. Unit {0}) _
      (guarded-Ensures _ (ltb (length p) 12) _ λ long.
        be16-Ensures _ p 4 _ (ground arith) λ questions. guarded-Ensures _ (questions == 0) _ λ _.
          bind-Ensures _ _ (read_labels (suc (length p)) p 12 []) _
            (read_labels-Ensures (suc (length p)) p 12 [] (ground arith) (omega arith))
            λ r inside.
              guarded-Ensures _ (null r.1 || ltb (length p) (r.0 + 4)) _
                λ fits. be16-Ensures _ p r.0 _ (ground arith) λ qtype. tt)

pub skip_questions_saturating-Ensures :
    (n : ℕ) (p : Packet) (offset : ℕ)
    → offset ≤ length p
    → Ensures (λ o. o ≤ length p) (skip_questions_saturating n p offset)
unfolding skip_questions_saturating
skip_questions_saturating-Ensures zero p offset h = omega arith
skip_questions_saturating-Ensures (suc n) p offset h =
    bind-Ensures _ _ (skip_dns_name p offset) _ (skip_dns_name-Ensures p offset) λ name_end g.
      guarded-Ensures _ (ltb (length p) (min (name_end + 4) usize_max)) _
        λ fits. skip_questions_saturating-Ensures n p (min (name_end + 4) usize_max) (ground arith)

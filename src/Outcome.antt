-- ===== src/Outcome.antt =====
-- What a call of a fallible function comes to: a value, `None` or `Err`, a panic, or no fuel left.
-- The last two are there to be ruled out.
use ssh_rocket.Base.{
  true, false, Bool, ℕ, ◌-◌, ◌≤◌, ◌<◌, ◌≡◌, refl, ◌&&◌, List, [], ◌∷◌, Option, none, some, leb,
  if◌then◌else◌, get_elem?, take, drop, length, arith, zero, suc,
}

pub data Outcome {ℓ} (A : Type ℓ) : Type ℓ where
  returned : A → Outcome A
  absent panicked exhausted : Outcome A

infixl 5 ◌>>=◌
abbrev pub ◌>>=◌ {ℓ κ} : {A : Type ℓ} {B : Type κ} → Outcome A → (A → Outcome B) → Outcome B
returned a >>= f = f a
absent >>= f = absent
panicked >>= f = panicked
exhausted >>= f = exhausted

-- No panic, and enough fuel.
abbrev pub IsSafe {ℓ} : {A : Type ℓ} → Outcome A → Type 0
IsSafe (returned a) = Unit
IsSafe absent = Unit
IsSafe panicked = ⊥
IsSafe exhausted = ⊥

-- A safe outcome whose value, if it has one, satisfies `P`.
abbrev pub Ensures {ℓ} : {A : Type ℓ} → (A → Type 0) → Outcome A → Type 0
Ensures P (returned a) = P a
Ensures P absent = Unit
Ensures P panicked = ⊥
Ensures P exhausted = ⊥

-- A returned value, which satisfies `P`.
abbrev pub Returns {ℓ} : {A : Type ℓ} → (A → Type 0) → Outcome A → Type 0
Returns P (returned a) = P a
Returns P absent = ⊥
Returns P panicked = ⊥
Returns P exhausted = ⊥

pub bind-Returns {ℓ κ} :
    {A : Type ℓ} {B : Type κ} (P : A → Type 0) (Q : B → Type 0) (m : Outcome A) (f : A → Outcome B)
    → Returns P m
    → ((a : A) → P a → Returns Q (f a))
    → Returns Q (m >>= f)
bind-Returns P Q (returned a) f h k = k a h
bind-Returns P Q absent f h k = absurd h
bind-Returns P Q panicked f h k = absurd h
bind-Returns P Q exhausted f h k = absurd h

pub Returns-weaken {ℓ} :
    {A : Type ℓ} (P Q : A → Type 0) (m : Outcome A)
    → Returns P m
    → ((a : A) → P a → Q a)
    → Returns Q m
Returns-weaken P Q (returned a) h k = k a h
Returns-weaken P Q absent h k = h
Returns-weaken P Q panicked h k = h
Returns-weaken P Q exhausted h k = h

-- What holds of the value, if there is one, holds of the value that is returned.
pub Ensures-Returns {ℓ} :
    {A : Type ℓ} (P Q : A → Type 0) (m : Outcome A) → Ensures P m → Returns Q m → Returns P m
Ensures-Returns P Q (returned a) h k = h
Ensures-Returns P Q absent h k = absurd k
Ensures-Returns P Q panicked h k = absurd k
Ensures-Returns P Q exhausted h k = absurd k

pub branch-Returns {ℓ} :
    {A : Type ℓ} (Q : A → Type 0) (b : Bool) (m n : Outcome A)
    → (b ≡ true → Returns Q m)
    → (b ≡ false → Returns Q n)
    → Returns Q (if b then m else n)
branch-Returns Q true m n h k = h refl
branch-Returns Q false m n h k = k refl

pub bind-Ensures {ℓ κ} :
    {A : Type ℓ} {B : Type κ} (P : A → Type 0) (Q : B → Type 0) (m : Outcome A) (f : A → Outcome B)
    → Ensures P m
    → ((a : A) → P a → Ensures Q (f a))
    → Ensures Q (m >>= f)
bind-Ensures P Q (returned a) f h k = k a h
bind-Ensures P Q absent f h k = tt
bind-Ensures P Q panicked f h k = absurd h
bind-Ensures P Q exhausted f h k = absurd h

pub Ensures-IsSafe {ℓ} : {A : Type ℓ} (P : A → Type 0) (m : Outcome A) → Ensures P m → IsSafe m
Ensures-IsSafe P (returned a) h = tt
Ensures-IsSafe P absent h = tt
Ensures-IsSafe P panicked h = absurd h
Ensures-IsSafe P exhausted h = absurd h

-- The value of a returned outcome that is known.
pub Ensures-returned {ℓ} :
    {A : Type ℓ} (P : A → Type 0) (m : Outcome A) (a : A) → m ≡ returned a → Ensures P m → P a
Ensures-returned P m a e h = rw e at h

-- `let Some(a) = m else { return d }; f a`
abbrev pub let_else {ℓ κ} :
    {A : Type ℓ} {B : Type κ} → Outcome A → Outcome B → (A → Outcome B) → Outcome B
let_else (returned a) d f = f a
let_else absent d f = d
let_else panicked d f = panicked
let_else exhausted d f = exhausted

pub let_else-Ensures {ℓ κ} :
    {A : Type ℓ} {B : Type κ} (P : A → Type 0) (Q : B → Type 0) (m : Outcome A) (d : Outcome B)
    (f : A → Outcome B)
    → Ensures P m
    → Ensures Q d
    → ((a : A) → P a → Ensures Q (f a))
    → Ensures Q (let_else m d f)
let_else-Ensures P Q (returned a) d f h g k = k a h
let_else-Ensures P Q absent d f h g k = g
let_else-Ensures P Q panicked d f h g k = absurd h
let_else-Ensures P Q exhausted d f h g k = absurd h

pub let_else-Returns {ℓ κ} :
    {A : Type ℓ} {B : Type κ} (P : A → Type 0) (Q : B → Type 0) (m : Outcome A) (d : Outcome B)
    (f : A → Outcome B)
    → Ensures P m
    → Returns Q d
    → ((a : A) → P a → Returns Q (f a))
    → Returns Q (let_else m d f)
let_else-Returns P Q (returned a) d f h g k = k a h
let_else-Returns P Q absent d f h g k = g
let_else-Returns P Q panicked d f h g k = absurd h
let_else-Returns P Q exhausted d f h g k = absurd h

-- `?` on an `Option`
abbrev pub try {ℓ} : {A : Type ℓ} → Option A → Outcome A
try none = absent
try (some a) = returned a

-- `xs[i]`, which panics out of bounds
unfoldable pub index {ℓ} : {A : Type ℓ} → List A → ℕ → Outcome A
index xs i = elim (get_elem? xs i) [ none ↦ panicked | some x ↦ returned x ]

-- `&xs[from..to]`
unfoldable pub slice {ℓ} : {A : Type ℓ} → List A → ℕ → ℕ → Outcome (List A)
slice xs from to =
    if leb from to && leb to (length xs)
    then returned (take (to - from) (drop from xs))
    else panicked

-- `xs[i] = v`
unfoldable pub store {ℓ} : {A : Type ℓ} → List A → ℕ → A → Outcome (List A)
store [] i v = panicked
store (x ∷ xs) zero v = returned (v ∷ xs)
store (x ∷ xs) (suc i) v = do r ← store xs i v; returned (x ∷ r)

get_elem?-some :
    {A : Type 0} (xs : List A) (i : ℕ) → i < length xs → (x : A) × (get_elem? xs i ≡ some x)
get_elem?-some [] i h = elim h [ ]
get_elem?-some (x ∷ xs) zero h = (x, refl)
get_elem?-some (x ∷ xs) (suc i) h = get_elem?-some xs i (omega arith)

pub index_in_bounds :
    {A : Type 0} (xs : List A) (i : ℕ) → i < length xs → (x : A) × (index xs i ≡ returned x)
unfolding index
index_in_bounds xs i h = let (x, e) = get_elem?-some xs i h in (x, rw (e, index))

pub slice_in_bounds :
    {A : Type 0} (xs : List A) (from to : ℕ)
    → from ≤ to
    → to ≤ length xs
    → slice xs from to ≡ returned (take (to - from) (drop from xs))
unfolding slice
slice_in_bounds xs from to h k = ground arith

-- Inversion of a bind that returns.
pub bind-eq-returned {ℓ κ} :
    {A : Type ℓ} {B : Type κ} (m : Outcome A) (f : A → Outcome B) (b : B)
    → (m >>= f) ≡ returned b
    → (a : A) × (m ≡ returned a) × (f a ≡ returned b)
bind-eq-returned (returned a) f b h = (a, refl, h)
bind-eq-returned absent f b h = cc
bind-eq-returned panicked f b h = cc
bind-eq-returned exhausted f b h = cc

pub guarded-eq-returned {ℓ} :
    {A : Type ℓ} (b : Bool) (m : Outcome A) (x : A)
    → (if b then absent else m) ≡ returned x
    → (b ≡ false) × (m ≡ returned x)
guarded-eq-returned b m x e = ground arith

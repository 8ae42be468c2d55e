-- ===== src/Dns/Reply.antt =====
-- An empty response agrees with its query from the end of the header on.
use ssh_rocket.Base.{
  length-take, ℕ, zero, suc, ◌+◌, ◌-◌, ◌≤◌, ◌<◌, ◌≡◌, refl, ap, sym, ◌∙◌, [], ◌∷◌, length,
  get_elem?, take, drop, arith,
}
use ssh_rocket.Outcome.{returned, index, slice_in_bounds}
use ssh_rocket.Dns.{Packet, be16}
use ssh_rocket.Dns.Labels.{Agrees}
use ssh_rocket.Dns.Responses.{split_header, long, Long, twelve_more, answered}

get_take : (k i : ℕ) (p : Packet) → i < k → get_elem? (take k p) i ≡ get_elem? p i
get_take zero i p h = elim h [ ]
get_take (suc k) i [] h = refl
get_take (suc k) zero (x ∷ p) h = refl
get_take (suc k) (suc i) (x ∷ p) h = get_take k i p (omega arith)

take-take : (m k : ℕ) (p : Packet) → m ≤ k → take m (take k p) ≡ take m p
take-take zero k p h = refl
take-take (suc m) zero p h = elim h [ ]
take-take (suc m) (suc k) [] h = refl
take-take (suc m) (suc k) (x ∷ p) h = ap (λ t. x ∷ t) (take-take m k p (omega arith))

take-drop-take :
    (m j k : ℕ) (p : Packet) → j + m ≤ k → take m (drop j (take k p)) ≡ take m (drop j p)
take-drop-take m zero k p h = take-take m k p (omega arith)
take-drop-take m (suc j) zero p h = absurd (omega arith)
take-drop-take m (suc j) (suc k) [] h = refl
take-drop-take m (suc j) (suc k) (x ∷ p) h = take-drop-take m j k p (omega arith)

index_of_get : (p r : Packet) (i : ℕ) → get_elem? p i ≡ get_elem? r i → index p i ≡ index r i
unfolding index
index_of_get p r i e = rw (index, e) refl

length_reply :
    (p : Packet) (code k : ℕ)
    → twelve_more k ≤ length p
    → Long p
    → length (answered p code (twelve_more k)) ≡ twelve_more k
length_reply p code k fits (long a b c d e f g h i j x l rest) =
    let n : twelve_more k - 12 ≡ k = omega arith in rw n (omega (arith, length-take k rest))

get_reply :
    (p : Packet) (code k i : ℕ)
    → i < k
    → Long p
    → get_elem? (answered p code (twelve_more k)) (twelve_more i) ≡ get_elem? p (twelve_more i)
get_reply p code k i lt (long a b c d e f g h y j x l rest) =
    let n : twelve_more k - 12 ≡ k = omega arith in rw n (get_take k i rest lt)

part_reply :
    (p : Packet) (code k m i : ℕ)
    → i + m ≤ k
    → Long p
    → take m (drop (twelve_more i) (answered p code (twelve_more k)))
      ≡ take m (drop (twelve_more i) p)
part_reply p code k m i le (long a b c d e f g h y j x l rest) =
    let n : twelve_more k - 12 ≡ k = omega arith in rw n (take-drop-take m i k rest le)

-- The question count is the query's.
count_reply :
    (p : Packet) (code k : ℕ) → Long p → be16 (answered p code (twelve_more k)) 4 ≡ be16 p 4
unfolding be16 index
count_reply p code k (long a b c d e f g h y j x l rest) = refl

reply-Agrees :
    (p : Packet) (code k : ℕ)
    → twelve_more k ≤ length p
    → Agrees p (answered p code (twelve_more k))
reply-Agrees p code k fits =
    let l = split_header p (omega arith) in
    let len = length_reply p code k fits l in
    record {
      shorter = omega arith;
      same_index = λ i h lt.
          let n : i ≡ twelve_more (i - 12) = omega arith in
          rw n (index_of_get _ p _ (get_reply p code k (i - 12) (omega arith) l));
      same_slice = λ from to h g le.
          let n : from ≡ twelve_more (from - 12) = omega arith in
          slice_in_bounds _ from to g le
          ∙ rw n (
              ap returned
                (part_reply p code k (to - twelve_more (from - 12)) (from - 12) (omega arith) l))
          ∙ sym (slice_in_bounds p from to g (omega arith));
    }

-- The answer to a query, from byte 12 to its end, is the query.
pub answered-Agrees :
    (p : Packet) (code q : ℕ)
    → 12 ≤ q
    → q ≤ length p
    → Agrees p (answered p code q)
      × (length (answered p code q) ≡ q)
      × (be16 (answered p code q) 4 ≡ be16 p 4)
answered-Agrees p code q h le =
    let n : q ≡ twelve_more (q - 12) = omega arith in
    let l = split_header p (omega arith) in
    rw n (
      reply-Agrees p code (q - 12) (omega arith),
      length_reply p code (q - 12) (omega arith) l,
      count_reply p code (q - 12) l,
    )

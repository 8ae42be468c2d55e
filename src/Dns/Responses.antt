-- ===== src/Dns/Responses.antt =====
-- The empty responses: their exact bytes, and that a client reads its own question in them.
use Prim.Native.Nat.{bit_and, bit_or}
use ssh_rocket.Base.{ℕ, suc, ◌-◌, ◌≤◌, ◌≡◌, refl, ap, ◌∙◌, [], ◌∷◌, length, take, arith}
use ssh_rocket.Outcome.{
  index, store, slice_in_bounds, returned, Ensures-returned, slice, let_else-Returns,
}
use ssh_rocket.Dns.{Packet, dns_question_end, respond, empty_dns_response}
use ssh_rocket.Dns.Returned.{IsReturned}
use ssh_rocket.Dns.Safety.{dns_question_end-Ensures}

-- A packet of at least 12 bytes, by its bytes.
pub data Long : Packet → Type 0 where
  long :
      (a b c d e f g h i j k l : ℕ) (rest : Packet)
      → Long (a ∷ b ∷ c ∷ d ∷ e ∷ f ∷ g ∷ h ∷ i ∷ j ∷ k ∷ l ∷ rest)

pub split_header : (p : Packet) → 12 ≤ length p → Long p
split_header (a ∷ b ∷ c ∷ d ∷ e ∷ f ∷ g ∷ h ∷ i ∷ j ∷ k ∷ l ∷ rest) n =
    long a b c d e f g h i j k l rest
split_header _ n = absurd (omega arith)

-- The bytes of the answer to a query with this header, whose questions end at `question_end`.
abbrev pub answered : Packet → ℕ → ℕ → Packet
answered (a ∷ b ∷ c ∷ d ∷ e ∷ f ∷ g ∷ h ∷ i ∷ j ∷ k ∷ l ∷ rest) code question_end =
    a
    ∷ b
    ∷ bit_or 0x80 (bit_and c 0x79)
    ∷ bit_or 0x80 (bit_and code 0x0f)
    ∷ e
    ∷ f
    ∷ 0
    ∷ 0
    ∷ 0
    ∷ 0
    ∷ 0
    ∷ 0
    ∷ take (question_end - 12) rest
answered p code question_end = []

slice_front : (p : Packet) (to : ℕ) → to ≤ length p → slice p 0 to ≡ returned (take to p)
slice_front p to h =
    slice_in_bounds p 0 to (omega arith) h
    ∙ ap (λ n. returned (take n p)) (let e : to - 0 ≡ to = omega arith in e)

abbrev pub twelve_more : ℕ → ℕ
twelve_more k = suc (suc (suc (suc (suc (suc (suc (suc (suc (suc (suc (suc k)))))))))))

respond-Long :
    (p : Packet) (code k : ℕ)
    → Long p
    → twelve_more k ≤ length p
    → respond p code (twelve_more k) ≡ returned (answered p code (twelve_more k))
unfolding respond index store
respond-Long p code k (long a b c d e f g h i j x l rest) fits =
    let n : twelve_more k - 12 ≡ k = omega arith in
    rw n (rw (slice_front _ (twelve_more k) fits) refl)

respond_lem :
    (p : Packet) (code question_end : ℕ)
    → 12 ≤ question_end
    → question_end ≤ length p
    → respond p code question_end ≡ returned (answered p code question_end)
respond_lem p code question_end h fits =
    let n : question_end ≡ twelve_more (question_end - 12) = omega arith in
    rw n (respond-Long p code (question_end - 12) (split_header p (omega arith)) (omega arith))

-- If the questions of a packet end at an offset, the empty response is the packet cut at that
-- offset, with the id, the question count and the questions kept, the flag bytes set from the
-- opcode, the recursion flag and the code, and the three other counts zero.
pub empty_dns_response_lem :
    (p : Packet) (code question_end : ℕ)
    → dns_question_end p ≡ returned question_end
    → empty_dns_response p code ≡ returned (answered p code question_end)
unfolding empty_dns_response
empty_dns_response_lem p code question_end e =
    let inside =
      Ensures-returned (λ o. (12 ≤ o) × (o ≤ length p)) (dns_question_end p) question_end e
        (dns_question_end-Ensures p) in
    rw e (respond_lem p code question_end inside.0 inside.1)

-- Building an empty response returns a packet, whatever the packet and the code.
pub empty_dns_response-IsReturned : (p : Packet) (code : ℕ) → IsReturned (empty_dns_response p code)
unfolding empty_dns_response
empty_dns_response-IsReturned p code =
    let_else-Returns _ _ (dns_question_end p) _ _ (dns_question_end-Ensures p) tt
      λ q inside. rw (respond_lem p code q inside.0 inside.1) tt

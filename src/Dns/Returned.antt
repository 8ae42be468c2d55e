-- ===== src/Dns/Returned.antt =====
-- The functions that answer a query return a value for every packet.
use ssh_rocket.Base.{
  ℕ, zero, suc, ◌+◌, ◌*◌, ◌≤◌, ◌≡◌, refl, not, ◌&&◌, List, [], ◌++◌, arith, ltb, ◌==◌, length,
}
use ssh_rocket.Outcome.{
  bind-Returns, Outcome, returned, index_in_bounds, slice_in_bounds, Returns, branch-Returns,
  let_else-Returns,
}
use ssh_rocket.Dns.{
  Packet, be16, skip_dns_name, skip_questions_saturating, read_address, read_answers,
  parse_dns_addresses,
}
use ssh_rocket.Dns.Safety.{skip_dns_name-Ensures, skip_questions_saturating-Ensures}
use ssh_rocket.Net.{IpAddr}

-- A value is returned.
abbrev pub IsReturned : {A : Type 0} → Outcome A → Type 0
IsReturned m = Returns (λ _. Unit) m

be16_in_bounds : (p : Packet) (i : ℕ) → i + 2 ≤ length p → (b : ℕ) × (be16 p i ≡ returned b)
unfolding be16
be16_in_bounds p i h =
    let (a, e) = index_in_bounds p i (omega arith) in
    let (b, g) = index_in_bounds p (i + 1) (omega arith) in (a * 256 + b, rw e (rw g refl))

read_address-IsReturned :
    (p : Packet) (offset class kind size : ℕ)
    → offset + size ≤ length p
    → IsReturned (read_address p offset class kind size)
unfolding read_address
read_address-IsReturned p offset class kind size h =
    branch-Returns _ (not (class == 1)) _ _ (λ _. tt)
      λ _.
        branch-Returns _ (kind == 1 && size == 4) _ _
          (λ e.
            let (a, ea) = index_in_bounds p offset (ground arith) in
            let (b, eb) = index_in_bounds p (offset + 1) (ground arith) in
            let (c, ec) = index_in_bounds p (offset + 2) (ground arith) in
            let (d, ed) = index_in_bounds p (offset + 3) (ground arith) in rw (ea, eb, ec, ed) tt)
          λ _.
            branch-Returns _ (kind == 28 && size == 16) _ _
              (λ e. rw (slice_in_bounds p offset (offset + 16) (omega arith) (ground arith)) tt)
              λ _. tt

read_answers-IsReturned :
    (n : ℕ) (p : Packet) (offset : ℕ) (found : List IpAddr)
    → IsReturned (read_answers n p offset found)
unfolding read_answers
read_answers-IsReturned zero p offset found = tt
read_answers-IsReturned (suc n) p offset found =
    let_else-Returns _ _ (skip_dns_name p offset) _ _ (skip_dns_name-Ensures p offset) tt λ start g.
      branch-Returns _ (ltb (length p) (start + 10)) _ _ (λ _. tt)
        λ fits.
          let (kind, ek) = be16_in_bounds p start (ground arith) in
          let (class, ec) = be16_in_bounds p (start + 2) (ground arith) in
          let (size, es) = be16_in_bounds p (start + 8) (ground arith) in
          rw (ek, ec, es)
            (branch-Returns _ (ltb (length p) (start + 10 + size)) _ _ (λ _. tt)
              λ inside.
                bind-Returns _ _ (read_address p (start + 10) class kind size) _
                  (read_address-IsReturned p (start + 10) class kind size (ground arith))
                  λ here _. read_answers-IsReturned n p (start + 10 + size) (found ++ here))

pub parse_dns_addresses-IsReturned : (p : Packet) → IsReturned (parse_dns_addresses p)
unfolding parse_dns_addresses
parse_dns_addresses-IsReturned p =
    branch-Returns _ (ltb (length p) 12) _ _ (λ _. tt)
      λ long.
        let (questions, eq) = be16_in_bounds p 4 (ground arith) in
        let (answers, ea) = be16_in_bounds p 6 (ground arith) in
        rw (eq, ea)
          (let_else-Returns _ _ (skip_questions_saturating questions p 12) _ _
            (skip_questions_saturating-Ensures questions p 12 (ground arith)) tt
            λ offset _. read_answers-IsReturned answers p offset [])

-- ===== src/Dns/Question.antt =====
-- A client that parses an empty response finds the question that it asked.
use ssh_rocket.Dns.Reply.{answered-Agrees}
use Prim.Native.Nat.{bit_and}
use mathlib.Core.Path.{subst}
use ssh_rocket.Base.{
  null, usize_max, ℕ, zero, suc, ◌+◌, ◌-◌, ◌≤◌, ◌<◌, ◌≡◌, refl, ap, sym, ◌∙◌, true, false, ◌||◌,
  List, [], ◌∷◌, some, ltb, leb, ◌==◌, if◌then◌else◌, length, get_elem?, arith, Bool-cases,
  Option-cases, inl, inr,
}
use ssh_rocket.Outcome.{
  bind-eq-returned, guarded-eq-returned, Outcome, returned, absent, Ensures-returned, index,
  index_in_bounds,
}
use ssh_rocket.Dns.{
  Packet, be16, read_labels, skip_dns_name_from, skip_dns_name, skip_questions, dns_question_end,
  empty_dns_response, parse_dns_query,
}
use ssh_rocket.Dns.Labels.{
  Agrees, read_labels-Agrees, label_at, refused, read_labels_step, label_at_inv, inside_step,
  if_refused,
}
use ssh_rocket.Dns.Safety.{skip_questions-Ensures, dns_question_end-Ensures}
use ssh_rocket.Dns.Responses.{answered, empty_dns_response_lem}
use ssh_rocket.Text.{join, Text}

not_pointer : (b : ℕ) → (b == 0) ≡ true → (b == 0xc0) ≡ false
not_pointer b h = ground arith

get_of_index : (p : Packet) (i b : ℕ) → index p i ≡ returned b → get_elem? p i ≡ some b
unfolding index
get_of_index p i b e = ground (arith, Option-cases (get_elem? p i))

skip_zero :
    (g : ℕ) (p : Packet) (offset len : ℕ)
    → get_elem? p offset ≡ some len
    → (len == 0) ≡ true
    → skip_dns_name_from (suc g) p offset ≡ returned (offset + 1)
unfolding skip_dns_name_from
skip_zero g p offset len e z = rw (e, z) refl

skip_label :
    (g : ℕ) (p : Packet) (offset len : ℕ)
    → length p ≤ usize_max
    → get_elem? p offset ≡ some len
    → (len == 0) ≡ false
    → (bit_and len 0xc0 == 0xc0) ≡ false
    → offset + 1 + len ≤ length p
    → skip_dns_name_from (suc g) p offset ≡ skip_dns_name_from g p (offset + 1 + len)
unfolding skip_dns_name_from
skip_label g p offset len u e z c h =
    let a : leb (offset + 1 + len) usize_max ≡ true = ground arith in
    let b : ltb (length p) (offset + 1 + len) ≡ false = ground arith in rw (e, z, c, a, b) refl

first_of_returned :
    (a o : ℕ) (labels found : List Text)
    → ◌≡◌ {A = Outcome (ℕ × List Text)} (returned (a, labels)) (returned (o, found))
    → a ≡ o
first_of_returned a o labels found e = cc

-- Where the labels of a name end, skipping the name ends too.
skip-read_labels :
    (f g : ℕ) (p : Packet) (offset o : ℕ) (labels found : List Text)
    → length p ≤ usize_max
    → offset ≤ length p
    → length p < f + offset
    → length p < g + offset
    → o + 4 ≤ length p
    → read_labels f p offset labels ≡ returned (o, found)
    → skip_dns_name_from g p offset ≡ returned o
skip-read_labels zero g p offset o labels found u le k m n e = absurd (omega arith)
skip-read_labels (suc f) zero p offset o labels found u le k m n e = absurd (omega arith)
skip-read_labels (suc f) (suc g) p offset o labels found u le k m n e =
    let b = inside_step (suc f) p offset o labels found le k e in
    let (len, at) = index_in_bounds p offset (omega arith) in
    step len (get_of_index p offset len at)
      (sym (read_labels_step f p offset len labels (omega arith) at) ∙ e)
      (λ labels' inside.
        skip-read_labels f g p (offset + 1 + len) o labels' found u inside (omega arith)
          (omega arith) n)
  where
    step :
        (len : ℕ)
        → get_elem? p offset ≡ some len
        → (if len == 0
            then returned (offset + 1, labels)
            else if refused p offset len
            then absent
            else label_at f p offset len labels)
          ≡ returned (o, found)
        → ((labels' : List Text)
            → offset + 1 + len ≤ length p
            → read_labels f p (offset + 1 + len) labels' ≡ returned (o, found)
            → skip_dns_name_from g p (offset + 1 + len) ≡ returned o)
        → skip_dns_name_from (suc g) p offset ≡ returned o
    step len here e ih = elim (Bool-cases (len == 0)) [
      | inl z ↦
          skip_zero g p offset len here z
          ∙ ap returned (first_of_returned (offset + 1) o labels found (rw z at e))
      | inr z ↦
          let (kept, e') = if_refused (refused p offset len) _ (rw z at e) in
          let (word, label, s, t, e'') = label_at_inv f p offset len labels (o, found) e' in
          let inside : offset + 1 + len ≤ length p = ground arith in
          skip_label g p offset len u here z (not_pointer (bit_and len 0xc0) (ground arith)) inside
          ∙ ih _ inside e''
    ]

skip_questions_step :
    (n : ℕ) (p : Packet) (offset o : ℕ)
    → length p ≤ usize_max
    → o + 4 ≤ length p
    → skip_dns_name p offset ≡ returned o
    → skip_questions (suc n) p offset ≡ skip_questions n p (o + 4)
unfolding skip_questions
skip_questions_step n p offset o u h s =
    let a : leb (o + 4) usize_max ≡ true = ground arith in
    let b : ltb (length p) (o + 4) ≡ false = ground arith in rw (s, a, b) refl

-- The first question ends four bytes behind its name, and the questions end there or later.
questions_end :
    (n : ℕ) (p : Packet) (offset o q : ℕ)
    → length p ≤ usize_max
    → o + 4 ≤ length p
    → skip_dns_name p offset ≡ returned o
    → skip_questions (suc n) p offset ≡ returned q
    → o + 4 ≤ q
questions_end n p offset o q u h s e =
    (Ensures-returned (λ x. (o + 4 ≤ x) × (x ≤ length p)) _ q
      (sym (skip_questions_step n p offset o u h s) ∙ e) (skip_questions-Ensures n p (o + 4) h)).0

-- What a parse that succeeds has read.
record Parsed (p : Packet) (name : Text) (qtype : ℕ) : Type 0 where
  count : ℕ
  stop : ℕ
  labels : List Text
  is_long : 12 ≤ length p
  counted : be16 p 4 ≡ returned count
  some_question : (count == 0) ≡ false
  read : read_labels (suc (length p)) p 12 [] ≡ returned (stop, labels)
  some_label : null labels ≡ false
  inside : stop + 4 ≤ length p
  typed : be16 p stop ≡ returned qtype
  joined : name ≡ join (b'.' ∷ []) labels

parse-Parsed :
    (p : Packet) (name : Text) (qtype : ℕ)
    → parse_dns_query p ≡ returned (name, qtype)
    → Parsed p name qtype
unfolding parse_dns_query
parse-Parsed p name qtype e =
    let (a, e1) = guarded-eq-returned (ltb (length p) 12) _ (name, qtype) e in
    let (count, counted, e2) = bind-eq-returned (be16 p 4) _ (name, qtype) e1 in
    let (b, e3) = guarded-eq-returned (count == 0) _ (name, qtype) e2 in
    let ((stop, labels), read, e4) =
      bind-eq-returned (read_labels (suc (length p)) p 12 []) _ (name, qtype) e3 in
    let (c, e5) =
      guarded-eq-returned (null labels || ltb (length p) (stop + 4)) _ (name, qtype) e4 in
    let (t, typed, e6) = bind-eq-returned (be16 p stop) _ (name, qtype) e5 in
    record {
      count = count;
      stop = stop;
      labels = labels;
      is_long = ground arith;
      counted = counted;
      some_question = b;
      read = read;
      some_label = ground arith;
      inside = ground arith;
      typed = ground arith;
      joined = cc;
    }

Parsed-parse :
    (p : Packet) (name : Text) (qtype : ℕ)
    → Parsed p name qtype
    → parse_dns_query p ≡ returned (name, qtype)
unfolding parse_dns_query
Parsed-parse p name qtype h =
    let long = h.is_long in
    let fits = h.inside in
    let some_label = h.some_label in
    let a : ltb (length p) 12 ≡ false = ground arith in
    let b : (null h.labels || ltb (length p) (h.stop + 4)) ≡ false = ground arith in
    rw (a, h.counted, h.some_question, h.read, b, h.typed, h.joined) refl

be16_same : (p r : Packet) (i : ℕ) → Agrees p r → 12 ≤ i → i + 1 < length r → be16 r i ≡ be16 p i
unfolding be16
be16_same p r i ag h lt =
    rw (ag.same_index i h (omega arith), ag.same_index (i + 1) (omega arith) lt) refl

name_skipped :
    (p : Packet) (name : Text) (qtype : ℕ)
    → length p ≤ usize_max
    → (h : Parsed p name qtype) → skip_dns_name p 12 ≡ returned h.stop
unfolding skip_dns_name
name_skipped p name qtype u h =
    let long = h.is_long in
    skip-read_labels (suc (length p)) (suc (length p)) p 12 h.stop [] h.labels u long (omega arith)
      (omega arith) h.inside h.read

questions_skipped :
    (p : Packet) (q : ℕ)
    → dns_question_end p ≡ returned q
    → (n : ℕ) × (be16 p 4 ≡ returned n) × (skip_questions n p 12 ≡ returned q)
unfolding dns_question_end
questions_skipped p q e =
    bind-eq-returned (be16 p 4) _ q (guarded-eq-returned (ltb (length p) 12) _ q e).1

-- The first question lies within the questions.
stop_inside :
    (p : Packet) (name : Text) (qtype q : ℕ)
    → length p ≤ usize_max
    → (h : Parsed p name qtype) → dns_question_end p ≡ returned q
    → h.stop + 4 ≤ q
stop_inside p name qtype q u h e =
    let (n, counted, skipped) = questions_skipped p q e in
    let some_question = h.some_question in
    let same : n ≡ h.count = cc (counted, h.counted) in
    let one_more : n ≡ suc (n - 1) = ground arith in
    questions_end (n - 1) p 12 h.stop q u h.inside (name_skipped p name qtype u h)
      (subst (λ m. skip_questions m p 12 ≡ returned q) one_more skipped)

-- If the questions of a packet of at most usize::MAX bytes can be skipped and its query parses,
-- then the empty response to it exists, and parsing the response gives the same name and type.
pub parse_dns_query-empty_dns_response :
    (p : Packet) (code q qtype : ℕ) (name : Text)
    → length p ≤ usize_max
    → dns_question_end p ≡ returned q
    → parse_dns_query p ≡ returned (name, qtype)
    → (r : Packet) × (empty_dns_response p code ≡ returned r)
      × (parse_dns_query r ≡ returned (name, qtype))
parse_dns_query-empty_dns_response p code q qtype name u ends parsed =
    let h = parse-Parsed p name qtype parsed in
    let in_q = stop_inside p name qtype q u h ends in
    let bounds =
      Ensures-returned (λ o. (12 ≤ o) × (o ≤ length p)) (dns_question_end p) q ends
        (dns_question_end-Ensures p) in
    let (ag, len, counted) = answered-Agrees p code q bounds.0 bounds.1 in
    let r : Packet = answered p code q in
    let long = h.is_long in
    let after = inside_step (suc (length p)) p 12 h.stop [] h.labels long (omega arith) h.read in
    (
      r,
      empty_dns_response_lem p code q ends,
      Parsed-parse r name qtype (record {
        count = h.count;
        stop = h.stop;
        labels = h.labels;
        is_long = omega arith;
        counted = counted ∙ h.counted;
        some_question = h.some_question;
        read =
            read_labels-Agrees (suc (length p)) (suc (length r)) p r 12 h.stop [] h.labels ag
              (omega arith) long (omega arith) (omega arith) (omega arith) h.read;
        some_label = h.some_label;
        inside = omega arith;
        typed = be16_same p r h.stop ag after (omega arith) ∙ h.typed;
        joined = h.joined;
      }),
    )

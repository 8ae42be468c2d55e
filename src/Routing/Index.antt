-- ===== src/Routing/Index.antt =====
-- What the indices hold: a map gives the first rule of its kinds with the key, and the keyword
-- list has the keyword rules in order.
use ssh_rocket.Base.{
  ℕ, suc, ◌≡◌, refl, sym, ◌∙◌, Bool, true, false, not, ◌&&◌, List, [], ◌∷◌, ◌++◌, append-nil,
  append_assoc, Option, none, some, if◌then◌else◌, Option-cases, arith, ap,
}
use ssh_rocket.Config.{
  RuleAction, DomainRuleKind, legacy, domain, domain_suffix, domain_keyword, DomainRule,
}
use ssh_rocket.Routing.{
  Entry, DomainMap, get, or_insert, Keyword, DomainIndex, clean_pattern, insert_rule, index_rule,
  index_rules,
}
use ssh_rocket.Routing.First.{first_at}
use ssh_rocket.Text.{Text, str_eq, is_empty}
use ssh_rocket.Text.Laws.{str_eq_iff}

abbrev or_else : Option Entry → Option Entry → Option Entry
or_else none e = e
or_else (some x) e = some x

get-or_insert :
    (m : DomainMap) (k j : Text) (e : Entry)
    → get (or_insert m k e) j ≡ or_else (get m j) (if str_eq k j then some e else none)
unfolding or_insert get
get-or_insert m k j e =
    ground (arith, str_eq_iff k j, Option-cases (get m k), Option-cases (get m j))

abbrev is_exact : DomainRuleKind → Bool
is_exact domain = true
is_exact _ = false

abbrev pub is_suffix : DomainRuleKind → Bool
is_suffix domain_suffix = true
is_suffix legacy = true
is_suffix _ = false

abbrev is_keyword : DomainRuleKind → Bool
is_keyword domain_keyword = true
is_keyword _ = false

-- The rule stands in the exact map, or in the suffix map, under the key.
abbrev pub exact_key : Text → DomainRule → Bool
exact_key k r =
    is_exact r.kind
    && (not (is_empty (clean_pattern r.pattern)) && str_eq (clean_pattern r.pattern) k)

abbrev pub suffix_key : Text → DomainRule → Bool
suffix_key k r =
    is_suffix r.kind
    && (not (is_empty (clean_pattern r.pattern)) && str_eq (clean_pattern r.pattern) k)

abbrev pub is_word : DomainRule → Bool
is_word r = is_keyword r.kind && not (is_empty (clean_pattern r.pattern))

abbrev pub word_at : ℕ → DomainRule → Keyword
word_at i r = record { index = i; word = clean_pattern r.pattern; action = r.action }

abbrev pub words_from : ℕ → List DomainRule → List Keyword
words_from i [] = []
words_from i (r ∷ rs) =
    if is_word r then word_at i r ∷ words_from (suc i) rs else words_from (suc i) rs

-- One round, seen through the maps, for each kind of rule.
module _ (i : ℕ) (a : RuleAction) (clean k : Text) (x : DomainIndex) where
  get-insert_rule_exact :
      (kd : DomainRuleKind)
      → get (insert_rule kd i clean a x).exact_domain_map k
        ≡ or_else
            (get x.exact_domain_map k)
            (if is_exact kd && str_eq clean k then some (i, a) else none)
  unfolding insert_rule
  get-insert_rule_exact domain = get-or_insert x.exact_domain_map clean k (i, a)
  get-insert_rule_exact _ = ground (arith, Option-cases (get x.exact_domain_map k))

  get-insert_rule_suffix :
      (kd : DomainRuleKind)
      → get (insert_rule kd i clean a x).suffix_domain_map k
        ≡ or_else
            (get x.suffix_domain_map k)
            (if is_suffix kd && str_eq clean k then some (i, a) else none)
  unfolding insert_rule
  get-insert_rule_suffix domain_suffix = get-or_insert x.suffix_domain_map clean k (i, a)
  get-insert_rule_suffix legacy = get-or_insert x.suffix_domain_map clean k (i, a)
  get-insert_rule_suffix _ = ground (arith, Option-cases (get x.suffix_domain_map k))

  insert_rule_words :
      (kd : DomainRuleKind)
      → (insert_rule kd i clean a x).keyword_rules
        ≡ x.keyword_rules
          ++ (if is_keyword kd then record { index = i; word = clean; action = a } ∷ [] else [])
  unfolding insert_rule
  insert_rule_words domain_keyword = refl
  insert_rule_words _ = sym (append-nil x.keyword_rules)

module _ (i : ℕ) (r : DomainRule) (x : DomainIndex) where
  get-index_rule_exact :
      (k : Text)
      → get (index_rule i r x).exact_domain_map k
        ≡ or_else (get x.exact_domain_map k) (if exact_key k r then some (i, r.action) else none)
  unfolding index_rule
  get-index_rule_exact k = ground (
    arith,
    get-insert_rule_exact i r.action (clean_pattern r.pattern) k x r.kind,
    Option-cases (get x.exact_domain_map k),
  )

  get-index_rule_suffix :
      (k : Text)
      → get (index_rule i r x).suffix_domain_map k
        ≡ or_else (get x.suffix_domain_map k) (if suffix_key k r then some (i, r.action) else none)
  unfolding index_rule
  get-index_rule_suffix k = ground (
    arith,
    get-insert_rule_suffix i r.action (clean_pattern r.pattern) k x r.kind,
    Option-cases (get x.suffix_domain_map k),
  )

  index_rule_words :
      (index_rule i r x).keyword_rules
      ≡ x.keyword_rules ++ (if is_word r then word_at i r ∷ [] else [])
  unfolding index_rule
  index_rule_words = ground (
    arith,
    insert_rule_words i r.action (clean_pattern r.pattern) [] x r.kind,
    append-nil x.keyword_rules,
  )

pub get-index_rules_exact :
    (k : Text) (i : ℕ) (rs : List DomainRule) (x : DomainIndex)
    → get (index_rules i rs x).exact_domain_map k
      ≡ or_else (get x.exact_domain_map k) (first_at (exact_key k) i rs)
unfolding index_rules
get-index_rules_exact k i [] x = ground (arith, Option-cases (get x.exact_domain_map k))
get-index_rules_exact k i (r ∷ rs) x = ground (
  arith,
  get-index_rules_exact k (suc i) rs (index_rule i r x),
  get-index_rule_exact i r x k,
  Option-cases (get x.exact_domain_map k),
)

pub get-index_rules_suffix :
    (k : Text) (i : ℕ) (rs : List DomainRule) (x : DomainIndex)
    → get (index_rules i rs x).suffix_domain_map k
      ≡ or_else (get x.suffix_domain_map k) (first_at (suffix_key k) i rs)
unfolding index_rules
get-index_rules_suffix k i [] x = ground (arith, Option-cases (get x.suffix_domain_map k))
get-index_rules_suffix k i (r ∷ rs) x = ground (
  arith,
  get-index_rules_suffix k (suc i) rs (index_rule i r x),
  get-index_rule_suffix i r x k,
  Option-cases (get x.suffix_domain_map k),
)

pub index_rules_words :
    (i : ℕ) (rs : List DomainRule) (x : DomainIndex)
    → (index_rules i rs x).keyword_rules ≡ x.keyword_rules ++ words_from i rs
unfolding index_rules
index_rules_words i [] x = sym (append-nil x.keyword_rules)
index_rules_words i (r ∷ rs) x =
    index_rules_words (suc i) rs (index_rule i r x)
    ∙ rw (index_rule_words i r x, append_assoc)
        (ap (λ w. x.keyword_rules ++ w) (regroup (is_word r)))
  where
    regroup :
        (b : Bool)
        → (if b then word_at i r ∷ [] else []) ++ words_from (suc i) rs
          ≡ (if b then word_at i r ∷ words_from (suc i) rs else words_from (suc i) rs)
    regroup true = refl
    regroup false = refl

-- ===== src/Routing/Domains.antt =====
-- `match_domain` over the indices of `new` gives the first rule that fits the domain.
use ssh_rocket.Base.{
  usize_max, ℕ, suc, ◌+◌, ◌≤◌, ◌<◌, ◌≡◌, refl, ◌∙◌, Bool, false, not, ◌&&◌, ◌||◌, List, [], ◌∷◌,
  Option, none, some, ◌==◌, if◌then◌else◌, Bool-cases, inl, inr, arith, length,
}
use ssh_rocket.Config.{DomainRule}
use ssh_rocket.Routing.{
  Entry, DomainMap, get, DomainIndex, clean_pattern, index_rules, empty_index, consider,
  match_suffixes, match_keywords, current_best_index, best_match, match_domain,
}
use ssh_rocket.Routing.First.{
  first_at, first_at-ext, IsFrom, first_at-IsFrom, consider-first_at, entry_action-first_at,
}
use ssh_rocket.Routing.Index.{
  exact_key, suffix_key, is_suffix, is_word, words_from, get-index_rules_exact,
  get-index_rules_suffix, index_rules_words,
}
use ssh_rocket.Routing.Spec.{fits, first_fit}
use ssh_rocket.Text.{Text, is_empty, ends_with, contains}
use ssh_rocket.Text.Laws.{str_eq_symm}

-- The suffix rule's pattern is the text behind some dot of the domain.
abbrev behind_dot : Text → DomainRule → Bool
behind_dot [] r = false
behind_dot (c ∷ rest) r = (c == b'.' && suffix_key rest r) || behind_dot rest r

behind_dot-ends_with :
    (d : Text) (r : DomainRule)
    → behind_dot d r ≡ (
        is_suffix r.kind
        && (not (is_empty (clean_pattern r.pattern))
            && ends_with d (b'.' ∷ clean_pattern r.pattern)))
unfolding ends_with
behind_dot-ends_with [] r = ground arith
behind_dot-ends_with (c ∷ d) r =
    ground (arith, behind_dot-ends_with d r, str_eq_symm d (clean_pattern r.pattern))

module _ (i : ℕ) (rs : List DomainRule) (m : DomainMap)
    (holds : (k : Text) → get m k ≡ first_at (suffix_key k) i rs) where
  consider_at :
      (p : DomainRule → Bool) (k : Text)
      → consider (first_at p i rs) (get m k) ≡ first_at (λ r. p r || suffix_key k r) i rs
  consider_at p k = rw (holds k) (consider-first_at p (suffix_key k) i rs)

  match_suffixes-first_at :
      (d : Text) (p : DomainRule → Bool)
      → match_suffixes m d (first_at p i rs) ≡ first_at (λ r. p r || behind_dot d r) i rs
  unfolding match_suffixes
  match_suffixes-first_at [] p = first_at-ext _ _ (λ r. ground arith) i rs
  match_suffixes-first_at (c ∷ d) p = elim (Bool-cases (c == b'.')) [
    | inl e ↦
        rw (e, consider_at p d)
          (match_suffixes-first_at d (λ r. p r || suffix_key d r)
            ∙ first_at-ext _ _ (λ r. ground arith) i rs)
    | inr e ↦ rw e (match_suffixes-first_at d p ∙ first_at-ext _ _ (λ r. ground arith) i rs)
  ]

-- No keyword rule at or behind the limit is read.
match_keywords-limit :
    (j i : ℕ) (rs : List DomainRule) (d : Text) (best : Option Entry)
    → i ≤ j
    → match_keywords (words_from j rs) d i best ≡ best
unfolding match_keywords
match_keywords-limit j i [] d best h = refl
match_keywords-limit j i (r ∷ rs) d best h =
    ground (arith, match_keywords-limit (suc j) i rs d best)

lt-current_best_index :
    (i : ℕ) (e : Option Entry) → IsFrom (suc i) e → i < usize_max → i < current_best_index e
unfolding current_best_index
lt-current_best_index i none h k = k
lt-current_best_index i (some (j, a)) h k = h

abbrev fits_word : Text → DomainRule → Bool
fits_word d r = is_word r && contains d (clean_pattern r.pattern)

-- The keyword loop improves a first rule to the first rule that passes its test or has a keyword
-- in the domain, while the positions stay below `usize::MAX`.
match_keywords-first_at :
    (p : DomainRule → Bool) (d : Text) (i : ℕ) (rs : List DomainRule)
    → i + length rs ≤ usize_max
    → match_keywords (words_from i rs) d (current_best_index (first_at p i rs)) (first_at p i rs)
      ≡ first_at (λ r. p r || fits_word d r) i rs
unfolding match_keywords current_best_index
match_keywords-first_at p d i [] h = refl
match_keywords-first_at p d i (r ∷ rs) h = elim (Bool-cases (p r)) [
  | inl e ↦ rw e (match_keywords-limit i i (r ∷ rs) d (some (i, r.action)) (omega arith))
  | inr e ↦ rw e (
      later (first_at p (suc i) rs) (match_keywords-first_at p d (suc i) rs (omega arith))
        (lt-current_best_index i _ (first_at-IsFrom p (suc i) rs) (omega arith)))
]
  where
    later :
        (best : Option Entry)
        → match_keywords (words_from (suc i) rs) d (current_best_index best) best
          ≡ first_at (λ r. p r || fits_word d r) (suc i) rs
        → i < current_best_index best
        → match_keywords (words_from i (r ∷ rs)) d (current_best_index best) best ≡ (
            if fits_word d r
            then some (i, r.action)
            else first_at (λ r. p r || fits_word d r) (suc i) rs)
    later best ih lt = ground arith

-- The three lookups of `match_domain`, as one test on a rule.
abbrev found : Text → DomainRule → Bool
found d r = ((exact_key d r || suffix_key d r) || behind_dot d r) || fits_word d r

found-fits : (d : Text) (r : DomainRule) → found d r ≡ fits d r
found-fits d r = ground (arith, behind_dot-ends_with d r, str_eq_symm d (clean_pattern r.pattern))

module _ (rs : List DomainRule) (bound : length rs ≤ usize_max) where
  abbrev pub built : DomainIndex
  built = index_rules 0 rs empty_index

  get_exact : (k : Text) → get built.exact_domain_map k ≡ first_at (exact_key k) 0 rs
  get_exact k = get-index_rules_exact k 0 rs empty_index ∙ unfold get in refl

  get_suffix : (k : Text) → get built.suffix_domain_map k ≡ first_at (suffix_key k) 0 rs
  get_suffix k = get-index_rules_suffix k 0 rs empty_index ∙ unfold get in refl

  before_keywords :
      (d : Text)
      → match_suffixes built.suffix_domain_map d
          (consider (get built.exact_domain_map d) (get built.suffix_domain_map d))
        ≡ first_at (λ r. (exact_key d r || suffix_key d r) || behind_dot d r) 0 rs
  before_keywords d =
      rw (get_exact d, get_suffix d, consider-first_at (exact_key d) (suffix_key d) 0 rs)
        (match_suffixes-first_at 0 rs built.suffix_domain_map get_suffix d
          (λ r. exact_key d r || suffix_key d r))

  best_match-first_at : (d : Text) → best_match built d ≡ first_at (fits d) 0 rs
  unfolding best_match
  best_match-first_at d =
      rw (before_keywords d, index_rules_words 0 rs empty_index)
        (match_keywords-first_at _ d 0 rs (omega arith) ∙ first_at-ext _ _ (found-fits d) 0 rs)

  -- For a list of at most usize::MAX domain rules and any domain, match_domain over the indices of
  -- new returns the action of the first rule of the list that fits the domain, and none if no rule
  -- fits.
  pub match_domain-first_fit : (d : Text) → match_domain built d ≡ first_fit rs d
  unfolding match_domain
  match_domain-first_fit d = rw (best_match-first_at d) (entry_action-first_at (fits d) 0 rs)

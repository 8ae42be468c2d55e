-- ===== src/RuleManager/Imports.antt =====
-- What an import that succeeds has.
use ssh_rocket.Config.{RuleAction}
use ssh_rocket.Base.{
  ◌+◌, ◌≤◌, ◌≡◌, refl, true, List, [], ◌∷◌, arith, ltb, ◌==◌, length, take, inl, inr, Bool-cases,
}
use ssh_rocket.Net.{IpNet}
use ssh_rocket.Text.{Text, codes, starts_with}
use ssh_rocket.Importer.{RuleSetReference, RuleImportResult, rule_count, merge}
use ssh_rocket.Importer.Clean.{IsClean, merge-IsClean}
use ssh_rocket.Importer.CleanLists.{parse_shadowrocket_rules-IsClean, parse_rule_set-IsClean}
use ssh_rocket.Importer.Shadowrocket.{parse_shadowrocket_rules, parse_rule_set}
use ssh_rocket.RuleManager.{
  Result, ok, err, CurlRun, download_rule_text, add_rule_set, add_rule_sets, note_left_out,
  checked_import, import_content, import_rule_source,
}

module _ {N : Type 0} (net : IpNet N) (curl : List Text → CurlRun) where
  -- A clean result with the references of the source.
  abbrev Keeps : List RuleSetReference → RuleImportResult N → Type 0
  Keeps references r = IsClean net r × (r.rule_sets ≡ references)

  add_rule_set-Keeps :
      (a : RuleAction) (r : RuleImportResult N) (t : Result Text)
      (references : List RuleSetReference)
      → Keeps references r
      → Keeps references (add_rule_set net curl a r t)
  add_rule_set-Keeps a r (ok content) references (c, e) = (
    merge-IsClean net r (parse_rule_set net content a) c (parse_rule_set-IsClean net content a),
    unfold merge in e,
  )
  add_rule_set-Keeps a r (err error) references (c, e) = (unfold IsClean in c, e)

  add_rule_sets-Keeps :
      (xs : List RuleSetReference) (r : RuleImportResult N) (references : List RuleSetReference)
      → Keeps references r
      → Keeps references (add_rule_sets net curl xs r)
  unfolding add_rule_sets
  add_rule_sets-Keeps [] r references h = h
  add_rule_sets-Keeps (x ∷ xs) r references h =
      add_rule_sets-Keeps xs _ references
        (add_rule_set-Keeps x.action r (download_rule_text net curl x.url) references h)

  -- The source is read over HTTPS, the result is clean and not empty, and the references beyond the
  -- eighth are counted as left out.
  abbrev pub IsImported : Text → RuleImportResult N → Type 0
  IsImported url r =
      (starts_with url (codes "https://") ≡ true)
      × IsClean net r
      × (1 ≤ rule_count r)
      × (length r.rule_sets ≤ r.ignored_count + 8)

  abbrev pub OnSuccess : (RuleImportResult N → Type 0) → Result (RuleImportResult N) → Type 0
  OnSuccess P (ok r) = P r
  OnSuccess P (err e) = Unit

  -- What an import checks last.
  abbrev IsSource : RuleImportResult N → Type 0
  IsSource r = IsClean net r × (length r.rule_sets ≤ r.ignored_count + 8)

  note_left_out-IsSource :
      (r : RuleImportResult N) → IsClean net r → IsSource (note_left_out net curl r)
  unfolding note_left_out
  note_left_out-IsSource r c = elim (Bool-cases (ltb 8 (length r.rule_sets))) [
    | inl e ↦ rw e (unfold IsClean in c, omega arith)
    | inr e ↦ rw e (c, ground (arith, e))
  ]

  checked_import-OnSuccess :
      (url : Text) (r : RuleImportResult N)
      → starts_with url (codes "https://") ≡ true
      → IsSource r
      → OnSuccess (IsImported url) (checked_import net curl r)
  unfolding checked_import
  checked_import-OnSuccess url r h (c, l) = elim (Bool-cases (rule_count r == 0)) [
    | inl e ↦ rw e tt
    | inr e ↦ rw e (h, c, ground (arith, e), l)
  ]

  import_content-OnSuccess :
      (url : Text) (t : Result Text)
      → starts_with url (codes "https://") ≡ true
      → OnSuccess (IsImported url) (import_content net curl t)
  import_content-OnSuccess url (err e) h = tt
  import_content-OnSuccess url (ok content) h =
      let r = parse_shadowrocket_rules net content in
      checked_import-OnSuccess url _ h (
        note_left_out-IsSource _
          (add_rule_sets-Keeps (take 8 r.rule_sets) r r.rule_sets
            (parse_shadowrocket_rules-IsClean net content, refl)).0)

  -- Whatever curl answers, an import that succeeds was asked for over HTTPS, has at least one
  -- rule, has no pattern that is empty, ends with a dot or is not in lower case, lists no pattern
  -- of a kind and no network twice, and counts every reference beyond the eighth as left out.
  pub import_rule_source-OnSuccess :
      (url : Text) → OnSuccess (IsImported url) (import_rule_source net curl url)
  unfolding import_rule_source
  import_rule_source-OnSuccess url = elim (Bool-cases (starts_with url (codes "https://"))) [
    | inl e ↦ rw e (import_content-OnSuccess url (download_rule_text net curl url) e)
    | inr e ↦ rw e tt
  ]

-- ===== src/Config/Sensitivity/Details.antt =====
-- pdsno/config/sensitivity_classifier.py: `classify` beside `classify_with_details`.
use partially_distributed_sm.Common.{
  Bool-cases, List, String, [], inl, inr, not, refl, string_eq, ◌∷◌, ◌≡◌,
}
use partially_distributed_sm.Config.Sensitivity.Classifier.{
  Classifier, Regex, any_found, classify, classify_with_details, is_empty, join_lines, matched,
  some_match,
}

module _ {Match : Type 0} (rx : Regex Match) where
  -- `findall` lists something exactly where `search` finds something.
  abbrev pub FindsWhatMatches : Type 0
  FindsWhatMatches =
      (pattern text : String) → any_found (rx.findall pattern text) ≡ rx.search pattern text

  matched-empty :
      FindsWhatMatches
      → (qs : List String) (text : String)
      → not (is_empty (matched rx qs text)) ≡ some_match rx qs text
  unfolding matched some_match
  matched-empty finds [] text = refl
  matched-empty finds (q ∷ qs) text = elim (Bool-cases (rx.search q text)) [
    | inl hit ↦ rw (finds q text, hit) refl
    | inr miss ↦ rw (finds q text, miss) (matched-empty finds qs text)
  ]

  -- Where `findall` lists something exactly if `search` finds something, both classifications of one or more lines give the same level.
  pub classify-details :
      FindsWhatMatches
      → (c : Classifier) (line : String) (lines : List String)
      → (classify_with_details rx c (line ∷ lines)).sensitivity ≡ classify rx c (line ∷ lines)
  unfolding classify classify_with_details
  classify-details finds c line lines =
      let text = join_lines (line ∷ lines) in
      let h : not (is_empty (matched rx c.high_regex text)) ≡ some_match rx c.high_regex text =
        matched-empty finds c.high_regex text in
      let m : not (is_empty (matched rx c.medium_regex text)) ≡ some_match rx c.medium_regex text =
        matched-empty finds c.medium_regex text in
      elim (Bool-cases (some_match rx c.high_regex text)) [
        | inl hit ↦ rw (h, hit) refl
        | inr miss ↦ elim (Bool-cases (some_match rx c.medium_regex text)) [
          | inl hit₂ ↦ rw (h, miss, m, hit₂) refl
          | inr miss₂ ↦ rw (h, miss, m, miss₂) refl
        ]
      ]

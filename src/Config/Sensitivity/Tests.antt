-- ===== src/Config/Sensitivity/Tests.antt =====
-- pdsno/config/sensitivity_classifier.py: classifications with patterns that are read as plain
-- texts.
use partially_distributed_sm.Common.{
  Bool, String, [], codes, false, if◌then◌else◌, is_infix, non_empty, refl, string_eq, true, ◌∷◌,
  ◌≡◌,
}
use partially_distributed_sm.Config.Sensitivity.{high}
use partially_distributed_sm.Config.Sensitivity.Classifier.{
  Regex, any_found, classify, classify_with_details, new_classifier, some_match,
}
use partially_distributed_sm.Config.Sensitivity.Details.{FindsWhatMatches, classify-details}

abbrev plain : Regex String
plain = record {
  compiles = non_empty;
  search = λ q text. is_infix (codes q) (codes text);
  findall = λ q text. if is_infix (codes q) (codes text) then q ∷ [] else [];
}

plain-FindsWhatMatches : FindsWhatMatches plain
plain-FindsWhatMatches q text = listed (is_infix (codes q) (codes text))
  where
    listed : (b : Bool) → any_found (if b then q ∷ [] else []) ≡ b
    listed true = refl
    listed false = refl

firewall_is_high : classify plain new_classifier ("no firewall" ∷ "end" ∷ []) ≡ high
unfolding classify some_match
firewall_is_high = refl

classify-details_example :
    (classify_with_details plain new_classifier ("no firewall" ∷ "end" ∷ [])).sensitivity
    ≡ classify plain new_classifier ("no firewall" ∷ "end" ∷ [])
classify-details_example =
    classify-details plain plain-FindsWhatMatches new_classifier "no firewall" ("end" ∷ [])

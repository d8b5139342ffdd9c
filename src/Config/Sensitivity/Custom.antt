-- ===== src/Config/Sensitivity/Custom.antt =====
-- pdsno/config/sensitivity_classifier.py: custom patterns and their effect.
use partially_distributed_sm.Common.{
  Bool, List, String, [], arith, false, if◌then◌else◌, none, refl, some, string_eq, true, ◌++◌,
  ◌||◌, ◌∷◌, ◌≡◌,
}
use partially_distributed_sm.Config.Sensitivity.{SensitivityLevel, high, low, medium}
use partially_distributed_sm.Config.Sensitivity.Classifier.{
  Classifier, Regex, add_custom_pattern, classify, classify_text, join_lines, some_match,
  store_pattern,
}

-- The higher of two levels.
abbrev pub higher : SensitivityLevel → SensitivityLevel → SensitivityLevel
higher high b = high
higher medium high = high
higher medium _ = medium
higher low b = b

module _ {Match : Type 0} (rx : Regex Match) where
  some_match-append :
      (qs : List String) (q text : String)
      → some_match rx (qs ++ q ∷ []) text ≡ (some_match rx qs text || rx.search q text)
  unfolding some_match
  some_match-append [] q text = ground arith
  some_match-append (p ∷ qs) q text = ground (arith, some_match-append qs q text)

  classify-store :
      (pattern : String) (s : SensitivityLevel) (c : Classifier) (text : String)
      → classify_text rx (store_pattern pattern s c) text
        ≡ higher (classify_text rx c text) (if rx.search pattern text then s else low)
  classify-store pattern high c text = rw (some_match-append c.high_regex pattern text) (
      raise_high (some_match rx c.high_regex text) (some_match rx c.medium_regex text)
        (rx.search pattern text))
    where
      raise_high :
          (h m q : Bool)
          → (if h || q then high else if m then medium else low)
            ≡ higher (if h then high else if m then medium else low) (if q then high else low)
      raise_high true m q = ground arith
      raise_high false true true = refl
      raise_high false true false = refl
      raise_high false false q = ground arith
  classify-store pattern medium c text = rw (some_match-append c.medium_regex pattern text) (
      raise_medium (some_match rx c.high_regex text) (some_match rx c.medium_regex text)
        (rx.search pattern text))
    where
      raise_medium :
          (h m q : Bool)
          → (if h then high else if m || q then medium else low)
            ≡ higher (if h then high else if m then medium else low) (if q then medium else low)
      raise_medium true m q = ground arith
      raise_medium false true true = refl
      raise_medium false true false = refl
      raise_medium false false q = ground arith
  classify-store pattern low c text =
      keep (some_match rx c.high_regex text) (some_match rx c.medium_regex text)
        (rx.search pattern text)
    where
      keep :
          (h m q : Bool)
          → (if h then high else if m then medium else low)
            ≡ higher (if h then high else if m then medium else low) (if q then low else low)
      keep true m q = ground arith
      keep false true true = refl
      keep false true false = refl
      keep false false q = ground arith

  -- A custom pattern that compiles raises the classification of the lines that it is found in to
  -- its own level, where that is the higher one, and changes nothing else; no classification gets
  -- lower. A pattern that does not compile is refused.
  pub classify-add_custom_pattern :
      (pattern : String) (s : SensitivityLevel) (c : Classifier) (line : String)
      (lines : List String)
      → (rx.compiles pattern ≡ false → add_custom_pattern rx pattern s c ≡ none)
        × (rx.compiles pattern ≡ true
            → (c' : Classifier) × (add_custom_pattern rx pattern s c ≡ some c')
              × (classify rx c' (line ∷ lines)
                  ≡ higher
                      (classify rx c (line ∷ lines))
                      (if rx.search pattern (join_lines (line ∷ lines)) then s else low)))
  unfolding add_custom_pattern classify
  classify-add_custom_pattern pattern s c line lines = (
    λ bad. rw bad refl,
    λ good. (
      store_pattern pattern s c,
      rw good refl,
      classify-store pattern s c (join_lines (line ∷ lines)),
    ),
  )

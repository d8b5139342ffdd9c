-- ===== src/Config/Sensitivity/Classifier.antt =====
-- pdsno/config/sensitivity_classifier.py: `ConfigSensitivityClassifier`. Python's `re` is a
-- parameter; a compiled pattern is its text, compiled with `IGNORECASE`. Log lines are left out.
use partially_distributed_sm.Common.{
  Bool, List, Option, String, [], append_text, false, if◌then◌else◌, none, not, some, string_eq,
  true, ◌++◌, ◌||◌, ◌∷◌,
}
use partially_distributed_sm.Config.Sensitivity.{SensitivityLevel, high, low, medium}

-- `Match` is what `findall` lists: a text, or a tuple of texts for a pattern with several groups.
pub record Regex (Match : Type 0) : Type 0 where
  -- `re.compile`: whether it takes the pattern, and does not raise.
  pub compiles : String → Bool
  -- `pattern.search(text)` is not `None`.
  pub search : String → String → Bool
  pub findall : String → String → List Match

pub record Classifier : Type 0 where
  pub high_regex : List String
  pub medium_regex : List String
  pub low_regex : List String

abbrev pub high_patterns : List String
high_patterns =
    "router\\s+(bgp|ospf|eigrp)" ∷ "ip\\s+route" ∷ "access-list\\s+\\d+" ∷ "firewall" ∷ "crypto"
    ∷ "spanning-tree" ∷ "interface\\s+loopback" ∷ "no\\s+ip\\s+routing"
    ∷ "shutdown.*interface\\s+(gigabitethernet|tengigabitethernet)" ∷ "delete\\s+vlan" ∷ "aaa\\s+"
    ∷ "snmp-server\\s+community" ∷ []

abbrev pub medium_patterns : List String
medium_patterns =
    "vlan\\s+\\d+" ∷ "interface\\s+vlan" ∷ "switchport\\s+mode" ∷ "switchport\\s+access\\s+vlan"
    ∷ "qos" ∷ "bandwidth" ∷ "storm-control" ∷ "port-security"
    ∷ "interface\\s+(fastethernet|ethernet)" ∷ []

abbrev pub low_patterns : List String
low_patterns =
    "description\\s+" ∷ "hostname\\s+" ∷ "logging\\s+" ∷ "snmp-server\\s+location"
    ∷ "snmp-server\\s+contact" ∷ "banner\\s+" ∷ "alias\\s+" ∷ []

-- `__init__`
abbrev pub new_classifier : Classifier
new_classifier = record {
  high_regex = high_patterns;
  medium_regex = medium_patterns;
  low_regex = low_patterns;
}

-- `'\n'.join(config_lines)`
abbrev pub join_lines : List String → String
join_lines [] = ""
join_lines (l ∷ []) = l
join_lines (l ∷ k ∷ ls) = append_text l (append_text "\n" (join_lines (k ∷ ls)))

-- `re.compile(pattern)` raises before anything is stored.
abbrev pub store_pattern : String → SensitivityLevel → Classifier → Classifier
store_pattern pattern high c = record c { high_regex = c.high_regex ++ pattern ∷ [] }
store_pattern pattern medium c = record c { medium_regex = c.medium_regex ++ pattern ∷ [] }
store_pattern pattern low c = record c { low_regex = c.low_regex ++ pattern ∷ [] }

pub record Details (Match : Type 0) : Type 0 where
  pub sensitivity : SensitivityLevel
  pub matched_patterns : List String
  pub high_risk_commands : List Match
  pub reasoning : String

abbrev pub is_empty : List String → Bool
is_empty [] = true
is_empty (x ∷ xs) = false

abbrev pub any_found : {Match : Type 0} → List Match → Bool
any_found [] = false
any_found (x ∷ xs) = true

module _ {Match : Type 0} (rx : Regex Match) where
  -- `none` is the `re.error` of `re.compile`.
  unfoldable pub add_custom_pattern : String → SensitivityLevel → Classifier → Option Classifier
  add_custom_pattern pattern sensitivity c =
      if rx.compiles pattern then some (store_pattern pattern sensitivity c) else none

  -- `for pattern in regex: if pattern.search(text): return`
  unfoldable pub some_match : List String → String → Bool
  some_match [] text = false
  some_match (q ∷ qs) text = rx.search q text || some_match qs text

  abbrev pub classify_text : Classifier → String → SensitivityLevel
  classify_text c text =
      if some_match c.high_regex text
      then high
      else if some_match c.medium_regex text
      then medium
      else low

  unfoldable pub classify : Classifier → List String → SensitivityLevel
  classify c [] = low
  classify c (l ∷ ls) = classify_text c (join_lines (l ∷ ls))

  -- The patterns of a list that `findall` finds.
  unfoldable pub matched : List String → String → List String
  matched [] text = []
  matched (q ∷ qs) text =
      let rest = matched qs text in if any_found (rx.findall q text) then q ∷ rest else rest

  unfoldable pub commands : List String → String → List Match
  commands [] text = []
  commands (q ∷ qs) text = rx.findall q text ++ commands qs text

  abbrev pub details_of_text : Classifier → String → Details Match
  details_of_text c text =
      if not (is_empty (matched c.high_regex text))
      then record {
        sensitivity = high;
        matched_patterns = matched c.high_regex text;
        high_risk_commands = commands c.high_regex text;
        reasoning =
            "Contains high-impact commands affecting routing, security, or critical services";
      }
      else if not (is_empty (matched c.medium_regex text))
      then record {
        sensitivity = medium;
        matched_patterns = matched c.medium_regex text;
        high_risk_commands = [];
        reasoning = "Contains moderate-impact commands affecting VLANs, interfaces, or QoS";
      }
      else record {
        sensitivity = low;
        matched_patterns = [];
        high_risk_commands = [];
        reasoning = "Contains only low-impact commands (descriptions, monitoring, cosmetic)";
      }

  unfoldable pub classify_with_details : Classifier → List String → Details Match
  classify_with_details c lines = details_of_text c (join_lines lines)

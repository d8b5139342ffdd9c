-- ===== src/Common/Text.antt =====
-- Text as Python reads it: case folding and substring tests, by code points.
use Prim.Native.Nat.{ℕ, ◌+◌, ◌-◌}
use Prim.Native.Char.{code}
use Prim.Native.String.{String}
use mathlib.Core.Path.{◌≡◌, refl, ap}
use text.Mathlib.TextEquality.{Char-path}
use mathlib.Core.Logic.{◌⊎◌, inl, inr}
use mathlib.Core.Bool.{Bool, true, false, ◌&&◌, ◌||◌}
use native.Mathlib.Omega.{arith}
use mathlib.Core.List.{List, [], ◌∷◌, map}
use partially_distributed_sm.Common.Tests.{leb, ltb, nat_beq, Bool-cases, if◌then◌else◌}

abbrev pub codes : String → List ℕ
codes String.[] = []
codes (String.◌∷◌ c s) = code c ∷ codes s

-- `str.lower` on one code point. The letters outside ASCII stay as they are: no capital of
-- theirs has an ASCII letter alone for its lower case, but the Kelvin sign, which becomes a `k`.
abbrev pub lower_code : ℕ → ℕ
lower_code c = if leb b'A' c && leb c b'Z' then c + 32 else c

abbrev pub lower : String → List ℕ
lower s = map lower_code (codes s)

abbrev pub is_prefix : List ℕ → List ℕ → Bool
is_prefix [] ys = true
is_prefix (x ∷ xs) [] = false
is_prefix (x ∷ xs) (y ∷ ys) = nat_beq x y && is_prefix xs ys

-- `needle in text`
abbrev pub is_infix : List ℕ → List ℕ → Bool
is_infix needle [] = is_prefix needle []
is_infix needle (y ∷ ys) = is_prefix needle (y ∷ ys) || is_infix needle ys

-- Whether a text is non-empty, as Python's truth test of a `str` reads it.
abbrev pub non_empty : String → Bool
non_empty String.[] = false
non_empty (String.◌∷◌ c s) = true

-- `str.upper` on one code point, for the letters of ASCII.
abbrev pub upper_code : ℕ → ℕ
upper_code c = if leb b'a' c && leb c b'z' then c - 32 else c

abbrev pub upper : String → List ℕ
upper s = map upper_code (codes s)

abbrev pub same_codes : List ℕ → List ℕ → Bool
same_codes [] [] = true
same_codes (x ∷ xs) (y ∷ ys) = nat_beq x y && same_codes xs ys
same_codes _ _ = false

-- Whether a list of code points spells a text.
abbrev pub is_text : String → List ℕ → Bool
is_text s xs = same_codes (codes s) xs

-- `s + t`
abbrev pub append_text : String → String → String
append_text String.[] t = t
append_text (String.◌∷◌ c s) t = String.◌∷◌ c (append_text s t)

-- Python's `s < t` on texts, by code points.
abbrev pub codes_before : List ℕ → List ℕ → Bool
codes_before [] [] = false
codes_before [] (y ∷ ys) = true
codes_before (x ∷ xs) [] = false
codes_before (x ∷ xs) (y ∷ ys) = ltb x y || (nat_beq x y && codes_before xs ys)

abbrev pub text_before : String → String → Bool
text_before s t = codes_before (codes s) (codes t)

codes_before-asym : (xs ys : List ℕ) → codes_before xs ys ≡ true → codes_before ys xs ≡ false
codes_before-asym [] [] h = refl
codes_before-asym [] (y ∷ ys) h = refl
codes_before-asym (x ∷ xs) [] h = cc
codes_before-asym (x ∷ xs) (y ∷ ys) h = ground (arith, codes_before-asym xs ys)

codes_before-total :
    (xs ys : List ℕ) → codes_before xs ys ≡ false → codes_before ys xs ≡ false → xs ≡ ys
codes_before-total [] [] h k = refl
codes_before-total [] (y ∷ ys) h k = cc
codes_before-total (x ∷ xs) [] h k = cc
codes_before-total (x ∷ xs) (y ∷ ys) h k = ground (arith, codes_before-total xs ys)

-- Of two texts, one comes before the other and not the other way about, or neither does and they
-- have the same code points.
pub text_before-cases :
    (s t : String)
    → ((text_before s t ≡ true) × (text_before t s ≡ false))
      ⊎ ((text_before s t ≡ false) × (text_before t s ≡ true))
      ⊎ ((text_before s t ≡ false) × (text_before t s ≡ false) × (codes s ≡ codes t))
text_before-cases s t = elim (Bool-cases (text_before s t)) [
  | inl before ↦ inl (before, codes_before-asym (codes s) (codes t) before)
  | inr other ↦ elim (Bool-cases (text_before t s)) [
    | inl after ↦ inr (inl (other, after))
    | inr same ↦ inr (inr (other, same, codes_before-total (codes s) (codes t) other same))
  ]
]

head_or_zero : List ℕ → ℕ
head_or_zero [] = 0
head_or_zero (x ∷ xs) = x

rest_of : List ℕ → List ℕ
rest_of [] = []
rest_of (x ∷ xs) = xs

-- A text is given by its code points.
pub text_of_codes : (s t : String) → codes s ≡ codes t → s ≡ t
unfolding head_or_zero rest_of
text_of_codes String.[] String.[] h = refl
text_of_codes String.[] (String.◌∷◌ d t) h = cc
text_of_codes (String.◌∷◌ c s) String.[] h = cc
text_of_codes (String.◌∷◌ c s) (String.◌∷◌ d t) h =
    λ i. String.◌∷◌ (Char-path c d (ap head_or_zero h) i) (text_of_codes s t (ap rest_of h) i)

-- `str.isascii`, by code points.
abbrev pub is_ascii : List ℕ → Bool
is_ascii [] = true
is_ascii (c ∷ cs) = ltb c 128 && is_ascii cs

-- ===== src/Fixtures.antt =====
-- A concrete platform for the tests: a timestamp is written as a `T` and that many strokes, and
-- a digest is the nonce of the fields behind a mark.
use partially_distributed_sm.Common.{
  List, Option, String, [], ap, lookup, non_empty, none, refl, some, string_eq, suc, sym, true,
  zero, ℕ, ◌∙◌, ◌∷◌, ◌≡◌,
}
use partially_distributed_sm.Platform.{Fields, HasDigits, Platform, ReadsBack, TellsApart}
use mathlib.Core.Option

abbrev pub strokes : ℕ → String
strokes zero = ""
strokes (suc n) = String.◌∷◌ "|" (strokes n)

abbrev pub count_strokes : String → ℕ
count_strokes String.[] = 0
count_strokes (String.◌∷◌ c s) = suc (count_strokes s)

pub count-strokes : (n : ℕ) → count_strokes (strokes n) ≡ n
count-strokes zero = refl
count-strokes (suc n) = ap suc (count-strokes n)

abbrev pub write_time : ℕ → String
write_time t = String.◌∷◌ "T" (strokes t)

abbrev pub read_time : String → Option ℕ
read_time String.[] = none
read_time (String.◌∷◌ c s) = some (count_strokes s)

abbrev pub digest : List ℕ → Fields → String
digest key fields = String.◌∷◌ "#" (Option.get_or (Option.get_or (lookup "nonce" fields) none) "")

abbrev pub platform : Platform
platform = record {
  isoformat = write_time;
  fromisoformat = read_time;
  hmac_hexdigest = digest;
  hmac_text = λ key text. String.◌∷◌ "#" text;
  json_text = λ d. "{}";
  upper_text = λ s. s;
  decimal = strokes;
}

pub platform-ReadsBack : ReadsBack platform
platform-ReadsBack t = ap some (count-strokes t)

pub platform-HasDigits : HasDigits platform
platform-HasDigits key fields = refl

pub platform-writes_text : (t : ℕ) → non_empty (platform.isoformat t) ≡ true
platform-writes_text t = refl

-- A secret of 32 bytes.
abbrev pub repeat : ℕ → List ℕ
repeat zero = []
repeat (suc n) = n ∷ repeat n

abbrev pub secret : List ℕ
secret = repeat 32

pub platform-TellsApart : TellsApart platform
platform-TellsApart m n e = sym (count-strokes m) ∙ ap count_strokes e ∙ count-strokes n

-- The same with timestamps that are not written out unless a test says so.
unfoldable pub stamp : ℕ → String
stamp t = write_time t

unfoldable pub unstamp : String → Option ℕ
unstamp s = read_time s

abbrev pub stamped : Platform
stamped = record platform { isoformat = stamp; fromisoformat = unstamp }

pub stamped-ReadsBack : ReadsBack stamped
unfolding stamp unstamp
stamped-ReadsBack t = ap some (count-strokes t)

pub stamped-HasDigits : HasDigits stamped
stamped-HasDigits key fields = refl

pub stamped-TellsApart : TellsApart stamped
stamped-TellsApart = platform-TellsApart

-- ===== src/Platform.antt =====
-- What the program takes from Python's standard library and does not implement: the text of a
-- timestamp, and the keyed digest of a dictionary that is written as canonical JSON (sorted keys,
-- no spaces). Times are microseconds since the epoch, all in UTC.
use partially_distributed_sm.Common.{
  Bool, Dict, List, Option, String, codes, if◌then◌else◌, is_ascii, non_empty, none, some,
  string_eq, true, ℕ, ◌*◌, ◌==◌, ◌≡◌,
}

-- The values of a dictionary that is signed: a text, or `None`.
abbrev pub Fields : Type 0
Fields = Dict String (Option String)

pub record Platform : Type 0 where
  -- `datetime.isoformat` and `datetime.fromisoformat`; `none` is its `ValueError`.
  pub isoformat : ℕ → String
  pub fromisoformat : String → Option ℕ
  -- `hmac.new(key, json.dumps(fields, sort_keys=True, …).encode(), sha256).hexdigest()`
  pub hmac_hexdigest : List ℕ → Fields → String
  -- `hmac.new(key, text.encode(), sha256).hexdigest()`
  pub hmac_text : List ℕ → String → String
  -- `json.dumps(d, sort_keys=True)` for a dictionary of texts and `None`
  pub json_text : Fields → String
  -- `str.upper`; `upper` of Common/Text gives the code points of it
  pub upper_text : String → String
  -- `str(n)`
  pub decimal : ℕ → String

-- A timestamp is read back from its text.
abbrev pub ReadsBack : Platform → Type 0
ReadsBack p = (t : ℕ) → p.fromisoformat (p.isoformat t) ≡ some t

-- A digest is 64 hexadecimal digits, so it is not the empty text.
abbrev pub HasDigits : Platform → Type 0
HasDigits p = (key : List ℕ) (fields : Fields) → non_empty (p.hmac_hexdigest key fields) ≡ true

abbrev pub microseconds_per_second : ℕ
microseconds_per_second = 1000000

-- `timedelta(minutes=n)`
abbrev pub minutes : ℕ → ℕ
minutes n = n * 60 * microseconds_per_second

-- Different numbers have different texts.
abbrev pub TellsApart : Platform → Type 0
TellsApart p = (m n : ℕ) → p.decimal m ≡ p.decimal n → m ≡ n

-- `hmac.compare_digest(claimed, expected)`, which takes texts of ASCII characters alone; `none` is
-- its `TypeError`.
unfoldable pub compare_digest : Option String → String → Option Bool
compare_digest none expected = none
compare_digest (some claimed) expected =
    if is_ascii (codes claimed) then some (claimed == expected) else none

-- ===== src/Config/Token.antt =====
-- pdsno/config/execution_token.py: the tokens that authorise one execution on one device, and
-- the manager that issues and verifies them. `bytes` are lists of numbers; a set of nonces is a
-- list without repetitions. The texts of the refusals are constructors.
pub mod Verify
pub mod Replay
pub mod Codec
mod Tests
use partially_distributed_sm.Common.{
  Bool, List, Option, String, [], elem, erase, false, if◌then◌else◌, leb, length, lookup, ltb,
  nat_eq, non_empty, none, not, some, string_eq, ℕ, ◌&&◌, ◌+◌, ◌-◌, ◌==◌, ◌∷◌,
}
use partially_distributed_sm.Platform.{Fields, Platform, minutes}
use mathlib.Core.Option

pub record ExecutionToken : Type 0 where
  pub token_id : String
  pub request_id : String
  pub device_id : String
  pub issued_by : String
  pub issued_at : ℕ
  pub expires_at : ℕ
  pub nonce : String
  pub signature : Option String

pub record ExecutionTokenManager : Type 0 where
  pub controller_id : String
  pub shared_secret : List ℕ
  pub used_nonces : List String
  pub nonce_cleanup_counter : ℕ

-- The reasons for which `verify_token` refuses, in the order of its checks. `expired` holds the
-- age, `wrong_device` the token's device and the expected one.
pub data Refusal : Type 0 where
  no_signature bad_signature : Refusal
  expired : ℕ → Refusal
  replayed : Refusal
  wrong_device : String → String → Refusal

abbrev pub default_token_lifetime_minutes : ℕ
default_token_lifetime_minutes = 15

abbrev pub cleanup_threshold : ℕ
cleanup_threshold = 1000

-- `__init__`; `none` is its `ValueError`.
unfoldable pub new_manager : String → List ℕ → Option ExecutionTokenManager
new_manager controller_id shared_secret =
    if ltb (length shared_secret) 32
    then none
    else some (record {
      controller_id = controller_id;
      shared_secret = shared_secret;
      used_nonces = [];
      nonce_cleanup_counter = 0;
    })

-- `validity_minutes or DEFAULT_TOKEN_LIFETIME_MINUTES`: zero counts as absent.
abbrev pub or_default : Option ℕ → ℕ
or_default none = default_token_lifetime_minutes
or_default (some validity) = if validity == 0 then default_token_lifetime_minutes else validity

-- Python's truth test of an optional text.
abbrev pub present : Option String → Bool
present none = false
present (some s) = non_empty s

unfoldable pub cleanup_nonces : ExecutionTokenManager → ExecutionTokenManager
cleanup_nonces m =
    let n = m.nonce_cleanup_counter + 1 in
    if leb cleanup_threshold n
    then record m { used_nonces = []; nonce_cleanup_counter = 0 }
    else record m { nonce_cleanup_counter = n }

-- `used_nonces.add(nonce)`
unfoldable pub add_nonce : String → ExecutionTokenManager → ExecutionTokenManager
add_nonce nonce m =
    if elem nonce m.used_nonces then m else record m { used_nonces = nonce ∷ m.used_nonces }

-- `expected_device and token.device_id != expected_device`
unfoldable pub device_mismatch : Option String → String → Option Refusal
device_mismatch none device = none
device_mismatch (some expected) device =
    if non_empty expected && not (device == expected)
    then some (wrong_device device expected)
    else none

-- `revoke_token` only writes a log line.
unfoldable pub revoke_token : String → ExecutionTokenManager → ExecutionTokenManager
revoke_token token_id m = m

-- What the verdict does to the manager.
abbrev pub settle :
    Option Refusal → String → ExecutionTokenManager → ExecutionTokenManager × Option Refusal
settle none nonce m = (cleanup_nonces (add_nonce nonce m), none)
settle (some r) nonce m = (m, some r)

module _ (p : Platform) where
  open p use {isoformat, fromisoformat, hmac_hexdigest}

  unfoldable pub to_dict : ExecutionToken → Fields
  to_dict t =
      ("token_id", some t.token_id)
      ∷ ("request_id", some t.request_id)
      ∷ ("device_id", some t.device_id)
      ∷ ("issued_by", some t.issued_by)
      ∷ ("issued_at", some (isoformat t.issued_at))
      ∷ ("expires_at", some (isoformat t.expires_at))
      ∷ ("nonce", some t.nonce)
      ∷ ("signature", t.signature)
      ∷ []

  -- `data[key]` for a field that is a text; `none` is a `KeyError` or a `TypeError`.
  abbrev text_field : String → Fields → Option String
  text_field key d = elim (lookup key d) [ none ↦ none | some v ↦ v ]

  abbrev time_field : String → Fields → Option ℕ
  time_field key d = elim (text_field key d) [ none ↦ none | some s ↦ fromisoformat s ]

  infixl 5 ◌>>=◌
  abbrev ◌>>=◌ : {A B : Type 0} → Option A → (A → Option B) → Option B
  none >>= f = none
  some a >>= f = f a

  -- A text that is `None`, which the code would take over, is refused here.
  unfoldable pub from_dict : Fields → Option ExecutionToken
  from_dict d = do
    token_id ← text_field "token_id" d
    request_id ← text_field "request_id" d
    device_id ← text_field "device_id" d
    issued_by ← text_field "issued_by" d
    issued_at ← time_field "issued_at" d
    expires_at ← time_field "expires_at" d
    nonce ← text_field "nonce" d
    some (record {
      token_id = token_id;
      request_id = request_id;
      device_id = device_id;
      issued_by = issued_by;
      issued_at = issued_at;
      expires_at = expires_at;
      nonce = nonce;
      signature = Option.get_or (lookup "signature" d) none;
    })

  unfoldable pub sign_token : ExecutionTokenManager → ExecutionToken → String
  sign_token m t = hmac_hexdigest m.shared_secret (erase "signature" (to_dict t))

  -- `token_id` and `nonce` come from `secrets.token_hex`, `now` from the clock.
  unfoldable pub issue_token :
      ExecutionTokenManager → String → String → Option ℕ → ℕ → String → String → ExecutionToken
  issue_token m request_id device_id validity_minutes now token_id nonce = record unsigned {
    signature = some (sign_token m unsigned);
  }
    where
      unsigned : ExecutionToken
      unsigned = record {
        token_id = token_id;
        request_id = request_id;
        device_id = device_id;
        issued_by = m.controller_id;
        issued_at = now;
        expires_at = now + minutes (or_default validity_minutes);
        nonce = nonce;
        signature = none;
      }

  -- The checks of `verify_token`; `none` means that all of them pass. A signature that is not ASCII, at
  -- which `compare_digest` raises a `TypeError`, is a bad signature here.
  unfoldable pub refusal :
      ExecutionTokenManager → ExecutionToken → Option String → ℕ → Option Refusal
  refusal m t expected_device now =
      if not (present t.signature)
      then some no_signature
      else if not (Option.get_or t.signature "" == sign_token m t)
      then some bad_signature
      else if ltb t.expires_at now
      then some (expired (now - t.expires_at))
      else if elem t.nonce m.used_nonces
      then some replayed
      else device_mismatch expected_device t.device_id

  -- The new manager, and the reason for a refusal.
  unfoldable pub verify_token :
      ExecutionTokenManager
      → ExecutionToken
      → Option String
      → ℕ
      → ExecutionTokenManager × Option Refusal
  verify_token m t expected_device now = settle (refusal m t expected_device now) t.nonce m

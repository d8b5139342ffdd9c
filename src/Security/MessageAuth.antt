-- ===== src/Security/MessageAuth.antt =====
-- pdsno/security/message_auth.py: messages signed with a shared secret. A message is a dictionary
-- of JSON values. Log lines are left out; the texts of the refusals are constructors.
pub mod Keys
pub mod Accepts
pub mod Signs
mod Tests
use partially_distributed_sm.Common.{
  Bool, Dict, Eq, List, Option, String, [], arith, codes, elem, erase, false, has, if◌then◌else◌,
  insert, is_ascii, leb, length, lookup, ltb, nat_eq, non_empty, none, not, some, string_eq, true,
  ℕ, ◌&&◌, ◌*◌, ◌+◌, ◌==◌, ◌||◌, ◌↔◌, ◌∷◌, ◌≡◌,
}
use partially_distributed_sm.Platform.{Platform, microseconds_per_second}

-- A JSON value: a text, another value that Python can hash (numbered up to `==`), or an object or
-- array, which it cannot.
pub data Json : Type 0 where
  text : String → Json
  scalar : ℕ → Json
  tree : ℕ → Json

abbrev pub json_beq : Json → Json → Bool
json_beq (text s) (text t) = s == t
json_beq (scalar m) (scalar n) = m == n
json_beq (tree m) (tree n) = m == n
json_beq _ _ = false

pub json_beq_iff : (a b : Json) → (json_beq a b ≡ true) ↔ (a ≡ b)
json_beq_iff (text s) (text t) = ground (arith, string_eq.beq_iff s t)
json_beq_iff (text s) (scalar n) = ground arith
json_beq_iff (text s) (tree n) = ground arith
json_beq_iff (scalar m) (text t) = ground arith
json_beq_iff (scalar m) (scalar n) = ground (arith, nat_eq.beq_iff m n)
json_beq_iff (scalar m) (tree n) = ground arith
json_beq_iff (tree m) (text t) = ground arith
json_beq_iff (tree m) (scalar n) = ground arith
json_beq_iff (tree m) (tree n) = ground (arith, nat_eq.beq_iff m n)

instance abbrev pub json_eq : Eq Json
json_eq = record { beq = json_beq; beq_iff = json_beq_iff }

abbrev pub Message : Type 0
Message = Dict String Json

pub record MessageAuthenticator : Type 0 where
  pub controller_id : String
  pub shared_secret : List ℕ
  pub seen_nonces : List Json
  pub nonce_cleanup_counter : ℕ

-- Why `verify_message` refuses; `type_error` is an exception that leaves it.
pub data Rejection : Type 0 where
  missing_field : String → Rejection
  sender_mismatch unsupported_algorithm : Rejection
  outside_window invalid_timestamp : Rejection
  replay invalid_signature type_error : Rejection

-- `TIMESTAMP_TOLERANCE`, in microseconds
abbrev pub timestamp_tolerance : ℕ
timestamp_tolerance = 300 * microseconds_per_second

abbrev pub signature_algorithm : String
signature_algorithm = "HMAC-SHA256"

-- `__init__`; `none` is its `ValueError`.
unfoldable pub new_authenticator : List ℕ → String → Option MessageAuthenticator
new_authenticator shared_secret controller_id =
    if ltb (length shared_secret) 32
    then none
    else some (record {
      controller_id = controller_id;
      shared_secret = shared_secret;
      seen_nonces = [];
      nonce_cleanup_counter = 0;
    })

-- `rotate_key`; `none` is its `ValueError`.
unfoldable pub rotate_key : List ℕ → MessageAuthenticator → Option MessageAuthenticator
rotate_key new_secret m =
    if ltb (length new_secret) 32 then none else some (record m { shared_secret = new_secret })

-- The first of the fields that is not there.
abbrev pub check_fields : List String → Message → Option Rejection
check_fields [] d = none
check_fields (f ∷ fs) d = if has f d then check_fields fs d else some (missing_field f)

abbrev pub is_value : Option Json → String → Bool
is_value none s = false
is_value (some v) s = v == text s

unfoldable pub check_sender : Option String → Message → Option Rejection
check_sender none d = none
check_sender (some expected) d =
    if non_empty expected && not (is_value (lookup "sender_id" d) expected)
    then some sender_mismatch
    else none

unfoldable pub check_algorithm : Message → Option Rejection
check_algorithm d =
    if is_value (lookup "signature_algorithm" d) signature_algorithm
    then none
    else some unsupported_algorithm

-- `abs(age) > TIMESTAMP_TOLERANCE`, written without a difference.
abbrev pub check_age : Option ℕ → ℕ → Option Rejection
check_age none now = some invalid_timestamp
check_age (some signed_at) now =
    if ltb (signed_at + timestamp_tolerance) now || ltb (now + timestamp_tolerance) signed_at
    then some outside_window
    else none

-- `nonce in self._seen_nonces`
unfoldable pub check_nonce : List Json → Option Json → Option Rejection
check_nonce seen none = some type_error
check_nonce seen (some (tree n)) = some type_error
check_nonce seen (some nonce) = if elem nonce seen then some replay else none

-- `hmac.compare_digest(claimed, expected)`, which takes texts of ASCII characters alone.
unfoldable pub check_signature : Option Json → String → Option Rejection
check_signature (some (text claimed)) expected =
    if not (is_ascii (codes claimed))
    then some type_error
    else if claimed == expected
    then none
    else some invalid_signature
check_signature _ expected = some type_error

infixr 4 ◌or_else◌
-- The first refusal.
abbrev pub ◌or_else◌ : Option Rejection → Option Rejection → Option Rejection
none or_else b = b
some r or_else b = some r

-- `message_copy`: what the signature covers.
abbrev pub unsigned : Message → Message
unsigned d = erase "signature_algorithm" (erase "signature" d)

abbrev pub add_nonce : Option Json → MessageAuthenticator → MessageAuthenticator
add_nonce none m = m
add_nonce (some nonce) m =
    if elem nonce m.seen_nonces then m else record m { seen_nonces = nonce ∷ m.seen_nonces }

unfoldable pub cleanup_old_nonces : MessageAuthenticator → MessageAuthenticator
cleanup_old_nonces m =
    let n = m.nonce_cleanup_counter + 1 in
    if leb 1000 n
    then record m { seen_nonces = []; nonce_cleanup_counter = 0 }
    else record m { nonce_cleanup_counter = n }

abbrev pub settle :
    Option Rejection → Option Json → MessageAuthenticator → MessageAuthenticator × Option Rejection
settle none n m = (cleanup_old_nonces (add_nonce n m), none)
settle (some r) n m = (m, some r)

-- `datetime.fromisoformat(message_dict['signed_at'])`. A timestamp without a zone counts as none:
-- its subtraction from `now` is a caught `TypeError`.
abbrev pub read_time : Platform → Option Json → Option ℕ
read_time p (some (text s)) = p.fromisoformat s
read_time p _ = none

-- `digest key d` is the HMAC of the canonical JSON text of `d`, in hexadecimal digits.
module _ (p : Platform) (digest : List ℕ → Message → String) where
  -- The message without its signature, as `sign_message` makes it.
  abbrev pub stamped : String → ℕ → Message → Message
  stamped nonce now d = insert "signed_at" (text (p.isoformat now)) (insert "nonce" (text nonce) d)

  -- `nonce` comes from `secrets.token_hex`.
  unfoldable pub sign_message : MessageAuthenticator → String → ℕ → Message → Message
  sign_message m nonce now d = insert "signature_algorithm" (text signature_algorithm) (
      insert "signature" (text (digest m.shared_secret (stamped nonce now d)))
        (stamped nonce now d))

  unfoldable pub rejection : MessageAuthenticator → Message → Option String → ℕ → Option Rejection
  rejection m d expected_sender now =
      check_fields ("signature" ∷ "nonce" ∷ "signed_at" ∷ "sender_id" ∷ []) d
      or_else check_sender expected_sender d
      or_else check_algorithm d
      or_else check_age (read_time p (lookup "signed_at" d)) now
      or_else check_nonce m.seen_nonces (lookup "nonce" d)
      or_else check_signature (lookup "signature" d) (digest m.shared_secret (unsigned d))

  -- The new authenticator, and the reason for a refusal.
  unfoldable pub verify_message :
      MessageAuthenticator → Message → Option String → ℕ → MessageAuthenticator × Option Rejection
  verify_message m d expected_sender now =
      settle (rejection m d expected_sender now) (lookup "nonce" d) m

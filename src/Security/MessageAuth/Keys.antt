-- ===== src/Security/MessageAuth/Keys.antt =====
-- pdsno/security/message_auth.py: `KeyManager`.
use mathlib.Core.Path.{Path, subst}
use partially_distributed_sm.Common.{
  Bool-cases, Dict, List, Option, String, [], ap, append_text, arith, erase, has, if◌then◌else◌,
  inl, inr, insert, length, lookup, lookup-erase, lookup-insert, ltb, ltb→ge, nat_eq, none, refl,
  some, string_eq, text_before, text_before-cases, text_of_codes, ℕ, ◌∷◌, ◌≡◌, ◌≤◌,
}
use partially_distributed_sm.Security.MessageAuth.{MessageAuthenticator, new_authenticator}

pub record KeyManager : Type 0 where
  pub keys : Dict String (List ℕ)

unfoldable pub new_key_manager : KeyManager
new_key_manager = record { keys = [] }

-- `key` comes from `secrets.token_bytes(32)`.
unfoldable pub generate_key : String → List ℕ → KeyManager → KeyManager
generate_key key_id key m = record { keys = insert key_id key m.keys }

unfoldable pub get_key : String → KeyManager → Option (List ℕ)
get_key key_id m = lookup key_id m.keys

-- `none` is its `ValueError`.
unfoldable pub set_key : String → List ℕ → KeyManager → Option KeyManager
set_key key_id key m =
    if ltb (length key) 32 then none else some (record { keys = insert key_id key m.keys })

unfoldable pub delete_key : String → KeyManager → KeyManager
delete_key key_id m = if has key_id m.keys then record { keys = erase key_id m.keys } else m

-- The calls that change a key manager; a call that raises changes nothing.
pub data KeyCall : Type 0 where
  generate : String → (key : List ℕ) → length key ≡ 32 → KeyCall
  set : String → List ℕ → KeyCall
  delete : String → KeyCall

unfoldable pub key_call : KeyCall → KeyManager → KeyManager
key_call (generate key_id key fits) m = generate_key key_id key m
key_call (set key_id key) m = elim (set_key key_id key m) [ none ↦ m | some m' ↦ m' ]
key_call (delete key_id) m = delete_key key_id m

unfoldable pub key_calls : List KeyCall → KeyManager → KeyManager
key_calls [] m = m
key_calls (c ∷ cs) m = key_calls cs (key_call c m)

-- Every key has 32 bytes or more.
abbrev HasLongKeys : KeyManager → Type 0
HasLongKeys m = (id : String) (key : List ℕ) → lookup id m.keys ≡ some key → 32 ≤ length key

insert-HasLongKeys :
    (id : String) (key : List ℕ) (m : KeyManager)
    → 32 ≤ length key
    → HasLongKeys m
    → HasLongKeys (record { keys = insert id key m.keys })
insert-HasLongKeys id key m long h j key' found =
    ground (arith, lookup-insert id j key m.keys, h j key')

erase-HasLongKeys :
    (id : String) (m : KeyManager) → HasLongKeys m → HasLongKeys (record { keys = erase id m.keys })
erase-HasLongKeys id m h j key found = ground (arith, lookup-erase id j m.keys, h j key)

key_call-HasLongKeys : (c : KeyCall) (m : KeyManager) → HasLongKeys m → HasLongKeys (key_call c m)
unfolding key_call generate_key set_key delete_key
key_call-HasLongKeys (generate id key fits) m h =
    insert-HasLongKeys id key m (omega (arith, fits)) h
key_call-HasLongKeys (set id key) m h = elim (Bool-cases (ltb (length key) 32)) [
  | inl short ↦ rw (short, key_call) h
  | inr long ↦ rw (long, key_call) (insert-HasLongKeys id key m (ltb→ge _ _ long) h)
]
key_call-HasLongKeys (delete id) m h = elim (Bool-cases (has id m.keys)) [
  | inl there ↦ rw (there, key_call) (erase-HasLongKeys id m h)
  | inr missing ↦ rw (missing, key_call) h
]

key_calls-HasLongKeys :
    (cs : List KeyCall) (m : KeyManager) → HasLongKeys m → HasLongKeys (key_calls cs m)
unfolding key_calls
key_calls-HasLongKeys [] m h = h
key_calls-HasLongKeys (c ∷ cs) m h =
    key_calls-HasLongKeys cs (key_call c m) (key_call-HasLongKeys c m h)

-- Whatever was generated, set or deleted since a key manager was made, each key that it gives
-- makes an authenticator, whose secret is that key.
authenticator_of_key :
    (cs : List KeyCall) (id controller_id : String) (key : List ℕ)
    → get_key id (key_calls cs new_key_manager) ≡ some key
    → (m : MessageAuthenticator) × (new_authenticator key controller_id ≡ some m)
      × (m.shared_secret ≡ key)
unfolding get_key new_key_manager new_authenticator lookup
authenticator_of_key cs id controller_id key found =
    let long = key_calls-HasLongKeys cs new_key_manager (λ j k h. cc) id key found in
    (
      record {
        controller_id = controller_id;
        shared_secret = key;
        seen_nonces = [];
        nonce_cleanup_counter = 0;
      },
      ground arith,
      refl,
    )

same_pair : (a b : String) → a ≡ b → Path (String × String) (a, b) (b, a)
same_pair a b e = subst (λ t. Path (String × String) (a, t) (t, a)) e refl

-- `derive_key_id`
abbrev pub key_name : String → String → String
key_name a b = append_text "key_" (append_text a (append_text "_" b))

unfoldable pub derive_key_id : String → String → String
derive_key_id a b = if text_before b a then key_name b a else key_name a b

-- Both controllers of a pair derive the same key id, whichever of them is named first.
pub derive_key_id_comm : (a b : String) → derive_key_id a b ≡ derive_key_id b a
unfolding derive_key_id
derive_key_id_comm a b = elim (text_before-cases a b) [
  | inl (before, other) ↦ rw (before, other) refl
  | inr (inl (before, other)) ↦ rw (before, other) refl
  | inr (inr (before, other, same)) ↦
      rw (before, other)
        (ap (λ (x : String × String). key_name x.0 x.1) (same_pair a b (text_of_codes a b same)))
]

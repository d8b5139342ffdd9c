-- ===== src/Security/MessageAuth/Tests.antt =====
-- pdsno/security/message_auth.py: messages at concrete inputs.
use partially_distributed_sm.Common.{
  Bool, List, String, [], arith, codes, false, has, if◌then◌else◌, insert, is_ascii, lookup, nat_eq,
  none, refl, some, string_eq, true, ℕ, ◌∷◌, ◌≡◌,
}
use partially_distributed_sm.Fixtures.{platform, platform-ReadsBack, secret}
use partially_distributed_sm.Security.MessageAuth.{
  Message, MessageAuthenticator, Rejection, json_eq, sign_message, text, tree, verify_message,
}
use partially_distributed_sm.Security.MessageAuth.Keys.{
  KeyCall, delete, delete_key, derive_key_id, generate, generate_key, get_key, key_call, key_calls,
  new_key_manager, set, set_key,
}
use partially_distributed_sm.Security.MessageAuth.Accepts.{IsGenuine, verify_message_genuine}
use partially_distributed_sm.Security.MessageAuth.Signs.{verify-sign_message}

abbrev receiver : MessageAuthenticator
receiver = record {
  controller_id = "rc";
  shared_secret = secret;
  seen_nonces = [];
  nonce_cleanup_counter = 0;
}

-- A digest that marks the nonce.
abbrev mark : List ℕ → Message → String
mark key d = if has "nonce" d then "#n" else "#"

mark-ascii : (key : List ℕ) (d : Message) → is_ascii (codes (mark key d)) ≡ true
mark-ascii key d = marked (has "nonce" d)
  where
    marked : (b : Bool) → is_ascii (codes (if b then "#n" else "#")) ≡ true
    marked true = refl
    marked false = refl

abbrev message : Message
message = ("sender_id", text "lc") ∷ ("payload", tree 3) ∷ []

abbrev wire : Message
wire = sign_message platform mark receiver "n1" 5 message

verify-sign_message_example : (verify_message platform mark receiver wire (some "lc") 7).1 ≡ none
unfolding lookup
verify-sign_message_example =
    verify-sign_message platform mark receiver receiver "n1" 5 7 message (some "lc") (text "lc")
      platform-ReadsBack mark-ascii refl refl refl refl (λ named. refl) refl (omega arith)
      (omega arith)

verify_message_genuine_example :
    let (m', reason) = verify_message platform mark receiver wire (some "lc") 7 in
    (reason ≡ none → IsGenuine platform mark receiver wire (some "lc") 7)
    × ((r : Rejection) → reason ≡ some r → m' ≡ receiver)
verify_message_genuine_example = verify_message_genuine platform mark receiver wire (some "lc") 7

abbrev key_log : List KeyCall
key_log = set "short" (1 ∷ []) ∷ generate "key_a_b" secret refl ∷ delete "short" ∷ []

key_found : get_key "key_a_b" (key_calls key_log new_key_manager) ≡ some secret
unfolding get_key key_calls key_call set_key generate_key delete_key new_key_manager insert lookup
key_found = refl

-- Two pairs of ids with underscores can share a key id.
shared_key_id : derive_key_id "a_b" "c" ≡ derive_key_id "a" "b_c"
unfolding derive_key_id
shared_key_id = refl

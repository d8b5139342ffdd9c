-- ===== src/Security/MessageAuth/Signs.antt =====
-- pdsno/security/message_auth.py: `sign_message`, and then `verify_message`.
use partially_distributed_sm.Common.{
  Bool-cases, List, Option, String, [], ap, arith, beq_self, codes, elem, erase,
  erase-insert_absent, erase-insert_other, false, has, inl, inr, insert, is_ascii, lookup,
  lookup-insert, lookup-insert_self, nat_eq, non_empty, none, refl, some, string_eq, true, ℕ, ◌+◌,
  ◌==◌, ◌∙◌, ◌∷◌, ◌≡◌, ◌≤◌,
}
use partially_distributed_sm.Platform.{Platform, ReadsBack}
use partially_distributed_sm.Security.MessageAuth.{
  Json, Message, MessageAuthenticator, Rejection, check_age, check_algorithm, check_fields,
  check_nonce, check_sender, check_signature, json_eq, read_time, rejection, sign_message,
  signature_algorithm, stamped, text, timestamp_tolerance, unsigned, verify_message, ◌or_else◌,
}
use partially_distributed_sm.Security.MessageAuth.Accepts.{ComesFrom}

or_else-both : (a b : Option Rejection) → a ≡ none → b ≡ none → (a or_else b) ≡ none
or_else-both none b h k = k
or_else-both (some r) b h k = cc

field_there :
    (f : String) (fs : List String) (d : Message) {v : Json}
    → lookup f d ≡ some v
    → check_fields fs d ≡ none
    → check_fields (f ∷ fs) d ≡ none
field_there f fs d there rest =
    let found : has f d ≡ true = rw (there, has) refl in rw (found, check_fields) rest

check_sender-from :
    (expected : Option String) (d : Message) → ComesFrom expected d → check_sender expected d ≡ none
unfolding check_sender
check_sender-from none d h = refl
check_sender-from (some s) d h = elim (Bool-cases (non_empty s)) [
  | inl named ↦ rw (named, h named, beq_self s) refl
  | inr empty ↦ rw empty refl
]

unseen_nonce :
    (seen : List Json) (nonce : String)
    → elem (text nonce) seen ≡ false
    → check_nonce seen (some (text nonce)) ≡ none
unfolding check_nonce
unseen_nonce seen nonce h = rw h refl

own_signature : (s : String) → is_ascii (codes s) ≡ true → check_signature (some (text s)) s ≡ none
unfolding check_signature
own_signature s h = rw (h, beq_self s) refl

in_window :
    (t now : ℕ)
    → now ≤ t + timestamp_tolerance
    → t ≤ now + timestamp_tolerance
    → check_age (some t) now ≡ none
in_window t now h k = ground arith

algorithm_there :
    (d : Message)
    → lookup "signature_algorithm" d ≡ some (text signature_algorithm)
    → check_algorithm d ≡ none
unfolding check_algorithm
algorithm_there d h = rw h refl

module _ (p : Platform) (digest : List ℕ → Message → String) (m : MessageAuthenticator)
    (nonce : String) (signed : ℕ) (d : Message) where
  abbrev sent : Message
  sent = sign_message p digest m nonce signed d

  -- The other fields of the message are those that were signed.
  lookup-stamped :
      (k : String)
      → ("signed_at" == k) ≡ false
      → ("nonce" == k) ≡ false
      → lookup k (stamped p digest nonce signed d) ≡ lookup k d
  lookup-stamped k h g =
      lookup-insert "signed_at" k _ _ ∙ rw h (lookup-insert "nonce" k _ _ ∙ rw g refl)

  lookup-sent :
      (k : String)
      → ("signature_algorithm" == k) ≡ false
      → ("signature" == k) ≡ false
      → lookup k sent ≡ lookup k (stamped p digest nonce signed d)
  unfolding sign_message
  lookup-sent k h g =
      lookup-insert "signature_algorithm" k _ _ ∙ rw h (lookup-insert "signature" k _ _ ∙ rw g refl)

  signature-sent :
      lookup "signature" sent
      ≡ some (text (digest m.shared_secret (stamped p digest nonce signed d)))
  unfolding sign_message
  signature-sent =
      lookup-insert "signature_algorithm" "signature" _ _ ∙ lookup-insert_self "signature" _ _

  algorithm-sent : lookup "signature_algorithm" sent ≡ some (text signature_algorithm)
  unfolding sign_message
  algorithm-sent = lookup-insert_self "signature_algorithm" _ _

  time-sent : lookup "signed_at" sent ≡ some (text (p.isoformat signed))
  time-sent = lookup-sent "signed_at" refl refl ∙ lookup-insert_self "signed_at" _ _

  nonce-sent : lookup "nonce" sent ≡ some (text nonce)
  nonce-sent =
      lookup-sent "nonce" refl refl
      ∙ lookup-insert "signed_at" "nonce" _ _
      ∙ lookup-insert_self "nonce" _ _

  unsigned-sent :
      lookup "signature" d ≡ none
      → lookup "signature_algorithm" d ≡ none
      → unsigned sent ≡ stamped p digest nonce signed d
  unfolding sign_message
  unsigned-sent no_signature no_algorithm =
      let x = stamped p digest nonce signed d in
      ap (erase "signature_algorithm") (
        erase-insert_other "signature" "signature_algorithm" _ _ refl
        ∙ ap (insert "signature_algorithm" (text signature_algorithm)) (
            erase-insert_absent "signature" _ x
              (lookup-stamped "signature" refl refl ∙ no_signature)))
      ∙ erase-insert_absent "signature_algorithm" _ x
          (lookup-stamped "signature_algorithm" refl refl ∙ no_algorithm)

  rejection-sent :
      (v : MessageAuthenticator) (expected : Option String) (now : ℕ) {sender : Json}
      → ReadsBack p
      → is_ascii (codes (digest m.shared_secret (stamped p digest nonce signed d))) ≡ true
      → v.shared_secret ≡ m.shared_secret
      → lookup "signature" d ≡ none
      → lookup "signature_algorithm" d ≡ none
      → lookup "sender_id" d ≡ some sender
      → ComesFrom expected d
      → elem (text nonce) v.seen_nonces ≡ false
      → now ≤ signed + timestamp_tolerance
      → signed ≤ now + timestamp_tolerance
      → rejection p digest v sent expected now ≡ none
  unfolding rejection
  rejection-sent v expected now reads_back ascii secret no_signature no_algorithm sender from unseen
        late early =
      let sender-sent = lookup-sent "sender_id" refl refl ∙ lookup-stamped "sender_id" refl refl in
      let signature : check_signature (lookup "signature" sent)
            (digest v.shared_secret (unsigned sent))
          ≡ none =
        rw (signature-sent, unsigned-sent no_signature no_algorithm, secret)
          (own_signature _ ascii) in
      or_else-both _ _
        (field_there "signature" ("nonce" ∷ "signed_at" ∷ "sender_id" ∷ []) sent signature-sent (
          field_there "nonce" ("signed_at" ∷ "sender_id" ∷ []) sent nonce-sent (
            field_there "signed_at" ("sender_id" ∷ []) sent time-sent
              (field_there "sender_id" [] sent (sender-sent ∙ sender) refl))))
        (or_else-both _ _ (check_sender-from expected sent (comes_from expected sender-sent from)) (
          or_else-both _ _ (algorithm_there sent algorithm-sent) (
            or_else-both _ _
              (ap (λ o. check_age (read_time p o) now) time-sent
                ∙ ap (λ o. check_age o now) (reads_back signed)
                ∙ in_window signed now late early)
              (or_else-both _ _
                (ap (check_nonce v.seen_nonces) nonce-sent
                  ∙ unseen_nonce v.seen_nonces nonce unseen)
                signature))))
    where
      comes_from :
          (expected : Option String)
          → lookup "sender_id" sent ≡ lookup "sender_id" d
          → ComesFrom expected d
          → ComesFrom expected sent
      comes_from none same h = tt
      comes_from (some s) same h = λ named. same ∙ h named

module _ (p : Platform) (digest : List ℕ → Message → String) where
  -- Round trip: where timestamps are read back and digests are ASCII texts, a message that carries no signature yet and names its sender is, once signed,
  -- accepted by any authenticator with the same secret that has not seen the nonce, at any time
  -- within 300 seconds of the signing, for any expectation of the sender that the message meets.
  pub verify-sign_message :
      (m v : MessageAuthenticator) (nonce : String) (signed now : ℕ) (d : Message)
      (expected : Option String) (sender : Json)
      → ReadsBack p
      → ((key : List ℕ) (fields : Message) → is_ascii (codes (digest key fields)) ≡ true)
      → v.shared_secret ≡ m.shared_secret
      → lookup "signature" d ≡ none
      → lookup "signature_algorithm" d ≡ none
      → lookup "sender_id" d ≡ some sender
      → ComesFrom expected d
      → elem (text nonce) v.seen_nonces ≡ false
      → now ≤ signed + timestamp_tolerance
      → signed ≤ now + timestamp_tolerance
      → (verify_message p digest v (sign_message p digest m nonce signed d) expected now).1 ≡ none
  unfolding verify_message
  verify-sign_message m v nonce signed now d expected sender reads_back ascii secret no_signature
        no_algorithm named from unseen late early =
      let fine =
        rejection-sent p digest m nonce signed d v expected now reads_back (ascii _ _) secret
          no_signature no_algorithm named from unseen late early in
      rw fine refl

-- ===== src/Security/MessageAuth/Accepts.antt =====
-- pdsno/security/message_auth.py: what the checks of `verify_message` take.
use partially_distributed_sm.Common.{
  Bool-cases, List, Option, Option-cases, String, ap, arith, elem, eq_iff, false, inl, inr, lookup,
  nat_eq, non_empty, none, refl, some, string_eq, sym, true, ℕ, ◌+◌, ◌<◌, ◌∙◌, ◌≡◌, ◌≢◌, ◌≤◌,
}
use partially_distributed_sm.Platform.{Platform}
use partially_distributed_sm.Security.MessageAuth.{
  Json, Message, MessageAuthenticator, Rejection, check_age, check_nonce, check_sender,
  check_signature, cleanup_old_nonces, is_value, json_eq, read_time, rejection, scalar, text,
  timestamp_tolerance, tree, unsigned, verify_message, ◌or_else◌,
}
use mathlib.Core.Option.{some-ne-none}

or_else-none : (a b : Option Rejection) → (a or_else b) ≡ none → (a ≡ none) × (b ≡ none)
or_else-none none b h = (refl, h)
or_else-none (some r) b h = cc

check_age-none :
    (o : Option ℕ) (now : ℕ)
    → check_age o now ≡ none
    → (t : ℕ) × (o ≡ some t) × (now ≤ t + timestamp_tolerance) × (t ≤ now + timestamp_tolerance)
check_age-none none now h = cc
check_age-none (some t) now h = (t, refl, ground arith, ground arith)

check_nonce-none :
    (seen : List Json) (o : Option Json)
    → check_nonce seen o ≡ none
    → (n : Json) × (o ≡ some n) × (elem n seen ≡ false)
unfolding check_nonce
check_nonce-none seen none h = cc
check_nonce-none seen (some (tree n)) h = cc
check_nonce-none seen (some (text s)) h = (text s, refl, ground arith)
check_nonce-none seen (some (scalar n)) h = (scalar n, refl, ground arith)

check_signature-none :
    (o : Option Json) (expected : String)
    → check_signature o expected ≡ none
    → o ≡ some (text expected)
unfolding check_signature
check_signature-none none expected h = cc
check_signature-none (some (tree n)) expected h = cc
check_signature-none (some (scalar n)) expected h = cc
check_signature-none (some (text s)) expected h =
    ap (λ x. some (text x)) (ground (arith, eq_iff s expected))

-- The sender is the one that the caller expects, if it names one.
abbrev pub ComesFrom : Option String → Message → Type 0
ComesFrom none d = Unit
ComesFrom (some expected) d =
    (non_empty expected ≡ true) → lookup "sender_id" d ≡ some (text expected)

is_value-lookup : (o : Option Json) (s : String) → is_value o s ≡ true → o ≡ some (text s)
is_value-lookup none s h = cc
is_value-lookup (some v) s h = ap some ((json_eq.beq_iff v (text s)).0 h)

check_sender-none :
    (expected : Option String) (d : Message) → check_sender expected d ≡ none → ComesFrom expected d
unfolding check_sender
check_sender-none none d h = tt
check_sender-none (some s) d h = λ named. is_value-lookup _ s (ground arith)

module _ (p : Platform) (digest : List ℕ → Message → String) (m : MessageAuthenticator)
    (d : Message) (expected_sender : Option String) (now : ℕ) where
  -- What `verify_message` makes sure of.
  pub record IsGenuine : Type 0 where
    pub signed : lookup "signature" d ≡ some (text (digest m.shared_secret (unsigned d)))
    pub recent :
        (t : ℕ) × (read_time p (lookup "signed_at" d) ≡ some t)
        × (now ≤ t + timestamp_tolerance)
        × (t ≤ now + timestamp_tolerance)
    pub fresh : (n : Json) × (lookup "nonce" d ≡ some n) × (elem n m.seen_nonces ≡ false)
    pub sent : ComesFrom expected_sender d

  rejection-none : rejection p digest m d expected_sender now ≡ none → IsGenuine
  unfolding rejection
  rejection-none h =
      let (fields, h1) = or_else-none _ _ h in
      let (sender, h2) = or_else-none _ _ h1 in
      let (algorithm, h3) = or_else-none _ _ h2 in
      let (age, h4) = or_else-none _ _ h3 in
      let (single, signature) = or_else-none _ _ h4 in
      record {
        signed = check_signature-none _ _ signature;
        recent = check_age-none _ now age;
        fresh = check_nonce-none m.seen_nonces _ single;
        sent = check_sender-none expected_sender d sender;
      }

  -- A message that `verify_message` accepts carries the digest of its other fields under the
  -- shared secret, was signed at most 300 seconds before or after the time of the check, has a
  -- nonce that was not seen, and comes from the expected sender, if the caller names one. A refusal
  -- leaves the authenticator as it was.
  pub verify_message_genuine :
      let (m', reason) = verify_message p digest m d expected_sender now in
      (reason ≡ none → IsGenuine) × ((r : Rejection) → reason ≡ some r → m' ≡ m)
  unfolding verify_message
  verify_message_genuine = elim (Option-cases (rejection p digest m d expected_sender now)) [
    | inl fine ↦ rw fine (λ _. rejection-none fine, λ r h. cc)
    | inr (r, e) ↦ rw e (λ h. absurd (some-ne-none r h), λ s h. refl)
  ]

  seen_after :
      m.nonce_cleanup_counter + 1 < 1000
      → (verify_message p digest m d expected_sender now).1 ≡ none
      → (n : Json) → lookup "nonce" d ≡ some n
      → elem n (verify_message p digest m d expected_sender now).0.seen_nonces ≡ true
  unfolding verify_message cleanup_old_nonces
  seen_after below accepted n there =
      elim (Option-cases (rejection p digest m d expected_sender now)) [
        | inl fine ↦
            rw (fine, there)
              (ground (arith, json_eq.beq_iff n n, Bool-cases (elem n m.seen_nonces)))
        | inr (r, e) ↦ absurd (some-ne-none r (rw e at accepted))
      ]

module _ (p : Platform) (digest : List ℕ → Message → String) where
  -- Replay protection: after a message was accepted, and unless 999 messages had been accepted
  -- since the last cleanup, no message with its nonce is accepted by the same authenticator,
  -- whatever else it holds and whenever it comes.
  pub verify_message_replay :
      (m : MessageAuthenticator) (d d' : Message) (expected expected' : Option String)
      (now later : ℕ)
      → m.nonce_cleanup_counter + 1 < 1000
      → (verify_message p digest m d expected now).1 ≡ none
      → lookup "nonce" d' ≡ lookup "nonce" d
      → (verify_message p digest (verify_message p digest m d expected now).0 d' expected' later).1
        ≢ none
  verify_message_replay m d d' expected expected' now later below accepted same again =
      let m' = (verify_message p digest m d expected now).0 in
      let (n, there, unseen) =
        ((verify_message_genuine p digest m' d' expected' later).0 again).fresh in
      let seen = seen_after p digest m d expected now below accepted n (sym same ∙ there) in cc

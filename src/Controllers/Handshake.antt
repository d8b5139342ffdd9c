-- ===== src/Controllers/Handshake.antt =====
-- pdsno/controllers: the validation of a regional controller by a global one, both sides together.
mod Registers
mod Tests
use mathlib.Core.Option.{some-injective}
use partially_distributed_sm.Common.{
  List, Option, String, ap, arith, codes, eq_iff, false, find_row, is_ascii, lookup,
  lookup-insert_self, ltb, nat_eq, non_empty, none, refl, some, string_eq, true, ℕ, ◌+◌, ◌∙◌, ◌≡◌,
  ◌≤◌,
}
use partially_distributed_sm.Platform.{Platform, compare_digest}
use partially_distributed_sm.Controllers.Messages.{
  ChallengeResponse, DelegationCredential, Envelope, ValidationRequest,
}
use partially_distributed_sm.Controllers.Registration.{
  certificate_of, controller_record, identity_of,
}
use partially_distributed_sm.Controllers.Global.{
  Answer, GlobalController, Outcome, PendingChallenge, accepted, admit, answer, assign_identity,
  bootstrap_token_of, challenge, challenge_timeout, check_policy_of, check_timestamp, delegation_of,
  deliver, drop_challenge, granted_identity, handle_challenge_response, handle_validation_request,
  issue_challenge, store_challenge, verify_bootstrap_token, verify_challenge_response,
}
use partially_distributed_sm.Controllers.Regional.Joins.{
  Applicant, challenge_payload, generate_bootstrap_token, handle_validation_result, on_first_answer,
  on_result, request_validation, returns, validation_payload,
}
use partially_distributed_sm.Nib.Models.{Certificate, ControllerMetadata}
use partially_distributed_sm.Nib.Events.{has_event_id}
use partially_distributed_sm.Nib.Controllers.{get_controller, upsert_controller}
use partially_distributed_sm.Controllers.Handshake.Registers.{register-granted, upsert-new}

-- Digests are hexadecimal digits, so `compare_digest` takes them.
abbrev pub HasAscii : Platform → Type 0
HasAscii p = (key : List ℕ) (text : String) → is_ascii (codes (p.hmac_text key text)) ≡ true

compare_digest-same :
    (d : String) → is_ascii (codes d) ≡ true → compare_digest (some d) d ≡ some true
unfolding compare_digest
compare_digest-same d h = rw (h, (eq_iff d d).1 refl) refl

module _ (p : Platform) (event_key secret_key : List ℕ) where
  -- The messages of the two steps, each with the sender and the time of its envelope.
  abbrev pub enveloped : {P : Type 0} → String → String → ℕ → P → Envelope P
  enveloped message_id sender_id sent payload = record {
    message_id = message_id;
    sender_id = sender_id;
    timestamp = sent;
    payload = payload;
  }

  module _ (ascii : HasAscii p) (a : Applicant) (g : GlobalController)
      (challenge_id event_id : String) (random : List ℕ) (sent : ℕ) (now later : ℕ → ℕ)
      (n : ℕ) where
    abbrev asked : Envelope ValidationRequest
    asked = enveloped "m1" a.controller.controller_id sent (validation_payload p secret_key a)

    vouched :
        verify_bootstrap_token p event_key secret_key (validation_payload p secret_key a)
        ≡ some true
    unfolding verify_bootstrap_token bootstrap_token_of validation_payload generate_bootstrap_token
    vouched = compare_digest-same _ (ascii _ _)

    -- The state with the challenge.
    abbrev challenged : GlobalController
    challenged =
        (store_challenge p event_key secret_key asked a.temp_id "ed25519-pubkey-placeholder"
          challenge_id random (now 1) g).0

    first_step :
        check_timestamp sent (now 0) ≡ none
        → handle_validation_request p event_key secret_key asked challenge_id random now g ≡ (
          challenged,
          answer (some a.temp_id) "m1" (challenge challenge_id random (now 1 + challenge_timeout)),
        )
    unfolding handle_validation_request issue_challenge validation_payload
    first_step fresh = rw (fresh, vouched) refl

    abbrev reply : Envelope ChallengeResponse
    reply =
        enveloped "m2" a.controller.controller_id sent
          (challenge_payload p secret_key challenge_id random a)

    abbrev pending : PendingChallenge
    pending = record {
      temp_id = a.temp_id;
      nonce = random;
      public_key = "ed25519-pubkey-placeholder";
      expires_at = now 1 + challenge_timeout;
      original_request = validation_payload p secret_key a;
    }

    second_step :
        later 0 ≤ now 1 + challenge_timeout
        → verify_challenge_response p event_key secret_key reply.payload (later 0) challenged
          ≡ (drop_challenge challenge_id challenged, accepted (validation_payload p secret_key a))
    unfolding verify_challenge_response challenge_payload
    second_step in_time =
        let early : ltb (now 1 + challenge_timeout) (later 0) ≡ false = ground (arith, in_time) in
        rw
          (
            lookup-insert_self challenge_id pending g.pending_challenges,
            verify_challenge_response,
            early,
            (eq_iff a.temp_id a.temp_id).1 refl,
            compare_digest-same (p.hmac_text random "signed_by_controller")
                (ascii random "signed_by_controller"),
          )
          refl

    -- The identity of the next number.
    abbrev pub new_id : String
    new_id = identity_of p "regional" a.controller.region (n + 1)

    -- The result of the registration, for any metadata.
    third_step :
        (metadata : Option ControllerMetadata) (g₂ : GlobalController)
        → lookup "regional" g₂.controller_sequence ≡ some n
        → get_controller new_id g₂.nib ≡ none
        → find_row (has_event_id event_id) g₂.nib.events ≡ none
        → non_empty event_id ≡ true
        → non_empty g₂.controller_id ≡ true
        → (assign_identity p event_key secret_key "regional" a.controller.region
            "ed25519-pubkey-placeholder" metadata event_id
            (later 1)
            g₂).1
          ≡ some (
              granted_identity new_id
                (certificate_of p new_id "regional" a.controller.region "ed25519-pubkey-placeholder"
                  g₂.controller_id
                  (later 1))
                (delegation_of "regional" a.controller.region)
                "regional"
                a.controller.region)
    unfolding assign_identity
    third_step metadata g₂ counted fresh_id fresh_event named actor =
        let row =
          controller_record p new_id "regional" a.controller.region "ed25519-pubkey-placeholder"
            g₂.controller_id metadata (later 1) in
        let (done, kept) =
          upsert-new p event_key secret_key event_id row (later 1) g₂.nib fresh_id in
        rw (counted, assign_identity)
          (ap some (
            register-granted p event_key secret_key event_id
              (upsert_controller row (later 1) g₂.nib) new_id "regional" a.controller.region
              "ed25519-pubkey-placeholder" (later 1) _ done (rw kept fresh_event) named actor))

    deliver-granted :
        (x : GlobalController × Option Answer) (id role region : String) (c : Certificate)
        (d : Option DelegationCredential)
        → x.1 ≡ some (granted_identity id c d role region)
        → (deliver p event_key secret_key reply x).1
          ≡ answer (some a.temp_id) "m2" (granted_identity id c d role region)
    unfolding challenge_payload
    deliver-granted (g', none) id role region c d h = cc
    deliver-granted (g', some x) id role region c d h =
        rw (some-injective x (granted_identity id c d role region) h) refl

    admitted :
        (role region key : String) (metadata : Option ControllerMetadata) (t : ℕ)
        (g₂ : GlobalController)
        → check_policy_of role region ≡ none
        → admit p event_key secret_key reply
            (some role)
            (some region)
            (some key)
            metadata
            event_id
            t
            g₂
          ≡ deliver p event_key secret_key reply
              (assign_identity p event_key secret_key role region key metadata event_id t g₂)
    admitted role region key metadata t g₂ h = rw (h, admit) refl

    last_step :
        later 0 ≤ now 1 + challenge_timeout
        → check_policy_of "regional" a.controller.region ≡ none
        → lookup "regional" g.controller_sequence ≡ some n
        → get_controller new_id g.nib ≡ none
        → find_row (has_event_id event_id) g.nib.events ≡ none
        → non_empty event_id ≡ true
        → non_empty g.controller_id ≡ true
        → (handle_challenge_response p event_key secret_key reply event_id later challenged).1
          ≡ answer (some a.temp_id) "m2" (
              granted_identity new_id
                (certificate_of p new_id "regional" a.controller.region "ed25519-pubkey-placeholder"
                  g.controller_id
                  (later 1))
                (delegation_of "regional" a.controller.region)
                "regional"
                a.controller.region)
    unfolding handle_challenge_response validation_payload
    last_step in_time permitted counted fresh_id fresh_event named actor =
        let g₂ = drop_challenge challenge_id challenged in
        let metadata = (validation_payload p secret_key a).metadata in
        rw (second_step in_time) (
          ap (λ o. o.1)
            (admitted "regional" a.controller.region "ed25519-pubkey-placeholder" metadata (later 1)
              g₂ permitted)
          ∙ deliver-granted
              (assign_identity p event_key secret_key "regional" a.controller.region
                "ed25519-pubkey-placeholder" metadata event_id (later 1) g₂)
              new_id "regional" a.controller.region _ _
              (third_step metadata g₂ counted fresh_id fresh_event named actor))

    -- The two handlers of the global controller, as what the applicant's exchanges reach.
    abbrev pub ask_global : ValidationRequest → GlobalController → GlobalController × Outcome
    ask_global r g' =
        handle_validation_request p event_key secret_key
          (enveloped "m1" a.controller.controller_id sent r) challenge_id random now g'

    abbrev pub answer_global : ChallengeResponse → GlobalController → GlobalController × Outcome
    answer_global r g' =
        handle_challenge_response p event_key secret_key
          (enveloped "m2" a.controller.controller_id sent r) event_id later g'

    joined :
        (x : GlobalController × Outcome) (to correlation : String) (c : Certificate)
        (d : Option DelegationCredential)
        → x.1
          ≡ answer
              (some to)
              correlation
              (granted_identity new_id c d "regional" a.controller.region)
        → ((on_result x a).1
            ≡ handle_validation_result
                (granted_identity new_id c d "regional" a.controller.region)
                a)
          × ((on_result x a).2 ≡ returns true)
    unfolding handle_validation_result
    joined (g', o) to correlation c d h = rw h (refl, refl)

    asking :
        a.validated ≡ false
        → check_timestamp sent (now 0) ≡ none
        → request_validation p secret_key ask_global answer_global g a
          ≡ on_result
              (answer_global (challenge_payload p secret_key challenge_id random a) challenged)
              a
    unfolding request_validation
    asking new fresh =
        simp new
          (ap (λ x. on_first_answer p secret_key ask_global answer_global x a) (first_step fresh))

    -- Where digests are ASCII: a regional controller that is not validated, has the global
    -- controller's bootstrap secret and asks while the request and the answer to the challenge are in
    -- time, gets an identity: when its region passes the policy check, the global controller has an id
    -- and counts its regional controllers, the next identity has no row and the event's id is new and
    -- not empty, `request_validation` returns `True`, and the controller, its approval engine and its
    -- token manager have the identity of the next number of its role.
    pub request_validation_succeeds :
        a.validated ≡ false
        → check_timestamp sent (now 0) ≡ none
        → later 0 ≤ now 1 + challenge_timeout
        → check_policy_of "regional" a.controller.region ≡ none
        → lookup "regional" g.controller_sequence ≡ some n
        → get_controller new_id g.nib ≡ none
        → find_row (has_event_id event_id) g.nib.events ≡ none
        → non_empty event_id ≡ true
        → non_empty g.controller_id ≡ true
        → let after = request_validation p secret_key ask_global answer_global g a in
          (after.2 ≡ returns true)
          × (after.1.validated ≡ true)
          × (after.1.assigned_id ≡ some new_id)
          × (after.1.controller.controller_id ≡ new_id)
          × (after.1.controller.engine.controller_id ≡ new_id)
          × (after.1.controller.tokens.controller_id ≡ new_id)
    unfolding handle_validation_result
    request_validation_succeeds new fresh in_time permitted counted fresh_id fresh_event named
          actor =
        let (kept, done) =
          joined (answer_global (challenge_payload p secret_key challenge_id random a) challenged)
            a.temp_id "m2" _ _
            (last_step in_time permitted counted fresh_id fresh_event named actor) in
        simp (asking new fresh)
          (done, rw kept refl, rw kept refl, rw kept refl, rw kept refl, rw kept refl)

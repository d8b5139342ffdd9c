-- ===== src/Controllers/Global.antt =====
-- pdsno/controllers/global_controller.py: the validation of controllers, which ends in an
-- identity, and the approval of HIGH proposals. Log lines, the REST server and the key exchange are
-- left out; each reading of the clock and each random value is an argument.
pub mod Validation
pub mod Grants
pub mod Vouched
pub mod Proposals
pub mod Decides
mod Tests
use partially_distributed_sm.Common.{
  Bool, Dict, List, Option, String, [], append_text, elem, erase, false, if◌then◌else◌, insert,
  lookup, ltb, nat_eq, none, not, some, string_eq, true, ℕ, ◌*◌, ◌+◌, ◌==◌, ◌∷◌,
}
use partially_distributed_sm.Platform.{Platform, compare_digest, microseconds_per_second}
use partially_distributed_sm.Controllers.Messages.{
  ChallengeResponse, DelegationCredential, Envelope, ValidationRequest, shown,
}
use partially_distributed_sm.Controllers.Registration.{
  certificate_of, controller_record, identity_of, is_same, validated_event,
}
use partially_distributed_sm.Nib.Models.{
  Certificate, ControllerMetadata, NibResult, Reply, integrity_error, result,
}
use partially_distributed_sm.Nib.Store.{NibStore}
use partially_distributed_sm.Nib.Controllers.{upsert_controller}
use partially_distributed_sm.Nib.Events.{write_event}
use partially_distributed_sm.Config.Approval.Engine.{ConfigData}
use partially_distributed_sm.Config.Sensitivity.Classifier.{Classifier, new_classifier}

pub record PendingChallenge : Type 0 where
  pub temp_id : String
  pub nonce : List ℕ
  pub public_key : String
  pub expires_at : ℕ
  pub original_request : ValidationRequest

pub record GlobalController : Type 0 where
  pub controller_id : String
  pub classifier : Classifier
  pub pending_challenges : Dict String PendingChallenge
  pub controller_sequence : Dict String ℕ
  pub nib : NibStore ConfigData

-- `__init__`
unfoldable pub new_global_controller : String → NibStore ConfigData → GlobalController
new_global_controller controller_id nib = record {
  controller_id = controller_id;
  classifier = new_classifier;
  pending_challenges = [];
  controller_sequence = ("regional", 0) ∷ ("local", 0) ∷ [];
  nib = nib;
}

pub data Reason : Type 0 where
  future_timestamp stale_timestamp invalid_bootstrap_token : Reason
  unknown_challenge challenge_expired temp_id_mismatch challenge_signature : Reason
  type_not_permitted invalid_region : Reason
  nib_write_failed registration_failed : Reason

-- The payload of the answer.
pub data Answer : Type 0 where
  rejected : Reason → Answer
  failed : Reason → Answer
  challenge : String → List ℕ → ℕ → Answer
  granted_identity : String → Certificate → Option DelegationCredential → String → String → Answer

-- What a handler ends in: an answer to a recipient, or an exception that leaves it.
pub data Outcome : Type 0 where
  answer : Option String → String → Answer → Outcome
  raised : Outcome

abbrev pub freshness_window : ℕ
freshness_window = 5 * 60 * microseconds_per_second

abbrev pub challenge_timeout : ℕ
challenge_timeout = 30 * microseconds_per_second

-- `_create_rejection` and `_create_error_response`
abbrev pub create_rejection : {P : Type 0} → Envelope P → Reason → Outcome
create_rejection env reason = answer (some env.sender_id) env.message_id (rejected reason)

abbrev pub create_error_response : {P : Type 0} → Envelope P → Reason → Outcome
create_error_response env reason = answer (some env.sender_id) env.message_id (failed reason)

-- `check_timestamp`, without differences.
unfoldable pub check_timestamp : ℕ → ℕ → Option Reason
check_timestamp sent now =
    if ltb now sent
    then some future_timestamp
    else if ltb (sent + freshness_window) now
    then some stale_timestamp
    else none

-- `policy_checks`, on a type and a region that the request has.
abbrev pub check_policy_of : String → String → Option Reason
check_policy_of controller_type region =
    if not (elem controller_type ("regional" ∷ "local" ∷ []))
    then some type_not_permitted
    else if not (elem region ("zone-A" ∷ "zone-B" ∷ "zone-C" ∷ []))
    then some invalid_region
    else none

-- The verdict on the answer to a challenge.
pub data Verdict : Type 0 where
  refused_for : Reason → Verdict
  type_error : Verdict
  accepted : ValidationRequest → Verdict

abbrev pub drop_challenge : String → GlobalController → GlobalController
drop_challenge id g = record g { pending_challenges = erase id g.pending_challenges }

-- `self.controller_sequence[controller_type] += 1`, where there is a counter.
abbrev pub count_up : String → GlobalController → GlobalController
count_up role g = elim (lookup role g.controller_sequence) [
  | none ↦ g
  | some n ↦ record g { controller_sequence = insert role (n + 1) g.controller_sequence }
]

-- The delegation of a regional controller.
abbrev pub delegation_of : String → String → Option DelegationCredential
delegation_of controller_type region =
    if controller_type == "regional"
    then some (record {
      scope = region;
      permitted_actions = "validate_local_controllers" ∷ [];
      signature = "hmac-placeholder";
    })
    else none

module _ (p : Platform) (event_key : List ℕ) (bootstrap_secret : List ℕ) where
  -- The token that a controller with these data must submit.
  unfoldable pub bootstrap_token_of : Option String → Option String → Option String → String
  bootstrap_token_of temp_id region controller_type = p.hmac_text bootstrap_secret (
      append_text (shown temp_id)
        (append_text "|" (append_text (shown region) (append_text "|" (shown controller_type)))))

  -- `verify_bootstrap_token`: the blocklist is empty. `none` is the `TypeError` of the comparison.
  unfoldable pub verify_bootstrap_token : ValidationRequest → Option Bool
  verify_bootstrap_token r =
      compare_digest r.bootstrap_token (bootstrap_token_of r.temp_id r.region r.controller_type)

  abbrev pub store_challenge :
      Envelope ValidationRequest
      → String
      → String
      → String
      → List ℕ
      → ℕ
      → GlobalController
      → GlobalController × Outcome
  store_challenge env temp_id public_key challenge_id nonce now g = (
    record g {
      pending_challenges =
          insert challenge_id
            (record {
              temp_id = temp_id;
              nonce = nonce;
              public_key = public_key;
              expires_at = now + challenge_timeout;
              original_request = env.payload;
            })
            g.pending_challenges;
    },
    answer (some temp_id) env.message_id (challenge challenge_id nonce (now + challenge_timeout)),
  )

  -- A missing `temp_id` or `public_key` is a `KeyError`, before anything is stored.
  unfoldable pub issue_challenge :
      Envelope ValidationRequest
      → String
      → List ℕ
      → ℕ
      → GlobalController
      → GlobalController × Outcome
  issue_challenge env challenge_id nonce now g = elim env.payload.temp_id [
    | none ↦ (g, raised)
    | some temp_id ↦ elim env.payload.public_key [
      | none ↦ (g, raised)
      | some public_key ↦ store_challenge env temp_id public_key challenge_id nonce now g
    ]
  ]

  abbrev pub on_bootstrap :
      Option Bool
      → Envelope ValidationRequest
      → String
      → List ℕ
      → ℕ
      → GlobalController
      → GlobalController × Outcome
  on_bootstrap none env challenge_id nonce now g = (g, raised)
  on_bootstrap (some false) env challenge_id nonce now g =
      (g, create_rejection env invalid_bootstrap_token)
  on_bootstrap (some true) env challenge_id nonce now g =
      issue_challenge env challenge_id nonce now g

  abbrev pub on_timestamp :
      Option Reason
      → Envelope ValidationRequest
      → String
      → List ℕ
      → ℕ
      → GlobalController
      → GlobalController × Outcome
  on_timestamp (some reason) env challenge_id nonce now g = (g, create_rejection env reason)
  on_timestamp none env challenge_id nonce now g =
      on_bootstrap (verify_bootstrap_token env.payload) env challenge_id nonce now g

  unfoldable pub handle_validation_request :
      Envelope ValidationRequest
      → String
      → List ℕ
      → (ℕ → ℕ)
      → GlobalController
      → GlobalController × Outcome
  handle_validation_request env challenge_id nonce now g =
      on_timestamp (check_timestamp env.timestamp (now 0)) env challenge_id nonce (now 1) g

  -- The challenge is consumed before the signature is compared.
  abbrev pub judge_signature : Option Bool → ValidationRequest → Verdict
  judge_signature none r = type_error
  judge_signature (some false) r = refused_for challenge_signature
  judge_signature (some true) r = accepted r

  abbrev pub verify_pending :
      String
      → Option String
      → Option String
      → ℕ
      → PendingChallenge
      → GlobalController
      → GlobalController × Verdict
  verify_pending id temp_id signed_nonce now c g =
      if ltb c.expires_at now
      then (drop_challenge id g, refused_for challenge_expired)
      else if not (is_same temp_id c.temp_id)
      then (g, refused_for temp_id_mismatch)
      else (
        drop_challenge id g,
        judge_signature (compare_digest signed_nonce (p.hmac_text c.nonce "signed_by_controller"))
            c.original_request,
      )

  unfoldable pub verify_challenge_response :
      ChallengeResponse → ℕ → GlobalController → GlobalController × Verdict
  verify_challenge_response r now g = elim r.challenge_id [
    | none ↦ (g, refused_for unknown_challenge)
    | some id ↦ elim (lookup id g.pending_challenges) [
      | none ↦ (g, refused_for unknown_challenge)
      | some c ↦ verify_pending id r.temp_id r.signed_nonce now c g
    ]
  ]

  -- An event that cannot be written because its id is taken raises, and the method's `except` makes
  -- a registration failure of that; the controller's row stays.
  abbrev pub grant :
      NibStore ConfigData × Reply
      → String
      → String
      → String
      → String
      → ℕ
      → GlobalController
      → GlobalController × Answer
  grant (nib, integrity_error) assigned_id role region public_key issued_at g =
      (record g { nib = nib }, failed registration_failed)
  grant (nib, result r) assigned_id role region public_key issued_at g = (
    record g { nib = nib },
    granted_identity assigned_id
        (certificate_of p assigned_id role region public_key g.controller_id issued_at)
        (delegation_of role region) role region,
  )

  abbrev pub register :
      NibStore ConfigData × NibResult
      → String
      → String
      → String
      → String
      → String
      → ℕ
      → GlobalController
      → GlobalController × Answer
  register (nib, r) event_id assigned_id role region public_key issued_at g =
      if not r.success
      then (record g { nib = nib }, failed nib_write_failed)
      else grant
          (write_event p event_key
            (validated_event p event_id "Assigned controller identity" g.controller_id assigned_id
              role region issued_at)
            "" nib)
          assigned_id role region public_key issued_at g

  -- The number has been counted up already; `now` is read once.
  abbrev pub assign_numbered :
      ℕ
      → String
      → String
      → String
      → Option ControllerMetadata
      → String
      → ℕ
      → GlobalController
      → GlobalController × Answer
  assign_numbered seq role region public_key metadata event_id now g =
      let assigned_id = identity_of p role region seq in
      register
        (upsert_controller
          (controller_record p assigned_id role region public_key g.controller_id metadata now) now
          g.nib)
        event_id assigned_id role region public_key now g

  -- A type without a counter is a `KeyError`.
  unfoldable pub assign_identity :
      String
      → String
      → String
      → Option ControllerMetadata
      → String
      → ℕ
      → GlobalController
      → GlobalController × Option Answer
  assign_identity role region public_key metadata event_id now g =
      elim (lookup role g.controller_sequence) [
        | none ↦ (g, none)
        | some n ↦
            let (g', a) =
              assign_numbered (n + 1) role region public_key metadata event_id now
                (record g { controller_sequence = insert role (n + 1) g.controller_sequence }) in
            (g', some a)
      ]

  -- The answer goes to the temporary id if an identity was granted, and to the sender otherwise.
  abbrev pub deliver :
      Envelope ChallengeResponse → GlobalController × Option Answer → GlobalController × Outcome
  deliver env (g, none) = (g, raised)
  deliver env (g, some (granted_identity id c d role region)) =
      (g, answer env.payload.temp_id env.message_id (granted_identity id c d role region))
  deliver env (g, some a) = (g, answer (some env.sender_id) env.message_id a)

  -- Steps 5 and 6, for a request that has a type, a region and a public key; a missing one is a
  -- `KeyError`, for the key after the counting. A type or a region that is there as `None`, which the
  -- code rejects, counts as missing.
  abbrev pub admit :
      Envelope ChallengeResponse
      → Option String
      → Option String
      → Option String
      → Option ControllerMetadata
      → String
      → ℕ
      → GlobalController
      → GlobalController × Outcome
  admit env (some role) (some region) (some public_key) metadata event_id now g =
      elim (check_policy_of role region) [
        | some reason ↦ (g, create_rejection env reason)
        | none ↦ deliver env (assign_identity role region public_key metadata event_id now g)
      ]
  admit env (some role) (some region) none metadata event_id now g =
      elim (check_policy_of role region) [
        | some reason ↦ (g, create_rejection env reason)
        | none ↦ (count_up role g, raised)
      ]
  admit env _ _ _ metadata event_id now g = (g, raised)

  abbrev pub on_verdict :
      Envelope ChallengeResponse
      → String
      → ℕ
      → GlobalController × Verdict
      → GlobalController × Outcome
  on_verdict env event_id now (g, refused_for reason) = (g, create_rejection env reason)
  on_verdict env event_id now (g, type_error) = (g, raised)
  on_verdict env event_id now (g, accepted r) =
      admit env r.controller_type r.region r.public_key r.metadata event_id now g

  unfoldable pub handle_challenge_response :
      Envelope ChallengeResponse → String → (ℕ → ℕ) → GlobalController → GlobalController × Outcome
  handle_challenge_response env event_id now g =
      on_verdict env event_id (now 1) (verify_challenge_response env.payload (now 0) g)

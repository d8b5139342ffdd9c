-- ===== src/Controllers/Regional/Joins.antt =====
-- pdsno/controllers/regional_controller.py: how a regional controller gets its own identity. The
-- exchanges with the global controller are parameters over its state `S`; of the answers, `challenge`
-- is a `CHALLENGE` and any other a `VALIDATION_RESULT`.
use partially_distributed_sm.Common.{
  Bool, List, Option, String, [], append_text, if◌then◌else◌, nat_eq, some, string_eq, true, ℕ, ◌∷◌,
}
use partially_distributed_sm.Platform.{Platform}
use partially_distributed_sm.Controllers.Messages.{
  ChallengeResponse, DelegationCredential, ValidationRequest,
}
use partially_distributed_sm.Controllers.Global.{
  Answer, Outcome, answer, challenge, granted_identity, raised,
}
use partially_distributed_sm.Nib.Models.{Certificate}
use partially_distributed_sm.Controllers.Regional.{RegionalController}

-- A controller with what it keeps of its validation. `temp_id` is its first id.
pub record Applicant : Type 0 where
  pub temp_id : String
  pub validated : Bool
  pub assigned_id : Option String
  pub certificate : Option Certificate
  pub delegation_credential : Option DelegationCredential
  pub controller : RegionalController

-- The outcome of `request_validation`: its result, or an exception.
pub data Joined : Type 0 where
  returns : Bool → Joined
  raises : Joined

-- `self.controller_id = self.assigned_id`, and the ids of the engine and of the token manager.
abbrev pub rename_to : String → RegionalController → RegionalController
rename_to id c = record c {
  controller_id = id;
  engine = record c.engine { controller_id = id };
  tokens = record c.tokens { controller_id = id };
}

-- `_handle_validation_result`
unfoldable pub handle_validation_result : Answer → Applicant → Applicant
handle_validation_result (granted_identity id certificate delegation role region) a = record a {
  validated = true;
  assigned_id = some id;
  certificate = some certificate;
  delegation_credential = delegation;
  controller = rename_to id a.controller;
}
handle_validation_result _ a = a

-- `bool(self.validated)`, after what the answer to the challenge has changed.
abbrev pub on_result : {S : Type 0} → S × Outcome → Applicant → S × Applicant × Joined
on_result (s, raised) a = (s, a, raises)
on_result (s, answer recipient correlation (challenge id nonce expires)) a =
    (s, a, returns a.validated)
on_result (s, answer recipient correlation x) a =
    (s, handle_validation_result x a, returns (handle_validation_result x a).validated)

module _ (p : Platform) (bootstrap_secret : List ℕ) where
  -- `_generate_bootstrap_token`
  unfoldable pub generate_bootstrap_token : String → String → String
  generate_bootstrap_token temp_id region =
      p.hmac_text bootstrap_secret
        (append_text temp_id (append_text "|" (append_text region (append_text "|" "regional"))))

  unfoldable pub validation_payload : Applicant → ValidationRequest
  validation_payload a = record {
    temp_id = some a.temp_id;
    controller_type = some "regional";
    region = some a.controller.region;
    public_key = some "ed25519-pubkey-placeholder";
    bootstrap_token = some (generate_bootstrap_token a.temp_id a.controller.region);
    metadata = some (record {
      capabilities = some ("discovery" ∷ "approval" ∷ "policy_enforcement" ∷ []);
      entries =
          ("hostname", append_text "rc-" a.controller.region)
          ∷ ("ip_address", "10.0.0.1")
          ∷ ("software_version", "0.1.0")
          ∷ [];
    });
  }

  unfoldable pub challenge_payload : String → List ℕ → Applicant → ChallengeResponse
  challenge_payload id nonce a = record {
    challenge_id = some id;
    temp_id = some a.temp_id;
    signed_nonce = some (p.hmac_text nonce "signed_by_controller");
  }

  module _ {S : Type 0} (ask : ValidationRequest → S → S × Outcome)
      (respond : ChallengeResponse → S → S × Outcome) where
    abbrev pub on_first_answer : S × Outcome → Applicant → S × Applicant × Joined
    on_first_answer (s, answer recipient correlation (challenge id nonce expires)) a =
        on_result (respond (challenge_payload id nonce a) s) a
    on_first_answer (s, x) a = on_result (s, x) a

    unfoldable pub request_validation : S → Applicant → S × Applicant × Joined
    request_validation s a =
        if a.validated
        then (s, a, returns true)
        else on_first_answer (ask (validation_payload a) s) a

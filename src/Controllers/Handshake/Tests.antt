-- ===== src/Controllers/Handshake/Tests.antt =====
-- pdsno/controllers: a validation at concrete inputs.
use partially_distributed_sm.Common.{
  Bool, List, String, [], arith, codes, false, if◌then◌else◌, is_ascii, lookup, nat_eq, none, refl,
  some, string_eq, true, ℕ, ◌+◌, ◌==◌, ◌∷◌, ◌≡◌,
}
use partially_distributed_sm.Platform.{Platform}
use partially_distributed_sm.Fixtures.{platform, secret}
use partially_distributed_sm.Controllers.Global.{
  GlobalController, check_timestamp, new_global_controller,
}
use partially_distributed_sm.Controllers.Regional.Joins.{Applicant, request_validation, returns}
use partially_distributed_sm.Controllers.Handshake.{
  answer_global, ask_global, new_id, request_validation_succeeds,
}
use partially_distributed_sm.Nib.Store.{empty_store}
use partially_distributed_sm.Nib.Controllers.{get_controller}
use partially_distributed_sm.Config.Approval.Engine.{new_engine}
use partially_distributed_sm.Config.Sensitivity.Classifier.{new_classifier}

-- A digest that marks the answer to a challenge.
abbrev mark : List ℕ → String → String
mark key content = if content == "signed_by_controller" then "#s" else "#t"

mark-ascii : (key : List ℕ) (content : String) → is_ascii (codes (mark key content)) ≡ true
mark-ascii key content = marked (content == "signed_by_controller")
  where
    marked : (b : Bool) → is_ascii (codes (if b then "#s" else "#t")) ≡ true
    marked true = refl
    marked false = refl

abbrev marking : Platform
marking = record platform { hmac_text = mark }

abbrev applicant : Applicant
applicant = record {
  temp_id = "rc-temp";
  validated = false;
  assigned_id = none;
  certificate = none;
  delegation_credential = none;
  controller = record {
    controller_id = "rc-temp";
    region = "zone-A";
    has_http_client = true;
    nib = empty_store;
    engine = new_engine "rc-temp" "regional" 30 (some empty_store);
    classifier = new_classifier;
    tokens = record {
      controller_id = "rc-temp";
      shared_secret = secret;
      used_nonces = [];
      nonce_cleanup_counter = 0;
    };
    controller_sequence = 0;
    proposal_locks = [];
  };
}

abbrev clock : ℕ → ℕ
clock n = 10 + n

abbrev global_cntl : GlobalController
global_cntl = new_global_controller "global_cntl_1" empty_store

request_validation_succeeds_example :
    let after =
      request_validation marking secret
        (ask_global marking [] secret mark-ascii applicant global_cntl "ch" "e1"
          (7 ∷ [])
          10
          clock
          clock
          0)
        (answer_global marking [] secret mark-ascii applicant global_cntl "ch" "e1"
          (7 ∷ [])
          10
          clock
          clock
          0)
        global_cntl
        applicant in
    let id =
      new_id marking [] secret mark-ascii applicant global_cntl "ch" "e1"
        (7 ∷ [])
        10
        clock
        clock
        0 in
    (after.2 ≡ returns true)
    × (after.1.validated ≡ true)
    × (after.1.assigned_id ≡ some id)
    × (after.1.controller.controller_id ≡ id)
    × (after.1.controller.engine.controller_id ≡ id)
    × (after.1.controller.tokens.controller_id ≡ id)
unfolding check_timestamp lookup new_global_controller get_controller
request_validation_succeeds_example =
    request_validation_succeeds marking [] secret mark-ascii applicant global_cntl "ch" "e1"
      (7 ∷ []) 10 clock clock 0 refl refl (omega arith) refl refl refl refl refl refl

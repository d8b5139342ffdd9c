-- ===== src/Controllers/Global/Tests.antt =====
-- pdsno/controllers/global_controller.py: a validation at concrete inputs.
use mathlib.Core.List.{Mem}
use partially_distributed_sm.Common.{
  List, String, [], erase, insert, lookup, nat_eq, none, refl, some, string_eq, true, ℕ, ◌+◌, ◌∷◌,
  ◌≡◌, ◌≤◌,
}
use partially_distributed_sm.Platform.{compare_digest}
use partially_distributed_sm.Fixtures.{platform, secret}
use partially_distributed_sm.Controllers.Messages.{ChallengeResponse, Envelope, ValidationRequest}
use partially_distributed_sm.Controllers.Registration.{certificate_of}
use partially_distributed_sm.Nib.Models.{Certificate}
use partially_distributed_sm.Nib.Store.{empty_store}
use partially_distributed_sm.Nib.Events.{event_content, required_of_event, sealed, write_event}
use partially_distributed_sm.Nib.Controllers.{get_controller, renew, upsert_controller}
use partially_distributed_sm.Controllers.Global.{
  GlobalController, PendingChallenge, answer, assign_identity, bootstrap_token_of,
  challenge_timeout, check_policy_of, check_timestamp, delegation_of, granted_identity,
  handle_challenge_response, handle_validation_request, issue_challenge, new_global_controller,
  verify_bootstrap_token, verify_challenge_response,
}
use partially_distributed_sm.Controllers.Global.Validation.{
  Answers, IsPermitted, handle_challenge_response_granted, is_granted,
}
use partially_distributed_sm.Controllers.Global.Vouched.{
  GcCall, gc_call, gc_calls, gc_calls_granted, request,
}

abbrev asked : Envelope ValidationRequest
asked = record {
  message_id = "m1";
  sender_id = "rc-temp";
  timestamp = 10;
  payload = record {
    temp_id = some "rc-temp";
    controller_type = some "regional";
    region = some "zone-A";
    public_key = some "key";
    bootstrap_token = some "#rc-temp|zone-A|regional";
    metadata = none;
  };
}

abbrev answered : Envelope ChallengeResponse
answered = record {
  message_id = "m2";
  sender_id = "rc-temp";
  timestamp = 12;
  payload = record {
    challenge_id = some "ch";
    temp_id = some "rc-temp";
    signed_nonce = some "#signed_by_controller";
  };
}

abbrev clock : ℕ → ℕ
clock n = 10 + n

abbrev asking : List GcCall
asking = request asked "ch" (7 ∷ []) clock ∷ []

abbrev start : GlobalController
start = new_global_controller "global_cntl_1" empty_store

granted :
    is_granted
      (handle_challenge_response platform [] secret answered "e1" clock
        (gc_calls platform [] secret asking start)).1
    ≡ true
unfolding gc_calls gc_call handle_validation_request handle_challenge_response check_timestamp
    verify_bootstrap_token compare_digest bootstrap_token_of issue_challenge
    verify_challenge_response new_global_controller assign_identity upsert_controller get_controller
    write_event required_of_event event_content sealed lookup insert erase renew
granted = refl

abbrev certificate : Certificate
certificate =
    certificate_of platform "regional_cntl_zone-A_|" "regional" "zone-A" "key" "global_cntl_1" 11

granted_regional :
    (handle_challenge_response platform [] secret answered "e1" clock
      (gc_calls platform [] secret asking start)).1
    ≡ answer (some "rc-temp") "m2" (
        granted_identity "regional_cntl_zone-A_|" certificate
          (delegation_of "regional" "zone-A")
          "regional"
          "zone-A")
unfolding gc_calls gc_call handle_validation_request handle_challenge_response check_timestamp
    verify_bootstrap_token compare_digest bootstrap_token_of issue_challenge
    verify_challenge_response new_global_controller assign_identity upsert_controller get_controller
    write_event required_of_event event_content sealed lookup insert erase renew
granted_regional = refl

gc_calls_granted_example :
    (challenge_id : String) × (r : Envelope ValidationRequest) × (nonce : List ℕ) × (issued : ℕ → ℕ)
    × Mem (request r challenge_id nonce issued) asking
    × (some "ch" ≡ some challenge_id)
    × (some "rc-temp" ≡ r.payload.temp_id)
    × (some "#signed_by_controller" ≡ some (platform.hmac_text nonce "signed_by_controller"))
    × (10 ≤ issued 1 + challenge_timeout)
    × (check_timestamp r.timestamp (issued 0) ≡ none)
    × (r.payload.controller_type ≡ some "regional")
    × (r.payload.region ≡ some "zone-A")
    × (r.payload.bootstrap_token
        ≡ some (
            bootstrap_token_of platform [] secret r.payload.temp_id
              (some "zone-A")
              (some "regional")))
    × (check_policy_of "regional" "zone-A" ≡ none)
gc_calls_granted_example =
    gc_calls_granted platform [] secret "global_cntl_1" empty_store asking answered "e1" clock
      (some "rc-temp") "m2" "regional_cntl_zone-A_|" certificate (delegation_of "regional" "zone-A")
      "regional" "zone-A" granted_regional

handle_challenge_response_granted_example :
    (id : String) × (c : PendingChallenge) × Answers platform [] secret answered.payload 10
      (gc_calls platform [] secret asking start)
      id
      c
    × IsPermitted platform [] secret c.original_request
    × (lookup id
          (handle_challenge_response platform [] secret answered "e1" clock
            (gc_calls platform [] secret asking start)).0.pending_challenges
        ≡ none)
handle_challenge_response_granted_example =
    handle_challenge_response_granted platform [] secret answered "e1" clock
      (gc_calls platform [] secret asking start) granted

-- ===== src/Controllers/Regional/Tests.antt =====
-- pdsno/controllers/regional_controller.py: proposals and validations at concrete inputs.
use partially_distributed_sm.Common.{
  Dict, Distinct, List, Option, String, [], erase, false, insert, lookup, nat_eq, none, refl, some,
  string_eq, true, ℕ, ◌*◌, ◌+◌, ◌∷◌, ◌≡◌,
}
use partially_distributed_sm.Fixtures.{platform, platform-TellsApart, secret, stamp, stamped}
use partially_distributed_sm.Controllers.Messages.{
  Envelope, Instruction, Proposal, ValidationRequest,
}
use partially_distributed_sm.Controllers.Holding.{set_config_status}
use partially_distributed_sm.Nib.Store.{NibStore, empty_store}
use partially_distributed_sm.Nib.Locks.{acquire_lock, check_lock, release_lock}
use partially_distributed_sm.Nib.Configs.{
  create_config_proposal, get_config, required, set_status, update_config_status,
}
use partially_distributed_sm.Nib.Controllers.{get_controller, upsert_controller}
use partially_distributed_sm.Nib.Events.{event_content, required_of_event, sealed, write_event}
use partially_distributed_sm.Config.Token.{issue_token}
use partially_distributed_sm.Config.Approval.Engine.{
  ConfigData, approve_found, approve_request, cache, can_approve, cleanup_expired_requests,
  config_of, expire_all, expire_one, get_request, is_expired, new_engine, persist_request,
  result_state, role_of, set_execution_result, set_execution_token, set_result_found,
  set_token_found, write_request,
}
use partially_distributed_sm.Config.Sensitivity.Classifier.{
  Regex, classify, new_classifier, some_match,
}
use partially_distributed_sm.Controllers.Regional.{
  RegionalController, acquire_proposal_lock, release_expired_proposal_locks, release_over,
  release_proposal_lock, validate_local_controller,
}
use partially_distributed_sm.Controllers.Regional.Results.{
  handle_execution_result, is_terminal_execution_status,
}
use partially_distributed_sm.Controllers.Regional.Proposals.{
  Fresh, GcProposal, GcReply, approved, gc_silent, handle_config_proposal, instruction_of,
  max_sensitivity,
}
use partially_distributed_sm.Controllers.Regional.Validates.{Asked, given_ids, given_ids-Distinct}
use partially_distributed_sm.Config.Sensitivity.{SensitivityLevel}
use partially_distributed_sm.Config.Approval.Request.{ApprovalRequest, ApprovalState, new_request}

abbrev pub clock : ℕ → ℕ → ℕ
clock k n = 10 * k + n

abbrev pub fresh : Fresh
fresh = record { lock_id = "lock"; token_id = "tok"; nonce = "n1"; event_id = "e1" }

abbrev pub nothing_matches : Regex Unit
nothing_matches = record { compiles = λ q. true; search = λ q text. false; findall = λ q text. [] }

-- A global controller that does not answer, and a local one that executes.
abbrev pub silent : GcProposal → NibStore ConfigData → NibStore ConfigData × GcReply
silent q nib = (nib, gc_silent)

abbrev pub executes :
    String → Instruction → NibStore ConfigData → NibStore ConfigData × Option (Dict String String)
executes recipient i nib = (nib, some (("proposal_id", "req") ∷ ("status", "EXECUTED") ∷ []))

abbrev pub request : ApprovalRequest
request = record (new_request "req" "sw" ("vlan 7" ∷ []) SensitivityLevel.medium "lc" 1) {
  state = ApprovalState.pending_approval;
  submitted_at = some 1;
}

abbrev pub regional_cntl : RegionalController
regional_cntl = record {
  controller_id = "regional_cntl_zone-A_1";
  region = "zone-A";
  has_http_client = true;
  nib = empty_store;
  engine =
      cache "req" request (new_engine "regional_cntl_zone-A_1" "regional" 30 (some empty_store));
  classifier = new_classifier;
  tokens = record {
    controller_id = "regional_cntl_zone-A_1";
    shared_secret = secret;
    used_nonces = [];
    nonce_cleanup_counter = 0;
  };
  controller_sequence = 0;
  proposal_locks = [];
}

abbrev pub proposed : Envelope Proposal
proposed = record {
  message_id = "m1";
  sender_id = "local_cntl_zone-A_1";
  timestamp = 5;
  payload = record {
    proposal_id = some "req";
    device_id = some "sw";
    config_lines = some ("vlan 7" ∷ []);
    region = none;
    execute_at = none;
  };
}

-- The token is valid for 15 minutes from its issue at 30.
abbrev pub sent : Instruction
sent =
    instruction_of stamped [] nothing_matches silent executes "req" "sw" ("vlan 7" ∷ [])
      (issue_token stamped regional_cntl.tokens "req" "sw" (some 15) 30 "tok" "n1") none

pub approves :
    (handle_config_proposal stamped [] nothing_matches silent executes proposed fresh clock
      regional_cntl).1
    ≡ approved "req" "regional_cntl_zone-A_1"
        (stamp 70)
        sent
        (("proposal_id", "req") ∷ ("status", "EXECUTED") ∷ [])
unfolding handle_config_proposal release_expired_proposal_locks cleanup_expired_requests expire_all
    expire_one is_expired release_over acquire_proposal_lock check_lock acquire_lock get_request
    new_engine new_request classify some_match max_sensitivity approve_request approve_found
    can_approve role_of persist_request write_request get_config create_config_proposal required
    config_of issue_token set_execution_token set_token_found set_config_status update_config_status
    set_status handle_execution_result set_execution_result set_result_found result_state
    is_terminal_execution_status release_proposal_lock release_lock write_event required_of_event
    sealed event_content lookup insert erase
approves = refl

-- A request of high sensitivity, for which the global controller gives no answer.
abbrev risky_cntl : RegionalController
risky_cntl = record regional_cntl {
  engine =
      cache "req" (record request { sensitivity = SensitivityLevel.high })
        (new_engine "regional_cntl_zone-A_1" "regional" 30 (some empty_store));
}

abbrev joining : Envelope ValidationRequest
joining = record {
  message_id = "m1";
  sender_id = "lc-temp";
  timestamp = 10;
  payload = record {
    temp_id = some "lc-temp";
    controller_type = some "local";
    region = some "zone-A";
    public_key = some "key";
    bootstrap_token = none;
    metadata = none;
  };
}

abbrev joins : List Asked
joins =
    record { envelope = joining; event_id = "e1"; now = 10 }
    ∷ record { envelope = joining; event_id = "e2"; now = 11 }
    ∷ []

two_given :
    given_ids platform [] joins regional_cntl ≡ "local_cntl_zone-A_|" ∷ "local_cntl_zone-A_||" ∷ []
unfolding given_ids validate_local_controller upsert_controller get_controller write_event
    required_of_event sealed event_content
two_given = refl

given_ids-Distinct_example : Distinct (given_ids platform [] joins regional_cntl)
given_ids-Distinct_example = given_ids-Distinct platform [] platform-TellsApart joins regional_cntl

-- ===== src/Controllers/Flow/Tests.antt =====
-- pdsno/controllers: an approval and its execution at concrete inputs.
use partially_distributed_sm.Common.{
  List, String, [], nat_eq, non_empty, none, refl, some, string_eq, true, ℕ, ◌+◌, ◌∷◌, ◌≡◌,
}
use partially_distributed_sm.Fixtures.{secret, stamp, stamped}
use partially_distributed_sm.Controllers.Holding.{set_config_status}
use partially_distributed_sm.Controllers.Secrets.{execution_secret}
use partially_distributed_sm.Nib.Store.{empty_store}
use partially_distributed_sm.Nib.Configs.{get_config}
use partially_distributed_sm.Nib.Events.{event_content, required_of_event, sealed, write_event}
use partially_distributed_sm.Config.Token.{
  ExecutionToken, ExecutionTokenManager, issue_token, new_manager,
}
use partially_distributed_sm.Config.Approval.Engine.{new_engine}
use partially_distributed_sm.Config.Sensitivity.Classifier.{
  Regex, classify, new_classifier, some_match,
}
use partially_distributed_sm.Controllers.Regional.Tests.{proposed}
use partially_distributed_sm.Controllers.Global.Proposals.{
  decide_proposal, gc_approves, is_level_high,
}
use partially_distributed_sm.Controllers.Global.Decides.{IssuedFor, decide_proposal_approves}
use partially_distributed_sm.Controllers.Local.{LocalController}
use partially_distributed_sm.Controllers.Global.{GlobalController, new_global_controller}

abbrev local_cntl : LocalController
local_cntl = record {
  controller_id = "local_cntl_zone-A_1";
  region = "zone-A";
  nib = empty_store;
  engine = new_engine "local_cntl_zone-A_1" "local" 30 (some empty_store);
  classifier = new_classifier;
  tokens = record {
    controller_id = "local_cntl_zone-A_1";
    shared_secret = secret;
    used_nonces = [];
    nonce_cleanup_counter = 0;
  };
  last_scan_devices = [];
}

abbrev all_match : Regex Unit
all_match = record { compiles = λ q. true; search = λ q text. true; findall = λ q text. [] }

abbrev digest_of : String → List ℕ
digest_of text = secret

abbrev times : ℕ → ℕ
times n = 10 + n

abbrev global_cntl : GlobalController
global_cntl = new_global_controller "global_cntl_1" empty_store

-- The manager that the global controller makes for the region.
abbrev issuer : ExecutionTokenManager
issuer = record {
  controller_id = "global_cntl_1";
  shared_secret = secret;
  used_nonces = [];
  nonce_cleanup_counter = 0;
}

abbrev token : ExecutionToken
token = issue_token stamped issuer "req" "sw" (some 5) 10 "tok" "n1"

decides :
    (decide_proposal stamped [] all_match digest_of none proposed "tok" "n1" "e1" times
      global_cntl).1
    ≡ gc_approves "req" "global_cntl_1" (stamp 13) token
unfolding decide_proposal classify some_match new_manager execution_secret issue_token
    set_config_status get_config write_event required_of_event sealed event_content
    new_global_controller
decides = refl

decide_proposal_approves_example :
    (d : String) × (proposed.payload.proposal_id ≡ some "req")
    × (proposed.payload.device_id ≡ some d)
    × (non_empty d ≡ true)
    × (is_level_high (classify all_match global_cntl.classifier ("vlan 7" ∷ [])) ≡ true)
    × ("global_cntl_1" ≡ global_cntl.controller_id)
    × IssuedFor stamped [] all_match digest_of none proposed "tok" "n1" "e1" times global_cntl "req"
        d token
decide_proposal_approves_example =
    decide_proposal_approves stamped [] all_match digest_of none proposed "tok" "n1" "e1" times
      global_cntl "req" "global_cntl_1" (stamp 13) token decides

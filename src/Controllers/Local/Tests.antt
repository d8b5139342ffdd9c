-- ===== src/Controllers/Local/Tests.antt =====
-- pdsno/controllers/local_controller.py: instructions and scans at concrete inputs.
use partially_distributed_sm.Common.{
  Distinct, List, Option, String, [], arith, elem, erase, false, insert, keys, length, lookup,
  nat_eq, none, not, refl, some, string_eq, true, ℕ, ◌&&◌, ◌+◌, ◌==◌, ◌∷◌, ◌≡◌,
}
use partially_distributed_sm.Fixtures.{platform, secret, write_time}
use partially_distributed_sm.Controllers.Messages.{ExecutionReport, Instruction}
use partially_distributed_sm.Controllers.Holding.{set_config_status}
use partially_distributed_sm.Nib.Store.{empty_store}
use partially_distributed_sm.Nib.Events.{event_content, required_of_event, sealed, write_event}
use partially_distributed_sm.Nib.Devices.{
  complete, discovery_method_of, get_device_by_mac, new_row, required_of_device, upsert_device,
}
use partially_distributed_sm.Nib.Configs.{
  create_config_proposal, get_config, required, update_config_status,
}
use partially_distributed_sm.Config.Token.{
  ExecutionToken, add_nonce, cleanup_nonces, device_mismatch, from_dict, refusal, sign_token,
  to_dict, verify_token,
}
use partially_distributed_sm.Config.Approval.Engine.{
  config_of, create_request, get_request, load_request_from_nib, new_engine, persist_request,
  set_execution_result, set_result_found, submit_found, submit_request, write_request,
}
use partially_distributed_sm.Config.Sensitivity.Classifier.{
  Regex, classify, new_classifier, some_match,
}
use partially_distributed_sm.Controllers.Local.{
  Failure, LocalController, execute_config_change, finish_execution, handle_execution_instruction,
  mark_config_executing, mark_config_terminal_state, run_token,
}
use partially_distributed_sm.Controllers.Local.Once.{
  Received, executed_nonces, executed_nonces-Distinct,
}
use partially_distributed_sm.Controllers.Local.Discovery.{
  ArpDevice, ScannedDevice, by_mac, detect_deltas, merge_scan_results, write_devices_to_nib,
}
use partially_distributed_sm.Controllers.Local.Rescan.{changed, macs}
use partially_distributed_sm.Controllers.Local.Absent.{gone_macs}
use partially_distributed_sm.Controllers.Local.Settles.{detect_deltas_again}
use partially_distributed_sm.Controllers.Local.Submits.{Submission, submit_config_proposal}
use partially_distributed_sm.Controllers.Local.Routes.{Routes, submit_config_proposal-Routes}
use partially_distributed_sm.Config.Approval.Request.{new_request}
use mathlib.Core.Option

abbrev local_cntl : LocalController
local_cntl = record {
  controller_id = "local_cntl_zone-A_1";
  region = "zone-A";
  nib = empty_store;
  engine = new_engine "local_cntl_zone-A_1" "local" 30 (some empty_store);
  classifier = new_classifier;
  tokens = record {
    controller_id = "local_cntl_zone-A_1";
    shared_secret = secret;
    used_nonces = [];
    nonce_cleanup_counter = 0;
  };
  last_scan_devices = [];
}

abbrev token : ExecutionToken
token = record {
  token_id = "tok";
  request_id = "req";
  device_id = "sw";
  issued_by = "rc";
  issued_at = 5;
  expires_at = 20;
  nonce = "n1";
  signature = some "#n1";
}

abbrev instruction : Instruction
instruction = record {
  proposal_id = some "req";
  device_id = some "sw";
  config_lines = some ("vlan 7" ∷ []);
  execution_token = some (to_dict platform token);
  execute_at = none;
}

abbrev clock : ℕ → ℕ
clock n = 10 + n

abbrev text_of : Failure → String
text_of f = "failed"

abbrev report : ExecutionReport
report = record {
  proposal_id = some "req";
  executor = "local_cntl_zone-A_1";
  status = "EXECUTED";
  reason = none;
  timestamp = write_time 17;
}

abbrev received : List Received
received =
    record { instruction = instruction; event_id = "e1"; now = clock }
    ∷ record { instruction = instruction; event_id = "e2"; now = clock }
    ∷ []

-- The second time, the token is refused.
executed_one : executed_nonces platform [] text_of local_cntl received ≡ "n1" ∷ []
unfolding handle_execution_instruction run_token finish_execution from_dict to_dict verify_token
    refusal sign_token device_mismatch cleanup_nonces add_nonce mark_config_executing
    mark_config_terminal_state set_config_status update_config_status get_config
    execute_config_change set_execution_result get_request load_request_from_nib set_result_found
    new_engine write_event required_of_event event_content sealed lookup erase insert
    executed_nonces
executed_one = refl

executed_nonces-Distinct_example :
    Distinct (executed_nonces platform [] text_of local_cntl received)
    × ((n : String)
        → elem n [] ≡ true
        → elem n (executed_nonces platform [] text_of local_cntl received) ≡ false)
executed_nonces-Distinct_example =
    executed_nonces-Distinct platform [] text_of local_cntl received (omega arith)

abbrev arp : List ArpDevice
arp =
    record { ip = "10.0.0.1"; mac = "aa:01"; timestamp = "T||"; protocol = none }
    ∷ record { ip = "10.0.0.2"; mac = "aa:02"; timestamp = "T||"; protocol = none }
    ∷ []

abbrev scan : List ScannedDevice
scan = merge_scan_results arp (("10.0.0.1", record { rtt_ms = some "2" }) ∷ []) []

abbrev rows : ℕ → String
rows n = write_time n

abbrev times : ℕ → ℕ → ℕ
times k n = 100 + k + n

detect_deltas_again_example :
    let c =
      (write_devices_to_nib platform
        (changed (detect_deltas scan local_cntl))
        rows
        times
        local_cntl).0 in
    ((detect_deltas scan c).new ≡ [])
    × ((detect_deltas scan c).updated ≡ [])
    × (length (detect_deltas scan c).unchanged ≡ length (by_mac scan []))
    × ((detect_deltas scan c).inactive ≡ (detect_deltas scan local_cntl).inactive)
    × ((k : String)
        → elem k (gone_macs (detect_deltas scan c).inactive)
          ≡ (elem k (keys local_cntl.last_scan_devices) && not (elem k (macs scan))))
unfolding detect_deltas write_devices_to_nib merge_scan_results upsert_device get_device_by_mac
    required_of_device lookup insert new_row complete discovery_method_of
detect_deltas_again_example = detect_deltas_again platform scan rows times local_cntl refl

abbrev vlan_is_medium : Regex Unit
vlan_is_medium = record {
  compiles = λ q. true;
  search = λ q text. q == "vlan\\s+\\d+";
  findall = λ q text. [];
}

abbrev proposed : LocalController × Submission
proposed =
    submit_config_proposal platform vlan_is_medium (λ text. "hash") "req" "sw" ("vlan 7" ∷ [])
      (some "undo") none clock local_cntl

-- The engine has written the row before the controller does: the hash and the rollback payload of the
-- controller's record are not stored.
row_of_engine :
    Option.map {B = String × Option String}
      (λ row. (row.config_hash, row.rollback_payload))
      (get_config "req" proposed.0.nib)
    ≡ some ("", none)
unfolding submit_config_proposal submit_request submit_found create_request new_request new_engine
    classify some_match persist_request write_request config_of create_config_proposal required
    get_config lookup insert
row_of_engine = refl

submit_config_proposal-Routes_example :
    Routes platform vlan_is_medium
      (λ text. "hash")
      "req"
      "sw"
      ("vlan 7" ∷ [])
      (classify vlan_is_medium local_cntl.classifier ("vlan 7" ∷ []))
      proposed
submit_config_proposal-Routes_example =
    submit_config_proposal-Routes platform vlan_is_medium (λ text. "hash") "req" "sw"
      ("vlan 7" ∷ []) (some "undo") none clock local_cntl

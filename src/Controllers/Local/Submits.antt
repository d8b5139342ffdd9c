-- ===== src/Controllers/Local/Submits.antt =====
-- pdsno/controllers/local_controller.py: the submission of a proposal, up to the message to the
-- regional controller, whose answer is only handed on. `sha256_hex` is `hashlib`'s; the id is made by
-- `uuid`.
use partially_distributed_sm.Common.{
  Bool, List, Option, String, false, if◌then◌else◌, lookup, nat_eq, none, not, some, string_eq,
  true, ℕ, ◌&&◌, ◌+◌,
}
use partially_distributed_sm.Platform.{Platform}
use partially_distributed_sm.Controllers.Holding.{nib_of, with_nib}
use partially_distributed_sm.Nib.Store.{NibStore}
use partially_distributed_sm.Nib.Configs.{create_config_proposal}
use partially_distributed_sm.Config.Approval.Engine.{
  ConfigData, Engine, create_request, json, submit_request,
}
use partially_distributed_sm.Config.Sensitivity.Classifier.{Regex, classify, join_lines}
use partially_distributed_sm.Controllers.Local.{LocalController}
use partially_distributed_sm.Nib.Models.{
  Config, ConfigStatus, ConfigCategory, NibError, NibResult, already_exists,
}
use partially_distributed_sm.Config.Sensitivity.{SensitivityLevel}
use partially_distributed_sm.Config.Approval.Request.{ApprovalRequest, ApprovalState}
use partially_distributed_sm.Config.Approval.Request

-- The payload of the `CONFIG_PROPOSAL` that is sent.
pub record Submitted : Type 0 where
  pub proposal_id : String
  pub device_id : String
  pub config_lines : List String
  pub suggested_sensitivity : SensitivityLevel
  pub rollback_payload : Option String
  pub timestamp : String
  pub policy_version : Option String
  pub origin : String

pub data Submission : Type 0 where
  submit_failed : String → Submission
  nib_failed : String → Option NibError → Submission
  auto_approved : String → SensitivityLevel → Submission
  sent_to_regional : Submitted → Submission

-- `"already exists" in error.lower()`: the text of one error says so.
abbrev pub says_already_exists : Option NibError → Bool
says_already_exists (some (already_exists id)) = true
says_already_exists _ = false

abbrev pub is_pending_approval : ApprovalState → Bool
is_pending_approval ApprovalState.pending_approval = true
is_pending_approval _ = false

abbrev pub is_approved_request : ApprovalState → Bool
is_approved_request ApprovalState.approved = true
is_approved_request _ = false

-- `_to_config_category`
abbrev pub to_config_category : SensitivityLevel → ConfigCategory
to_config_category SensitivityLevel.low = ConfigCategory.low
to_config_category SensitivityLevel.medium = ConfigCategory.medium
to_config_category SensitivityLevel.high = ConfigCategory.high

abbrev pub put_local_engine : Engine → LocalController → LocalController
put_local_engine e c = record c { engine = e; nib = nib_of c.nib e }

module _ (p : Platform) {Match : Type 0} (rx : Regex Match) (sha256_hex : String → String) where
  -- `_hash_config`
  abbrev pub hash_config : List String → String
  hash_config lines = sha256_hex (join_lines lines)

  abbrev pub config_record :
      ApprovalRequest
      → String
      → List String
      → SensitivityLevel
      → Option String
      → Option String
      → ℕ
      → LocalController
      → Config ConfigData
  config_record r device_id lines level rollback policy_version now c = record {
    config_id = r.request_id;
    device_id = device_id;
    config_hash = hash_config lines;
    category = to_config_category level;
    status = if is_pending_approval r.state then ConfigStatus.pending else ConfigStatus.approved;
    proposed_by = some c.controller_id;
    approved_by = none;
    execution_token = none;
    proposed_at = some now;
    approved_at = none;
    executed_at = none;
    expiry = none;
    policy_version = policy_version;
    rollback_payload = rollback;
    config_data = some (json (Request.to_dict p r));
    reason = none;
    version = 0;
  }

  -- A request that was approved on submission is not sent on.
  abbrev pub on_created :
      NibStore ConfigData × NibResult
      → ApprovalRequest
      → String
      → List String
      → SensitivityLevel
      → Option String
      → Option String
      → ℕ
      → LocalController
      → LocalController × Submission
  on_created (nib, w) r device_id lines level rollback policy_version now c =
      if not w.success && not (says_already_exists w.error)
      then (record c { nib = nib }, nib_failed r.request_id w.error)
      else if is_approved_request r.state
      then (record c { nib = nib }, auto_approved r.request_id level)
      else (
        record c { nib = nib },
        sent_to_regional (record {
          proposal_id = r.request_id;
          device_id = device_id;
          config_lines = lines;
          suggested_sensitivity = level;
          rollback_payload = rollback;
          timestamp = p.isoformat now;
          policy_version = policy_version;
          origin = c.controller_id;
        }),
      )

  -- The request is the object that `submit_request` has changed.
  abbrev pub on_submitted :
      Option ApprovalRequest
      → String
      → String
      → List String
      → SensitivityLevel
      → Option String
      → Option String
      → (ℕ → ℕ)
      → LocalController
      → LocalController × Submission
  on_submitted none id device_id lines level rollback policy_version now c = (c, submit_failed id)
  on_submitted (some r) id device_id lines level rollback policy_version now c =
      on_created
        (create_config_proposal
          (config_record r device_id lines level rollback policy_version (now 7) c) (now 8) c.nib)
        r device_id lines level rollback policy_version (now 9) c

  abbrev pub on_submit :
      Engine × Bool
      → String
      → String
      → List String
      → SensitivityLevel
      → Option String
      → Option String
      → (ℕ → ℕ)
      → LocalController
      → LocalController × Submission
  on_submit (e, false) id device_id lines level rollback policy_version now c =
      (put_local_engine e c, submit_failed id)
  on_submit (e, true) id device_id lines level rollback policy_version now c =
      on_submitted (lookup id e.requests) id device_id lines level rollback policy_version now
        (put_local_engine e c)

  unfoldable pub submit_config_proposal :
      String
      → String
      → List String
      → Option String
      → Option String
      → (ℕ → ℕ)
      → LocalController
      → LocalController × Submission
  submit_config_proposal id device_id lines rollback policy_version now c =
      let level = classify rx c.classifier lines in
      let (e, r) = create_request p id device_id lines level (now 0) (with_nib c.nib c.engine) in
      on_submit (submit_request p id (λ n. now (n + 1)) e) id device_id lines level rollback
        policy_version now c

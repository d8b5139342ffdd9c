-- ===== src/Controllers/Regional/Proposals.antt =====
-- pdsno/controllers/regional_controller.py: the review of proposals. The exchanges with the global
-- and the local controller are parameters, which may change the store that all of them share. What
-- `uuid` and `secrets` make is an argument.
use partially_distributed_sm.Common.{
  Bool, Dict, List, Option, String, false, if◌then◌else◌, leb, nat_eq, non_empty, none, not, some,
  string_eq, true, ℕ, ◌==◌, ◌||◌,
}
use partially_distributed_sm.Platform.{Platform}
use partially_distributed_sm.Controllers.Messages.{
  Envelope, Instruction, Proposal, or_empty, text_or,
}
use partially_distributed_sm.Controllers.Regional.{
  LockOutcome, LockRefusal, RegionalController, acquire_proposal_lock, engine_of, lock_raised,
  locked, not_locked, put_engine, release_expired_proposal_locks, release_proposal_lock,
}
use partially_distributed_sm.Controllers.Regional.Results.{
  handle_execution_result, record_dispatch_failure, set_nib, set_status_of,
}
use partially_distributed_sm.Nib.Store.{NibStore}
use partially_distributed_sm.Config.Token.{ExecutionToken, issue_token, refusal, to_dict}
use partially_distributed_sm.Config.Approval.Engine.{
  ConfigData, Engine, approve_request, get_request, set_execution_token,
}
use partially_distributed_sm.Config.Sensitivity.Classifier.{Regex, classify}
use partially_distributed_sm.Nib.Models.{ConfigStatus}
use partially_distributed_sm.Config.Sensitivity.{SensitivityLevel}
use partially_distributed_sm.Config.Approval.Request.{ApprovalRequest}

pub record Fresh : Type 0 where
  pub lock_id : String
  pub token_id : String
  pub nonce : String
  pub event_id : String

-- What the global controller is asked; the sensitivity that is suggested is always `HIGH`.
pub record GcProposal : Type 0 where
  pub proposal_id : String
  pub device_id : String
  pub config_lines : List String
  pub origin : String
  pub region : String

-- The payload of its `CONFIG_APPROVAL`. The token's dictionary is held as the token that it encodes,
-- and passed on as that token's dictionary: one that encodes none is left out.
pub record GcDecision : Type 0 where
  pub decision : Option String
  pub reason : Option String
  pub responder : Option String
  pub execution_token : Option ExecutionToken

-- Any other answer, or none, is `gc_silent`.
pub data GcReply : Type 0 where
  gc_decides : GcDecision → GcReply
  gc_silent gc_raises : GcReply

pub data DenyReason : Type 0 where
  fields_missing : DenyReason
  lock_refused : LockRefusal → DenyReason
  request_not_found approval_failed dispatch_failed : DenyReason
  gc_no_decision gc_missing_token could_not_record_approval : DenyReason

-- The answer to a proposal: its id; for an approval the responder, the time, the instruction and the
-- result. `forwarded` is a decision of the global controller that is no approval.
pub data Decision : Type 0 where
  denied : Option String → DenyReason → Decision
  escalated : String → Decision
  forwarded : String → String → String → String → Decision
  approved : String → String → String → Instruction → Dict String String → Decision
  raised : Decision

abbrev pub rank : SensitivityLevel → ℕ
rank SensitivityLevel.low = 1
rank SensitivityLevel.medium = 2
rank SensitivityLevel.high = 3

unfoldable pub max_sensitivity : SensitivityLevel → SensitivityLevel → SensitivityLevel
max_sensitivity left right = if leb (rank right) (rank left) then left else right

abbrev pub is_high : SensitivityLevel → Bool
is_high SensitivityLevel.high = true
is_high _ = false

-- A denial that first releases the lock of the proposal.
abbrev pub deny_released : String → DenyReason → RegionalController → RegionalController × Decision
deny_released id reason c = (release_proposal_lock id c, denied (some id) reason)

abbrev pub gc_question :
    Envelope Proposal → String → String → List String → RegionalController → GcProposal
gc_question env id device_id lines c = record {
  proposal_id = id;
  device_id = device_id;
  config_lines = lines;
  origin = env.sender_id;
  region = c.region;
}

module _ (p : Platform) (event_key : List ℕ) where
  abbrev pub on_recorded :
      RegionalController × Bool
      → String
      → String
      → Instruction
      → Dict String String
      → ℕ
      → RegionalController × Decision
  on_recorded (c, false) id responder i fields now = (c, raised)
  on_recorded (c, true) id responder i fields now =
      (c, approved id responder (p.isoformat now) i fields)

  -- The local controller's answer; none if it sent none, or another message, or the sending failed.
  abbrev pub on_dispatched :
      NibStore ConfigData × Option (Dict String String)
      → String
      → String
      → String
      → Instruction
      → String
      → (ℕ → ℕ → ℕ)
      → RegionalController
      → RegionalController × Decision
  on_dispatched (nib, none) id sender responder i event_id now c = (
    record_dispatch_failure p event_key id "EXECUTION_DISPATCH_FAILED" (now 6) (set_nib nib c),
    denied (some id) dispatch_failed,
  )
  on_dispatched (nib, some fields) id sender responder i event_id now c =
      on_recorded
        (handle_execution_result p event_key sender fields event_id (now 6) (set_nib nib c)) id
        responder i fields (now 7 0)

  module _ {Match : Type 0} (rx : Regex Match)
      (ask_gc : GcProposal → NibStore ConfigData → NibStore ConfigData × GcReply)
      (dispatch : String
        → Instruction
        → NibStore ConfigData
        → NibStore ConfigData × Option (Dict String String)) where
    -- The token is noted in the request and in the config's row, and the instruction is sent.
    abbrev pub note_and_dispatch :
        String
        → String
        → String
        → Option ℕ
        → ExecutionToken
        → Instruction
        → String
        → (ℕ → ℕ → ℕ)
        → RegionalController
        → RegionalController × Decision
    note_and_dispatch id sender responder expiry t i event_id now c =
        let c₁ = put_engine (set_execution_token p id t.token_id (now 4) (engine_of c)).0 c in
        let c₂ =
          set_status_of id ConfigStatus.approved (some responder) (some t.token_id) expiry (now 5 0)
            c₁ in
        on_dispatched (dispatch sender i c₂.nib) id sender responder i event_id now c₂

    abbrev pub instruction_of :
        String → String → List String → ExecutionToken → Option String → Instruction
    instruction_of id device_id lines t execute_at = record {
      proposal_id = some id;
      device_id = some device_id;
      config_lines = some lines;
      execution_token = some (to_dict p t);
      execute_at = execute_at;
    }

    -- The approval of a proposal that is not `HIGH`; the token is valid for 15 minutes.
    abbrev pub on_approved :
        Engine × Bool
        → Envelope Proposal
        → String
        → String
        → List String
        → Fresh
        → (ℕ → ℕ → ℕ)
        → RegionalController
        → RegionalController × Decision
    on_approved (e, false) env id device_id lines fresh now c =
        deny_released id approval_failed (put_engine e c)
    on_approved (e, true) env id device_id lines fresh now c =
        let t =
          issue_token p c.tokens id device_id (some 15) (now 3 0) fresh.token_id fresh.nonce in
        note_and_dispatch id env.sender_id c.controller_id (some t.expires_at) t
          (instruction_of id device_id lines t env.payload.execute_at) fresh.event_id now
          (put_engine e c)

    abbrev pub on_gc_recorded :
        Engine × Bool
        → Envelope Proposal
        → String
        → String
        → List String
        → String
        → ExecutionToken
        → Fresh
        → (ℕ → ℕ → ℕ)
        → RegionalController
        → RegionalController × Decision
    on_gc_recorded (e, false) env id device_id lines responder t fresh now c =
        deny_released id could_not_record_approval (put_engine e c)
    on_gc_recorded (e, true) env id device_id lines responder t fresh now c =
        note_and_dispatch id env.sender_id responder none t
          (instruction_of id device_id lines t none) fresh.event_id now (put_engine e c)

    abbrev pub on_gc_token :
        Option ExecutionToken
        → Envelope Proposal
        → String
        → String
        → List String
        → String
        → Fresh
        → (ℕ → ℕ → ℕ)
        → RegionalController
        → RegionalController × Decision
    on_gc_token none env id device_id lines responder fresh now c =
        deny_released id gc_missing_token c
    on_gc_token (some t) env id device_id lines responder fresh now c =
        on_gc_recorded (approve_request p id responder (now 2) (engine_of c)) env id device_id lines
          responder t fresh now c

    -- An exception of the sending leaves the handler, with the lock held.
    abbrev pub on_gc_reply :
        NibStore ConfigData × GcReply
        → Envelope Proposal
        → String
        → String
        → List String
        → Fresh
        → (ℕ → ℕ → ℕ)
        → RegionalController
        → RegionalController × Decision
    on_gc_reply (nib, gc_raises) env id device_id lines fresh now c = (set_nib nib c, raised)
    on_gc_reply (nib, gc_silent) env id device_id lines fresh now c =
        deny_released id gc_no_decision (set_nib nib c)
    on_gc_reply (nib, gc_decides d) env id device_id lines fresh now c =
        if not (text_or d.decision "" == "APPROVE")
        then (
          release_proposal_lock id (set_nib nib c),
          forwarded id (text_or d.decision "DENY") (text_or d.reason "GC_DENIED")
              (text_or d.responder "global_cntl_1"),
        )
        else on_gc_token d.execution_token env id device_id lines
            (text_or d.responder "global_cntl_1") fresh now (set_nib nib c)

    unfoldable pub handle_high_proposal_via_gc :
        Envelope Proposal
        → String
        → String
        → List String
        → Fresh
        → (ℕ → ℕ → ℕ)
        → RegionalController
        → RegionalController × Decision
    handle_high_proposal_via_gc env id device_id lines fresh now c =
        if not c.has_http_client
        then (release_proposal_lock id c, escalated id)
        else on_gc_reply (ask_gc (gc_question env id device_id lines c) c.nib) env id device_id
            lines fresh now c

    abbrev pub on_request :
        Engine × Option ApprovalRequest
        → Envelope Proposal
        → String
        → String
        → List String
        → Fresh
        → (ℕ → ℕ → ℕ)
        → RegionalController
        → RegionalController × Decision
    on_request (e, none) env id device_id lines fresh now c =
        deny_released id request_not_found (put_engine e c)
    on_request (e, some r) env id device_id lines fresh now c =
        if is_high (max_sensitivity r.sensitivity (classify rx c.classifier lines))
        then handle_high_proposal_via_gc env id device_id lines fresh now (put_engine e c)
        else on_approved (approve_request p id c.controller_id (now 2) (engine_of (put_engine e c)))
            env id device_id lines fresh now (put_engine e c)

    abbrev pub on_locked :
        RegionalController × LockOutcome
        → Envelope Proposal
        → String
        → String
        → List String
        → Fresh
        → (ℕ → ℕ → ℕ)
        → RegionalController × Decision
    on_locked (c, lock_raised) env id device_id lines fresh now = (c, raised)
    on_locked (c, not_locked refusal) env id device_id lines fresh now =
        (c, denied (some id) (lock_refused refusal))
    on_locked (c, locked) env id device_id lines fresh now =
        on_request (get_request p id (engine_of c)) env id device_id lines fresh now c

    -- The fields that a proposal must have; `not x` holds of an empty text too.
    abbrev pub on_fields :
        Option String
        → Option String
        → Envelope Proposal
        → Fresh
        → (ℕ → ℕ → ℕ)
        → RegionalController
        → RegionalController × Decision
    on_fields (some id) (some device_id) env fresh now c =
        if not (non_empty id) || not (non_empty device_id)
        then (c, denied (some id) fields_missing)
        else on_locked (acquire_proposal_lock device_id id (now 1) fresh.lock_id c) env id device_id
            (or_empty env.payload.config_lines) fresh now
    on_fields id _ env fresh now c = (c, denied id fields_missing)

    unfoldable pub handle_config_proposal :
        Envelope Proposal → Fresh → (ℕ → ℕ → ℕ) → RegionalController → RegionalController × Decision
    handle_config_proposal env fresh now c =
        on_fields env.payload.proposal_id env.payload.device_id env fresh now
          (release_expired_proposal_locks p (now 0) c)

-- ===== src/Controllers/Local.antt =====
-- pdsno/controllers/local_controller.py: the execution of instructions and the submission of
-- proposals. Log lines, the REST and MQTT clients and the policies are left out. The execution of a
-- config on a device is the source's: it checks its input and touches no device.
pub mod Executes
pub mod Once
pub mod Submits
pub mod Routes
pub mod Discovery
pub mod Rescan
pub mod Entries
pub mod Absent
pub mod Settles
mod Tests
use partially_distributed_sm.Common.{
  Bool, Dict, List, Option, String, [], false, if◌then◌else◌, lookup, nat_eq, none, not, some,
  string_eq, true, ℕ, ◌+◌, ◌==◌, ◌∷◌,
}
use partially_distributed_sm.Platform.{Fields, Platform}
use partially_distributed_sm.Controllers.Messages.{ExecutionReport, Instruction, is_set, or_empty}
use partially_distributed_sm.Controllers.Holding.{nib_of, set_config_status, with_nib}
use partially_distributed_sm.Nib.Models.{
  ConfigStatus, Device, Event, Reply, integrity_error, result,
}
use partially_distributed_sm.Nib.Store.{NibStore}
use partially_distributed_sm.Nib.Events.{write_event}
use partially_distributed_sm.Config.Token.{
  ExecutionToken, ExecutionTokenManager, Refusal, from_dict, verify_token,
}
use partially_distributed_sm.Config.Approval.Engine.{ConfigData, Engine, set_execution_result}
use partially_distributed_sm.Config.Sensitivity.Classifier.{Classifier}

pub record LocalController : Type 0 where
  pub controller_id : String
  pub region : String
  pub nib : NibStore ConfigData
  pub engine : Engine
  pub classifier : Classifier
  pub tokens : ExecutionTokenManager
  pub last_scan_devices : Dict String Device

pub data Failure : Type 0 where
  exception : Failure
  token_refused : Refusal → Failure
  missing_execution_input : Failure

-- What the handler ends in; a `token_id` that is `None`, or an event id that is taken, raises.
pub data Reported : Type 0 where
  reported : ExecutionReport → Reported
  raised : Reported

abbrev pub mark_config : ConfigStatus → Option String → ℕ → LocalController → LocalController
mark_config status none now c = c
mark_config status (some id) now c = record c {
  nib = set_config_status id status none none none now c.nib;
}

unfoldable pub mark_config_executing : Option String → ℕ → LocalController → LocalController
mark_config_executing id now c = mark_config ConfigStatus.executing id now c

unfoldable pub mark_config_terminal_state :
    Option String → String → ℕ → LocalController → LocalController
mark_config_terminal_state id status now c =
    mark_config (if status == "EXECUTED" then ConfigStatus.executed else ConfigStatus.failed) id now
      c

-- `none` is a success.
unfoldable pub execute_config_change : Option String → List String → Option Failure
execute_config_change device_id config_lines =
    if not (is_set device_id)
    then some missing_execution_input
    else elim config_lines [ [] ↦ some missing_execution_input | _ ∷ _ ↦ none ]

-- `token_payload.get('token_id', 'N/A')[:12]` raises.
abbrev pub has_no_label : Option (Option String) → Bool
has_no_label (some none) = true
has_no_label _ = false

abbrev pub or_no_fields : Option Fields → Fields
or_no_fields none = []
or_no_fields (some d) = d

abbrev pub status_text : Option Failure → String
status_text none = "EXECUTED"
status_text (some f) = "FAILED"

-- The entries of a dictionary that are not `None`; the engine reads no other.
abbrev pub with_text : String → Option String → Dict String String → Dict String String
with_text key none d = d
with_text key (some s) d = (key, s) ∷ d

module _ (p : Platform) (event_key : List ℕ) (reason_text : Failure → String) where
  abbrev pub reason_of : Option Failure → Option String
  reason_of none = none
  reason_of (some f) = some (reason_text f)

  -- The verdict of `verify_token` on the token of an instruction.
  abbrev pub on_verified :
      Option Refusal → Instruction → ℕ → LocalController → LocalController × Option Failure
  on_verified (some r) i now c = (c, some (token_refused r))
  on_verified none i now c = (
    mark_config_executing i.proposal_id now c,
    execute_config_change i.device_id (or_empty i.config_lines),
  )

  -- The body of the `try`, for the token that `from_dict` gave.
  unfoldable pub run_token :
      Option ExecutionToken
      → Instruction
      → (ℕ → ℕ)
      → LocalController
      → LocalController × Option Failure
  run_token none i now c = (c, some exception)
  run_token (some t) i now c =
      let (m, r) = verify_token p c.tokens t i.device_id (now 0) in
      on_verified r i (now 1) (record c { tokens = m })

  -- The engine keeps the result, if it has the request or finds it.
  abbrev pub set_result :
      Option String → Dict String String → (ℕ → ℕ) → LocalController → LocalController
  set_result none fields now c = c
  set_result (some id) fields now c =
      let e = (set_execution_result p id fields now (with_nib c.nib c.engine)).0 in
      record c { engine = e; nib = nib_of c.nib e }

  abbrev pub execution_event : String → Instruction → Option Failure → ℕ → String → Event
  execution_event event_id i f now actor = record {
    event_id = event_id;
    event_type = "EXECUTION";
    actor = actor;
    timestamp = now;
    action =
        if status_text f == "EXECUTED" then "Applied execution instruction" else "Execution failed";
    subject = i.proposal_id;
    decision = some (status_text f);
    payload_ref = none;
    notes = none;
    signature = none;
    details =
        ("proposal_id", i.proposal_id)
        ∷ ("device_id", i.device_id)
        ∷ ("status", some (status_text f))
        ∷ ("reason", reason_of f)
        ∷ [];
  }

  abbrev pub log_execution :
      NibStore ConfigData × Reply
      → Instruction
      → Option Failure
      → ℕ
      → LocalController
      → LocalController × Reported
  log_execution (nib, integrity_error) i f now c = (record c { nib = nib }, raised)
  log_execution (nib, result r) i f now c = (
    record c { nib = nib },
    reported (record {
      proposal_id = i.proposal_id;
      executor = c.controller_id;
      status = status_text f;
      reason = reason_of f;
      timestamp = p.isoformat now;
    }),
  )

  abbrev pub result_fields : Option Failure → String → ℕ → Dict String String
  result_fields f executor now =
      ("status", status_text f)
      ∷ with_text "reason" (reason_of f)
          (("executor", executor) ∷ ("timestamp", p.isoformat now) ∷ [])

  -- What follows the `try`. `now` is read for the config, the result, twice by the engine, for the
  -- event and for the answer.
  unfoldable pub finish_execution :
      Instruction → String → (ℕ → ℕ) → LocalController × Option Failure → LocalController × Reported
  finish_execution i event_id now (c, f) =
      let c₁ = mark_config_terminal_state i.proposal_id (status_text f) (now 0) c in
      let c₂ =
        set_result i.proposal_id (result_fields f c.controller_id (now 1)) (λ n. now (n + 2)) c₁ in
      log_execution
        (write_event p event_key (execution_event event_id i f (now 4) c.controller_id) "" c₂.nib) i
        f (now 5) c₂

  unfoldable pub handle_execution_instruction :
      Instruction → String → (ℕ → ℕ) → LocalController → LocalController × Reported
  handle_execution_instruction i event_id now c =
      if has_no_label (lookup "token_id" (or_no_fields i.execution_token))
      then (c, raised)
      else finish_execution i event_id (λ n. now (n + 2))
          (run_token (from_dict p (or_no_fields i.execution_token)) i now c)

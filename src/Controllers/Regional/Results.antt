-- ===== src/Controllers/Regional/Results.antt =====
-- pdsno/controllers/regional_controller.py: the results of executions, and the failures to dispatch one.
use partially_distributed_sm.Common.{
  Bool, Dict, List, Option, String, [], false, if◌then◌else◌, is_text, lookup, nat_eq, non_empty,
  none, some, string_eq, true, upper, ℕ, ◌+◌, ◌||◌, ◌∷◌,
}
use partially_distributed_sm.Platform.{Fields, Platform}
use partially_distributed_sm.Controllers.Holding.{set_config_status}
use partially_distributed_sm.Controllers.Regional.{
  RegionalController, engine_of, put_engine, release_proposal_lock,
}
use partially_distributed_sm.Nib.Store.{NibStore}
use partially_distributed_sm.Nib.Events.{write_event}
use partially_distributed_sm.Config.Approval.Engine.{ConfigData, set_execution_result}
use partially_distributed_sm.Nib.Models.{ConfigStatus, Event, Reply, result, integrity_error}

-- `payload.get("status") or "FAILED"`
abbrev pub status_in : Dict String String → String
status_in d = elim (lookup "status" d) [
  | none ↦ "FAILED"
  | some s ↦ if non_empty s then s else "FAILED"
]

-- `mapped_status`, by the code points of an upper-cased status
abbrev pub mapped_status : List ℕ → ConfigStatus
mapped_status s =
    if is_text "EXECUTED" s
    then ConfigStatus.executed
    else if is_text "ROLLED_BACK" s
    then ConfigStatus.rolled_back
    else if is_text "DEGRADED" s
    then ConfigStatus.degraded
    else ConfigStatus.failed

unfoldable pub is_terminal_execution_status : List ℕ → Bool
is_terminal_execution_status s =
    is_text "EXECUTED" s
    || is_text "FAILED" s
    || is_text "ROLLED_BACK" s
    || is_text "DEGRADED" s
    || is_text "ERROR" s
    || is_text "SUCCESS" s

-- The dictionary, as the details of an event; an entry that is `None` is no entry of it.
abbrev pub as_fields : Dict String String → Fields
as_fields [] = []
as_fields ((k, v) ∷ d) = (k, some v) ∷ as_fields d

abbrev pub set_nib : NibStore ConfigData → RegionalController → RegionalController
set_nib nib c = record c { nib = nib }

abbrev pub set_status_of :
    String
    → ConfigStatus
    → Option String
    → Option String
    → Option ℕ
    → ℕ
    → RegionalController
    → RegionalController
set_status_of id status approver token expiry now c =
    set_nib (set_config_status id status approver token expiry now c.nib) c

module _ (p : Platform) (event_key : List ℕ) where
  abbrev pub result_event : String → String → String → Dict String String → ℕ → Event
  result_event event_id sender id fields now = record {
    event_id = event_id;
    event_type = "EXECUTION";
    actor = sender;
    timestamp = now;
    action = "Execution result received by Regional Controller";
    subject = some id;
    decision = some (p.upper_text (status_in fields));
    payload_ref = none;
    notes = none;
    signature = none;
    details = as_fields fields;
  }

  -- An event id that is taken raises, before the lock is released.
  abbrev pub on_logged :
      NibStore ConfigData × Reply → String → List ℕ → RegionalController → RegionalController × Bool
  on_logged (nib, integrity_error) id status c = (set_nib nib c, false)
  on_logged (nib, result r) id status c = (
    if is_terminal_execution_status status
        then release_proposal_lock id (set_nib nib c)
        else set_nib nib c,
    true,
  )

  abbrev pub record_result :
      String
      → String
      → Dict String String
      → String
      → (ℕ → ℕ)
      → RegionalController
      → RegionalController × Bool
  record_result id sender fields event_id now c =
      let c₁ = put_engine (set_execution_result p id fields now (engine_of c)).0 c in
      let c₂ =
        set_status_of id (mapped_status (upper (status_in fields))) none none none (now 2) c₁ in
      on_logged (write_event p event_key (result_event event_id sender id fields (now 3)) "" c₂.nib)
        id (upper (status_in fields)) c₂

  -- The acknowledgement is not read by anyone; `false` is an exception.
  unfoldable pub handle_execution_result :
      String
      → Dict String String
      → String
      → (ℕ → ℕ)
      → RegionalController
      → RegionalController × Bool
  handle_execution_result sender fields event_id now c = elim (lookup "proposal_id" fields) [
    | none ↦ (c, true)
    | some id ↦ if non_empty id then record_result id sender fields event_id now c else (c, true)
  ]

  unfoldable pub record_dispatch_failure :
      String → String → (ℕ → ℕ) → RegionalController → RegionalController
  record_dispatch_failure id reason now c =
      let failure =
        ("status", "FAILED")
        ∷ ("reason", reason)
        ∷ ("executor", c.controller_id)
        ∷ ("timestamp", p.isoformat (now 0))
        ∷ [] in
      let c₁ =
        put_engine (set_execution_result p id failure (λ n. now (n + 1)) (engine_of c)).0 c in
      release_proposal_lock id (set_status_of id ConfigStatus.failed none none none (now 3) c₁)

-- ===== src/Config/Approval/Engine.antt =====
-- pdsno/config/approval_engine.py: `ApprovalWorkflowEngine`. The requests of the cache are shared
-- objects: whatever a method writes to a request that it got from `get_request` is written to the
-- entry of the cache. `now n` is the n-th reading of the clock in a call. Log lines are left out.
use partially_distributed_sm.Common.{
  Bool, Dict, List, Option, String, [], codes, false, filter, if◌then◌else◌, insert, is_infix,
  is_text, keys, lookup, lower, ltb, nat_eq, none, not, some, string_eq, true, upper, values, ℕ,
  ◌&&◌, ◌++◌, ◌+◌, ◌||◌, ◌∷◌,
}
use partially_distributed_sm.Platform.{Platform, minutes}
use partially_distributed_sm.Config.Sensitivity.{SensitivityLevel, high, low, medium}
use partially_distributed_sm.Config.Approval.Request.{
  ApprovalRequest, ApprovalState, RequestDict, approved, draft, executed, expired, failed,
  from_dict, new_request, pending_approval, rejected, rolled_back, to_dict,
}
use partially_distributed_sm.Nib.Store.{NibStore}
use partially_distributed_sm.Nib.Configs.{create_config_proposal, get_config, update_config_status}
use partially_distributed_sm.Nib.Models.{Config, ConfigStatus, ConfigCategory}

-- What `config_data` holds: a request in JSON, or a text that is no such JSON.
pub data ConfigData : Type 0 where
  json : RequestDict → ConfigData
  other_text : ConfigData

pub record Engine : Type 0 where
  pub controller_id : String
  pub controller_role : String
  pub approval_timeout : ℕ
  pub nib_store : Option (NibStore ConfigData)
  pub requests : Dict String ApprovalRequest

-- `__init__`
unfoldable pub new_engine : String → String → ℕ → Option (NibStore ConfigData) → Engine
new_engine controller_id controller_role approval_timeout_minutes nib_store = record {
  controller_id = controller_id;
  controller_role = controller_role;
  approval_timeout = minutes approval_timeout_minutes;
  nib_store = nib_store;
  requests = [];
}

-- `status_map`
abbrev pub status_map : ApprovalState → ConfigStatus
status_map draft = ConfigStatus.pending
status_map pending_approval = ConfigStatus.pending
status_map approved = ConfigStatus.approved
status_map rejected = ConfigStatus.denied
status_map expired = ConfigStatus.denied
status_map executed = ConfigStatus.executed
status_map failed = ConfigStatus.failed
status_map rolled_back = ConfigStatus.rolled_back

-- `category_map`
abbrev pub category_map : SensitivityLevel → ConfigCategory
category_map low = ConfigCategory.low
category_map medium = ConfigCategory.medium
category_map high = ConfigCategory.high

-- `approvers[-1] if approvers else None`
abbrev pub last_approver : List String → Option String
last_approver [] = none
last_approver (a ∷ []) = some a
last_approver (a ∷ b ∷ as') = last_approver (b ∷ as')

abbrev pub or_created : Option ℕ → ℕ → ℕ
or_created none created = created
or_created (some t) created = t

pub data InferredRole : Type 0 where
  global regional local : InferredRole

-- The role that `_can_approve` infers from an id.
unfoldable pub role_of : String → InferredRole
role_of approver_id =
    if is_infix (codes "global") (lower approver_id)
    then global
    else if is_infix (codes "regional") (lower approver_id)
    then regional
    else local

abbrev pub may_approve : SensitivityLevel → InferredRole → Bool
may_approve low role = true
may_approve medium regional = true
may_approve medium global = true
may_approve medium local = false
may_approve high global = true
may_approve high _ = false

unfoldable pub can_approve : ApprovalRequest → String → Bool
can_approve r approver_id = may_approve r.sensitivity (role_of approver_id)

-- `now - submitted_at > approval_timeout`, written without a difference.
abbrev pub past : Option ℕ → ℕ → ℕ → Bool
past none timeout now = false
past (some t) timeout now = ltb (t + timeout) now

unfoldable pub is_expired : ApprovalRequest → ℕ → ℕ → Bool
is_expired r timeout now = past r.submitted_at timeout now

-- `self.requests[request_id] = request`
abbrev pub cache : String → ApprovalRequest → Engine → Engine
cache id r e = record e { requests = insert id r e.requests }

abbrev pub is_draft : ApprovalState → Bool
is_draft draft = true
is_draft _ = false

abbrev pub is_pending : ApprovalState → Bool
is_pending pending_approval = true
is_pending _ = false

abbrev pub is_approved_state : ApprovalState → Bool
is_approved_state approved = true
is_approved_state _ = false

abbrev pub is_low : SensitivityLevel → Bool
is_low low = true
is_low _ = false

-- The state that an execution result asks for, by its upper-cased status.
unfoldable pub result_state : List ℕ → ApprovalState → ApprovalState
result_state status state =
    if is_text "EXECUTED" status || is_text "SUCCESS" status
    then executed
    else if is_text "FAILED" status || is_text "ERROR" status || is_text "DEGRADED" status
    then failed
    else if is_text "ROLLED_BACK" status
    then rolled_back
    else state

-- `result.get("status", "").upper()`
abbrev pub status_of : Dict String String → List ℕ
status_of result = elim (lookup "status" result) [ none ↦ [] | some s ↦ upper s ]

-- `if not request: return False`, and what follows it.
abbrev pub on_found :
    (ApprovalRequest → Engine → Engine × Bool) → Engine × Option ApprovalRequest → Engine × Bool
on_found body (e, none) = (e, false)
on_found body (e, some r) = body r e

module _ (p : Platform) where
  -- The row that a first `_persist_request` proposes.
  unfoldable pub config_of : ApprovalRequest → Config ConfigData
  config_of r = record {
    config_id = r.request_id;
    device_id = r.device_id;
    config_hash = "";
    category = category_map r.sensitivity;
    status = status_map r.state;
    proposed_by = some r.requester_id;
    approved_by = last_approver r.approvers;
    execution_token = r.execution_token;
    proposed_at = some (or_created r.submitted_at r.created_at);
    approved_at = r.approved_at;
    executed_at = none;
    expiry = none;
    policy_version = none;
    rollback_payload = none;
    config_data = some (json (to_dict p r));
    reason = none;
    version = 0;
  }

  -- The write of `_persist_request`; its result is not read.
  unfoldable pub write_request : ApprovalRequest → ℕ → NibStore ConfigData → NibStore ConfigData
  write_request r now nib = elim (get_config r.request_id nib) [
    | none ↦ (create_config_proposal (config_of r) now nib).0
    | some existing ↦
        (update_config_status r.request_id (status_map r.state) existing.version
          (last_approver r.approvers) r.execution_token none now nib).0
  ]

  unfoldable pub persist_request : ApprovalRequest → ℕ → Engine → Engine
  persist_request r now e = elim e.nib_store [
    | none ↦ e
    | some nib ↦ record e { nib_store = some (write_request r now nib) }
  ]

  -- A config without data, or with data that is no request, gives no request.
  abbrev pub read_data : Option ConfigData → Option ApprovalRequest
  read_data none = none
  read_data (some other_text) = none
  read_data (some (json d)) = from_dict p d

  abbrev pub read_config : Option (Config ConfigData) → Option ApprovalRequest
  read_config none = none
  read_config (some c) = read_data c.config_data

  unfoldable pub load_request_from_nib : String → Engine → Option ApprovalRequest
  load_request_from_nib id e = elim e.nib_store [
    | none ↦ none
    | some nib ↦ read_config (get_config id nib)
  ]

  -- A request that is found in the store is kept in the cache.
  abbrev pub remember : String → Option ApprovalRequest → Engine → Engine × Option ApprovalRequest
  remember id none e = (e, none)
  remember id (some r) e = (cache id r e, some r)

  unfoldable pub get_request : String → Engine → Engine × Option ApprovalRequest
  get_request id e = elim (lookup id e.requests) [
    | some r ↦ (e, some r)
    | none ↦ remember id (load_request_from_nib id e) e
  ]

  -- `request_id` is made by `uuid`.
  unfoldable pub create_request :
      String → String → List String → SensitivityLevel → ℕ → Engine → Engine × ApprovalRequest
  create_request id device_id config_lines sensitivity now e =
      let r = new_request id device_id config_lines sensitivity e.controller_id now in
      (cache id r e, r)

  -- A change of a request in the cache, and its write to the store.
  abbrev pub save : String → ApprovalRequest → ℕ → Engine → Engine
  save id r now e = persist_request r now (cache id r e)

  unfoldable pub approve_found :
      String → String → (ℕ → ℕ) → ApprovalRequest → Engine → Engine × Bool
  approve_found id approver_id now r e =
      if not (is_pending r.state)
      then (e, false)
      else if not (can_approve r approver_id)
      then (e, false)
      else if is_expired r e.approval_timeout (now 0)
      then (save id (record r { state = expired }) (now 1) e, false)
      else (
        save id
            (record r {
              state = approved;
              approved_at = some (now 1);
              approvers = r.approvers ++ approver_id ∷ [];
            })
            (now 2) e,
        true,
      )

  -- A method that begins with `get_request` and returns false if there is no request.
  abbrev pub with_request :
      String → (ApprovalRequest → Engine → Engine × Bool) → Engine → Engine × Bool
  with_request id body e = on_found body (get_request id e)

  unfoldable pub approve_request : String → String → (ℕ → ℕ) → Engine → Engine × Bool
  approve_request id approver_id now e = with_request id (approve_found id approver_id now) e

  unfoldable pub reject_found :
      String → String → String → (ℕ → ℕ) → ApprovalRequest → Engine → Engine × Bool
  reject_found id rejector_id reason now r e =
      if not (is_pending r.state)
      then (e, false)
      else if not (can_approve r rejector_id)
      then (e, false)
      else (
        save id
            (record r {
              state = rejected;
              rejector = some rejector_id;
              rejection_reason = some reason;
            })
            (now 0) e,
        true,
      )

  unfoldable pub reject_request : String → String → String → (ℕ → ℕ) → Engine → Engine × Bool
  reject_request id rejector_id reason now e =
      with_request id (reject_found id rejector_id reason now) e

  unfoldable pub submit_found : String → (ℕ → ℕ) → ApprovalRequest → Engine → Engine × Bool
  submit_found id now r e =
      if not (is_draft r.state)
      then (e, false)
      else let e' =
          save id (record r { state = pending_approval; submitted_at = some (now 0) }) (now 1) e in
        if is_low r.sensitivity
        then approve_request id e.controller_id (λ n. now (n + 2)) e'
        else (e', true)

  -- Only the cache is searched.
  unfoldable pub submit_request : String → (ℕ → ℕ) → Engine → Engine × Bool
  submit_request id now e = elim (lookup id e.requests) [
    | none ↦ (e, false)
    | some r ↦ submit_found id now r e
  ]

  unfoldable pub set_token_found :
      String → String → (ℕ → ℕ) → ApprovalRequest → Engine → Engine × Bool
  set_token_found id token_id now r e =
      if not (is_approved_state r.state)
      then (e, false)
      else (save id (record r { execution_token = some token_id }) (now 0) e, true)

  unfoldable pub set_execution_token : String → String → (ℕ → ℕ) → Engine → Engine × Bool
  set_execution_token id token_id now e = with_request id (set_token_found id token_id now) e

  -- The state of the request is not looked at.
  unfoldable pub set_result_found :
      String → Dict String String → (ℕ → ℕ) → ApprovalRequest → Engine → Engine × Bool
  set_result_found id result now r e = (
    save id
        (record r {
          state = result_state (status_of result) r.state;
          execution_result = some result;
          executed_at = some (now 0);
        })
        (now 1) e,
    true,
  )

  unfoldable pub set_execution_result :
      String → Dict String String → (ℕ → ℕ) → Engine → Engine × Bool
  set_execution_result id result now e = with_request id (set_result_found id result now) e

  -- The loop of `cleanup_expired_requests` over the ids of the cache. Each round may read the
  -- clock twice.
  unfoldable pub expire_one : String → (ℕ → ℕ) → Engine → Engine × ℕ
  expire_one id now e = elim (lookup id e.requests) [
    | none ↦ (e, 0)
    | some r ↦
        if is_pending r.state && is_expired r e.approval_timeout (now 0)
        then (save id (record r { state = expired }) (now 1) e, 1)
        else (e, 0)
  ]

  unfoldable pub expire_all : List String → (ℕ → ℕ) → Engine → Engine × ℕ
  expire_all [] now e = (e, 0)
  expire_all (id ∷ ids) now e =
      let (e', n) = expire_one id now e in
      let (e'', rest) = expire_all ids (λ k. now (k + 2)) e' in (e'', n + rest)

  unfoldable pub cleanup_expired_requests : (ℕ → ℕ) → Engine → Engine × ℕ
  cleanup_expired_requests now e = expire_all (keys e.requests) now e

  unfoldable pub get_pending_requests : Engine → List ApprovalRequest
  get_pending_requests e = filter (λ r. is_pending r.state) (values e.requests)

-- ===== src/Config/Approval/Request.antt =====
-- pdsno/config/approval_engine.py: a request for approval, and the dictionary that it is written
-- as. The JSON text of a dictionary is modelled by the dictionary.
use partially_distributed_sm.Common.{
  Dict, List, Option, String, [], if◌then◌else◌, nat_eq, non_empty, none, refl, some, string_eq,
  true, ℕ, ◌==◌, ◌≡◌,
}
use partially_distributed_sm.Platform.{Platform, ReadsBack}
use partially_distributed_sm.Config.Sensitivity.{SensitivityLevel, high, low, medium}

pub data ApprovalState : Type 0 where
  draft pending_approval approved rejected expired executed failed rolled_back : ApprovalState

pub record ApprovalRequest : Type 0 where
  pub request_id : String
  pub device_id : String
  pub config_lines : List String
  pub sensitivity : SensitivityLevel
  pub requester_id : String
  pub created_at : ℕ
  pub state : ApprovalState
  pub approvers : List String
  pub rejector : Option String
  pub rejection_reason : Option String
  pub submitted_at : Option ℕ
  pub approved_at : Option ℕ
  pub executed_at : Option ℕ
  pub execution_token : Option String
  pub execution_result : Option (Dict String String)

-- `__init__`
unfoldable pub new_request :
    String → String → List String → SensitivityLevel → String → ℕ → ApprovalRequest
new_request request_id device_id config_lines sensitivity requester_id created_at = record {
  request_id = request_id;
  device_id = device_id;
  config_lines = config_lines;
  sensitivity = sensitivity;
  requester_id = requester_id;
  created_at = created_at;
  state = draft;
  approvers = [];
  rejector = none;
  rejection_reason = none;
  submitted_at = none;
  approved_at = none;
  executed_at = none;
  execution_token = none;
  execution_result = none;
}

-- `ApprovalState.value`
abbrev pub state_value : ApprovalState → String
state_value draft = "DRAFT"
state_value pending_approval = "PENDING_APPROVAL"
state_value approved = "APPROVED"
state_value rejected = "REJECTED"
state_value expired = "EXPIRED"
state_value executed = "EXECUTED"
state_value failed = "FAILED"
state_value rolled_back = "ROLLED_BACK"

-- `ApprovalState(value)`; `none` is its `ValueError`.
abbrev pub state_of : String → Option ApprovalState
state_of s =
    if s == "DRAFT"
    then some draft
    else if s == "PENDING_APPROVAL"
    then some pending_approval
    else if s == "APPROVED"
    then some approved
    else if s == "REJECTED"
    then some rejected
    else if s == "EXPIRED"
    then some expired
    else if s == "EXECUTED"
    then some executed
    else if s == "FAILED"
    then some failed
    else if s == "ROLLED_BACK"
    then some rolled_back
    else none

abbrev pub sensitivity_value : SensitivityLevel → String
sensitivity_value low = "LOW"
sensitivity_value medium = "MEDIUM"
sensitivity_value high = "HIGH"

abbrev pub sensitivity_of : String → Option SensitivityLevel
sensitivity_of s =
    if s == "LOW"
    then some low
    else if s == "MEDIUM"
    then some medium
    else if s == "HIGH"
    then some high
    else none

-- The dictionary that `to_dict` builds: one field for each key.
pub record RequestDict : Type 0 where
  pub request_id : String
  pub device_id : String
  pub config_lines : List String
  pub sensitivity : String
  pub requester_id : String
  pub state : String
  pub approvers : List String
  pub rejector : Option String
  pub rejection_reason : Option String
  pub created_at : String
  pub submitted_at : Option String
  pub approved_at : Option String
  pub executed_at : Option String
  pub execution_token : Option String
  pub execution_result : Option (Dict String String)

infixl 5 ◌>>=◌
abbrev pub ◌>>=◌ : {A B : Type 0} → Option A → (A → Option B) → Option B
none >>= f = none
some a >>= f = f a

module _ (p : Platform) where
  -- `x.isoformat() if x else None`
  abbrev pub iso : Option ℕ → Option String
  iso none = none
  iso (some t) = some (p.isoformat t)

  -- A field that is falsy stays `None`; any other is read as a timestamp.
  abbrev pub from_iso : Option String → Option (Option ℕ)
  from_iso none = some none
  from_iso (some s) =
      if non_empty s
      then elim (p.fromisoformat s) [ none ↦ none | some t ↦ some (some t) ]
      else some none

  unfoldable pub to_dict : ApprovalRequest → RequestDict
  to_dict r = record {
    request_id = r.request_id;
    device_id = r.device_id;
    config_lines = r.config_lines;
    sensitivity = sensitivity_value r.sensitivity;
    requester_id = r.requester_id;
    state = state_value r.state;
    approvers = r.approvers;
    rejector = r.rejector;
    rejection_reason = r.rejection_reason;
    created_at = p.isoformat r.created_at;
    submitted_at = iso r.submitted_at;
    approved_at = iso r.approved_at;
    executed_at = iso r.executed_at;
    execution_token = r.execution_token;
    execution_result = r.execution_result;
  }

  unfoldable pub from_dict : RequestDict → Option ApprovalRequest
  from_dict d = do
    sensitivity ← sensitivity_of d.sensitivity
    created_at ← p.fromisoformat d.created_at
    state ← state_of d.state
    submitted_at ← from_iso d.submitted_at
    approved_at ← from_iso d.approved_at
    executed_at ← from_iso d.executed_at
    some (record {
      request_id = d.request_id;
      device_id = d.device_id;
      config_lines = d.config_lines;
      sensitivity = sensitivity;
      requester_id = d.requester_id;
      created_at = created_at;
      state = state;
      approvers = d.approvers;
      rejector = d.rejector;
      rejection_reason = d.rejection_reason;
      submitted_at = submitted_at;
      approved_at = approved_at;
      executed_at = executed_at;
      execution_token = d.execution_token;
      execution_result = d.execution_result;
    })

-- The text of a timestamp is not empty.
abbrev pub WritesText : Platform → Type 0
WritesText p = (t : ℕ) → non_empty (p.isoformat t) ≡ true

state_of-value : (s : ApprovalState) → state_of (state_value s) ≡ some s
state_of-value draft = refl
state_of-value _ = refl

sensitivity_of-value : (s : SensitivityLevel) → sensitivity_of (sensitivity_value s) ≡ some s
sensitivity_of-value low = refl
sensitivity_of-value _ = refl

module _ (p : Platform) (reads_back : ReadsBack p) (writes_text : WritesText p) where
  from_iso-iso : (t : Option ℕ) → from_iso p (iso p t) ≡ some t
  from_iso-iso none = refl
  from_iso-iso (some t) = rw (writes_text t, reads_back t)

  -- Where timestamps are read back from their texts, which are not empty, a request that is written
  -- as a dictionary is read back whole.
  pub from_dict-to_dict_request : (r : ApprovalRequest) → from_dict p (to_dict p r) ≡ some r
  unfolding from_dict to_dict
  from_dict-to_dict_request r = rw (
    sensitivity_of-value r.sensitivity,
    reads_back r.created_at,
    state_of-value r.state,
    from_iso-iso r.submitted_at,
    from_iso-iso r.approved_at,
    from_iso-iso r.executed_at,
  )

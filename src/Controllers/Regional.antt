-- ===== src/Controllers/Regional.antt =====
-- pdsno/controllers/regional_controller.py: the state of a regional controller, its locks on the
-- devices of proposals, the validation of local controllers and the reports of discoveries. The
-- proposals are in the child. Log lines, the REST and MQTT clients, the policies and the key exchange
-- are left out. `now k n` is the n-th reading of the clock in the k-th step of a method.
pub mod Results
pub mod Proposals
pub mod Joins
pub mod Validates
pub mod Keeps
pub mod Approves
pub mod Freed
pub mod Releases
pub mod Tests
use partially_distributed_sm.Common.{
  Bool, Dict, List, Option, String, [], erase, false, if◌then◌else◌, insert, keys, length, lookup,
  nat_eq, non_empty, none, not, some, string_eq, true, ℕ, ◌&&◌, ◌++◌, ◌+◌, ◌==◌, ◌||◌, ◌∷◌,
}
use partially_distributed_sm.Platform.{Platform}
use partially_distributed_sm.Controllers.Messages.{
  DiscoveryReport, Envelope, ReportedDevice, ValidationRequest, is_set, text_or,
}
use partially_distributed_sm.Controllers.Registration.{
  certificate_of, controller_record, identity_of, is_same, validated_event,
}
use partially_distributed_sm.Controllers.Holding.{nib_of, with_nib}
use partially_distributed_sm.Nib.Models.{
  Certificate, ControllerMetadata, Device, Lock, NibError, NibResult, Reply, config_lock,
  integrity_error, lock_type_eq, result,
}
use partially_distributed_sm.Nib.Store.{NibStore}
use partially_distributed_sm.Nib.Locks.{acquire_lock, check_lock, release_lock}
use partially_distributed_sm.Nib.Events.{write_event}
use partially_distributed_sm.Nib.Controllers.{upsert_controller}
use partially_distributed_sm.Nib.Devices.{get_device_by_mac}
use partially_distributed_sm.Config.Approval.Request.{ApprovalRequest, ApprovalState}
use partially_distributed_sm.Config.Approval.Engine.{
  ConfigData, Engine, cleanup_expired_requests, get_request,
}
use partially_distributed_sm.Config.Token.{ExecutionTokenManager}
use partially_distributed_sm.Config.Sensitivity.Classifier.{Classifier}

-- An entry of `proposal_locks`
pub record ProposalLock : Type 0 where
  pub lock_id : Option String
  pub device_id : String

-- `controller_sequence` is the counter of its one key, `"local"`.
pub record RegionalController : Type 0 where
  pub controller_id : String
  pub region : String
  pub has_http_client : Bool
  pub nib : NibStore ConfigData
  pub engine : Engine
  pub classifier : Classifier
  pub tokens : ExecutionTokenManager
  pub controller_sequence : ℕ
  pub proposal_locks : Dict String ProposalLock

-- Why a lock is not given: another controller holds it, or the store refuses, with its error.
pub data LockRefusal : Type 0 where
  held_by_other : String → LockRefusal
  store_refused : Option NibError → LockRefusal

-- What `_acquire_proposal_lock` ends in; a lock id that is taken raises.
pub data LockOutcome : Type 0 where
  locked : LockOutcome
  not_locked : LockRefusal → LockOutcome
  lock_raised : LockOutcome

-- `self.proposal_locks[proposal_id] = {...}`
abbrev pub note_lock : String → Option String → String → RegionalController → RegionalController
note_lock proposal_id lock_id device_id c = record c {
  proposal_locks =
      insert proposal_id (record { lock_id = lock_id; device_id = device_id }) c.proposal_locks;
}

abbrev pub on_acquired :
    NibStore ConfigData × Reply
    → String
    → String
    → RegionalController
    → RegionalController × LockOutcome
on_acquired (nib, integrity_error) device_id proposal_id c = (record c { nib = nib }, lock_raised)
on_acquired (nib, result r) device_id proposal_id c =
    if r.success
    then (note_lock proposal_id r.value device_id (record c { nib = nib }), locked)
    else (record c { nib = nib }, not_locked (store_refused r.error))

-- The call of `acquire_lock`, for 15 minutes; `lock_id` is made by `uuid`.
abbrev pub acquire_new :
    String → String → ℕ → String → RegionalController → RegionalController × LockOutcome
acquire_new device_id proposal_id now lock_id c =
    on_acquired
      (acquire_lock device_id config_lock c.controller_id 900 (some proposal_id) now lock_id c.nib)
      device_id proposal_id c

-- `existing.associated_request == proposal_id`
abbrev pub is_for : String → Option String → Bool
is_for proposal_id none = false
is_for proposal_id (some r) = r == proposal_id

abbrev pub on_existing :
    Option Lock
    → String
    → String
    → ℕ
    → String
    → RegionalController
    → RegionalController × LockOutcome
on_existing none device_id proposal_id now lock_id c =
    acquire_new device_id proposal_id now lock_id c
on_existing (some l) device_id proposal_id now lock_id c =
    if not (l.held_by == c.controller_id)
    then (c, not_locked (held_by_other l.held_by))
    else if is_for proposal_id l.associated_request
    then (note_lock proposal_id (some l.lock_id) device_id c, locked)
    else acquire_new device_id proposal_id now lock_id c

unfoldable pub acquire_proposal_lock :
    String → String → (ℕ → ℕ) → String → RegionalController → RegionalController × LockOutcome
acquire_proposal_lock device_id proposal_id now lock_id c =
    on_existing (check_lock device_id config_lock (now 0) c.nib) device_id proposal_id (now 1)
      lock_id c

-- `if lock_id: self.nib_store.release_lock(...)`
abbrev pub release_held : Option String → String → NibStore ConfigData → NibStore ConfigData
release_held none held_by nib = nib
release_held (some lock_id) held_by nib =
    if non_empty lock_id then (release_lock lock_id held_by nib).0 else nib

unfoldable pub release_proposal_lock : String → RegionalController → RegionalController
release_proposal_lock proposal_id c = elim (lookup proposal_id c.proposal_locks) [
  | none ↦ c
  | some l ↦ record c {
    nib = release_held l.lock_id c.controller_id c.nib;
    proposal_locks = erase proposal_id c.proposal_locks;
  }
]

-- `terminal_states`
abbrev pub is_terminal : ApprovalState → Bool
is_terminal ApprovalState.expired = true
is_terminal ApprovalState.rejected = true
is_terminal ApprovalState.executed = true
is_terminal ApprovalState.failed = true
is_terminal ApprovalState.rolled_back = true
is_terminal _ = false

-- A call of the engine, which works on the controller's store.
abbrev pub put_engine : Engine → RegionalController → RegionalController
put_engine e c = record c { engine = e; nib = nib_of c.nib e }

abbrev pub engine_of : RegionalController → Engine
engine_of c = with_nib c.nib c.engine

module _ (p : Platform) where
  -- `if not request or request.state in terminal_states: self._release_proposal_lock(...)`
  abbrev pub release_if_over :
      String → Engine × Option ApprovalRequest → RegionalController → RegionalController
  release_if_over proposal_id (e, none) c = release_proposal_lock proposal_id (put_engine e c)
  release_if_over proposal_id (e, some r) c =
      if is_terminal r.state
      then release_proposal_lock proposal_id (put_engine e c)
      else put_engine e c

  unfoldable pub release_over : List String → RegionalController → RegionalController
  release_over [] c = c
  release_over (id ∷ ids) c =
      release_over ids (release_if_over id (get_request p id (engine_of c)) c)

  unfoldable pub release_expired_proposal_locks : (ℕ → ℕ) → RegionalController → RegionalController
  release_expired_proposal_locks now c =
      let c' = put_engine (cleanup_expired_requests p now (engine_of c)).0 c in
      release_over (keys c'.proposal_locks) c'

-- The answers to a validation request; `not_written` is `NIB_WRITE_FAILED` and `not_registered` is
-- `REGISTRATION_FAILED`.
pub data Validation : Type 0 where
  invalid_controller_type missing_required region_mismatch : Validation
  not_written not_registered : Validation
  identity_given : String → Certificate → String → Validation

module _ (p : Platform) (event_key : List ℕ) where
  abbrev pub grant_local :
      NibStore ConfigData × Reply
      → String
      → String
      → String
      → ℕ
      → RegionalController
      → RegionalController × Validation
  grant_local (nib, integrity_error) id region key now c = (record c { nib = nib }, not_registered)
  grant_local (nib, result r) id region key now c = (
    record c { nib = nib },
    identity_given id (certificate_of p id "local" region key c.controller_id now) region,
  )

  abbrev pub register_local :
      NibStore ConfigData × NibResult
      → String
      → String
      → String
      → String
      → ℕ
      → RegionalController
      → RegionalController × Validation
  register_local (nib, r) event_id id region key now c =
      if not r.success
      then (record c { nib = nib }, not_written)
      else grant_local
          (write_event p event_key
            (validated_event p event_id "Assigned local controller identity" c.controller_id id
              "local" region now)
            "" nib)
          id region key now c

  -- The identity for the next number.
  abbrev pub assign_local :
      String
      → String
      → Option ControllerMetadata
      → String
      → ℕ
      → RegionalController
      → RegionalController × Validation
  assign_local region key metadata event_id now c =
      let n = c.controller_sequence + 1 in
      let id = identity_of p "local" region n in
      register_local
        (upsert_controller (controller_record p id "local" region key c.controller_id metadata now)
          now c.nib)
        event_id id region key now (record c { controller_sequence = n })

  -- The checks, on the fields of a request.
  abbrev pub validate_local :
      Option String
      → Option String
      → Option String
      → Option String
      → Option ControllerMetadata
      → String
      → ℕ
      → RegionalController
      → RegionalController × Validation
  validate_local role temp_id key region metadata event_id now c =
      if not (is_same role "local")
      then (c, invalid_controller_type)
      else if not (is_set temp_id) || not (is_set key)
      then (c, missing_required)
      else if not (is_same region c.region)
      then (c, region_mismatch)
      else assign_local c.region (text_or key "") metadata event_id now c

  unfoldable pub validate_local_controller :
      Envelope ValidationRequest → String → ℕ → RegionalController → RegionalController × Validation
  validate_local_controller env event_id now c =
      let r = env.payload in
      validate_local r.controller_type r.temp_id r.public_key r.region r.metadata event_id now c

-- `_check_mac_collisions`: the addresses that a device of another local controller has.
abbrev pub note_collision :
    String → Option Device → String → Dict String (Option String) → Dict String (Option String)
note_collision mac none lc_id found = found
note_collision mac (some d) lc_id found =
    if is_same d.local_controller lc_id then found else insert mac d.local_controller found

abbrev pub check_mac :
    Option String
    → String
    → NibStore ConfigData
    → Dict String (Option String)
    → Dict String (Option String)
check_mac none lc_id nib found = found
check_mac (some mac) lc_id nib found =
    if non_empty mac then note_collision mac (get_device_by_mac mac nib) lc_id found else found

unfoldable pub check_mac_collisions :
    List ReportedDevice
    → String
    → NibStore ConfigData
    → Dict String (Option String)
    → Dict String (Option String)
check_mac_collisions [] lc_id nib found = found
check_mac_collisions (d ∷ ds) lc_id nib found =
    check_mac_collisions ds lc_id nib (check_mac d.mac lc_id nib found)

-- The acknowledgement: the number of devices, and the collisions.
abbrev pub acknowledge :
    Option String
    → Option String
    → List ReportedDevice
    → RegionalController
    → Option (ℕ × Dict String (Option String))
acknowledge (some lc_id) (some subnet) devices c =
    if non_empty lc_id && non_empty subnet
    then some (length devices, check_mac_collisions devices lc_id c.nib [])
    else none
acknowledge _ _ devices c = none

unfoldable pub handle_discovery_report :
    DiscoveryReport → RegionalController → Option (ℕ × Dict String (Option String))
handle_discovery_report r c = acknowledge r.lc_id r.subnet (r.new_devices ++ r.updated_devices) c

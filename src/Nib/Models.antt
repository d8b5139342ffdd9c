-- ===== src/Nib/Models.antt =====
-- pdsno/datastore/models.py: the rows of the store, and the result of a write. Times are numbers;
-- the source writes them as ISO texts in UTC, whose order is that of the times.
use partially_distributed_sm.Common.{
  Bool, Dict, Eq, List, Option, String, [], arith, enum_eq, false, if◌then◌else◌, ltb, non_empty,
  none, some, true, ℕ, ◌∷◌, ◌≡◌,
}

pub data DeviceStatus : Type 0 where
  active inactive unreachable quarantined : DeviceStatus

pub data ConfigStatus : Type 0 where
  pending approved denied executing executed rolled_back failed degraded : ConfigStatus

pub data ConfigCategory : Type 0 where
  low medium high emergency : ConfigCategory

pub data LockType : Type 0 where
  device_lock config_lock validation_lock : LockType

abbrev pub lock_index : LockType → ℕ
lock_index device_lock = 0
lock_index config_lock = 1
lock_index validation_lock = 2

pub lock_index_inj : (a b : LockType) → lock_index a ≡ lock_index b → a ≡ b
lock_index_inj a b h = ground arith

instance abbrev pub lock_type_eq : Eq LockType
lock_type_eq = enum_eq lock_index lock_index_inj

-- The metadata is a dictionary whose values are texts.
pub record Device : Type 0 where
  pub device_id : String
  pub ip_address : String
  pub mac_address : String
  pub status : DeviceStatus
  pub hostname : Option String
  pub temp_scan_id : Option String
  pub vendor : Option String
  pub device_type : Option String
  pub firmware_version : Option String
  pub region : Option String
  pub local_controller : Option String
  pub discovery_method : Option String
  pub first_seen : Option ℕ
  pub last_seen : Option ℕ
  pub last_updated : Option ℕ
  pub version : ℕ
  pub metadata : Dict String String

-- `Blob` is what `config_data` holds.
pub record Config (Blob : Type 0) : Type 0 where
  pub config_id : String
  pub device_id : String
  pub config_hash : String
  pub category : ConfigCategory
  pub status : ConfigStatus
  pub proposed_by : Option String
  pub approved_by : Option String
  pub execution_token : Option String
  pub proposed_at : Option ℕ
  pub approved_at : Option ℕ
  pub executed_at : Option ℕ
  pub expiry : Option ℕ
  pub policy_version : Option String
  pub rollback_payload : Option String
  pub config_data : Option Blob
  pub reason : Option String
  pub version : ℕ

pub record Lock : Type 0 where
  pub lock_id : String
  pub subject_id : String
  pub lock_type : LockType
  pub held_by : String
  pub acquired_at : ℕ
  pub expires_at : ℕ
  pub associated_request : Option String

-- What the JSON text of a certificate holds.
pub record Certificate : Type 0 where
  pub assigned_id : String
  pub role : String
  pub region : String
  pub public_key : String
  pub issued_by : String
  pub issued_at : String
  pub signature : String

-- The metadata of a controller: its capabilities, where it lists any, and texts.
pub record ControllerMetadata : Type 0 where
  pub capabilities : Option (List String)
  pub entries : Dict String String

pub record Controller : Type 0 where
  pub controller_id : String
  pub role : String
  pub region : Option String
  pub status : String
  pub validated_by : Option String
  pub validated_at : Option ℕ
  pub public_key : Option String
  pub certificate : Option Certificate
  pub capabilities : List String
  pub metadata : ControllerMetadata
  pub version : ℕ

-- The details are a dictionary whose values are texts or `None`.
pub record Event : Type 0 where
  pub event_id : String
  pub event_type : String
  pub actor : String
  pub timestamp : ℕ
  pub action : String
  pub subject : Option String
  pub decision : Option String
  pub payload_ref : Option String
  pub notes : Option String
  pub signature : Option String
  pub details : Dict String (Option String)

pub record Policy : Type 0 where
  pub policy_id : String
  pub policy_version : String
  pub scope : String
  pub content : String
  pub distributed_by : String
  pub is_active : Bool
  pub target_region : Option String
  pub distributed_at : Option ℕ
  pub valid_from : Option ℕ
  pub valid_until : Option ℕ
  pub version : ℕ

-- `Lock.is_expired`
unfoldable pub is_expired : Lock → ℕ → Bool
is_expired lock now = ltb lock.expires_at now

-- The texts of the errors.
pub data NibError : Type 0 where
  missing_fields : List String → NibError
  version_conflict : NibError
  already_exists : String → NibError
  lock_held_by : String → NibError
  lock_not_held : NibError

-- `value` is the source's `data`.
pub record NibResult : Type 0 where
  pub success : Bool
  pub error : Option NibError
  pub value : Option String
  pub conflict : Bool

abbrev pub succeeded : Option String → NibResult
succeeded value = record { success = true; error = none; value = value; conflict = false }

abbrev pub refused : NibError → NibResult
refused error = record { success = false; error = some error; value = none; conflict = false }

abbrev pub conflicting : NibResult
conflicting = record {
  success = false;
  error = some version_conflict;
  value = none;
  conflict = true;
}

-- What a call of the store ends in: a result, or an `sqlite3.IntegrityError` that leaves it.
pub data Reply : Type 0 where
  result : NibResult → Reply
  integrity_error : Reply

-- Whether a call ends in a success.
abbrev pub granted : Reply → Bool
granted (result r) = r.success
granted integrity_error = false

-- The names of the fields that are falsy.
abbrev pub missing : List (String × Bool) → List String
missing [] = []
missing ((name, is_set) ∷ fs) = let rest = missing fs in if is_set then rest else name ∷ rest

abbrev pub is_present : Option String → Bool
is_present none = false
is_present (some s) = non_empty s

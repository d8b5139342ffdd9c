-- ===== src/Controllers/Messages.antt =====
-- pdsno/communication/message_format.py and the payloads of pdsno/controllers: what a handler reads
-- of an envelope, and a payload as a record with a field for each key that is read; a key that is
-- missing or `None` is `none`. Values are of the types that the senders write.
use partially_distributed_sm.Common.{
  Bool, List, Option, String, [], false, non_empty, none, some, ℕ,
}
use partially_distributed_sm.Platform.{Fields}
use partially_distributed_sm.Nib.Models.{ControllerMetadata}

pub record Envelope (Payload : Type 0) : Type 0 where
  pub message_id : String
  pub sender_id : String
  pub timestamp : ℕ
  pub payload : Payload

-- The payload of a `VALIDATION_REQUEST`.
pub record ValidationRequest : Type 0 where
  pub temp_id : Option String
  pub controller_type : Option String
  pub region : Option String
  pub public_key : Option String
  pub bootstrap_token : Option String
  pub metadata : Option ControllerMetadata

-- The payload of a `CHALLENGE_RESPONSE`.
pub record ChallengeResponse : Type 0 where
  pub challenge_id : Option String
  pub temp_id : Option String
  pub signed_nonce : Option String

-- The payload of a `CONFIG_PROPOSAL`.
pub record Proposal : Type 0 where
  pub proposal_id : Option String
  pub device_id : Option String
  pub config_lines : Option (List String)
  pub region : Option String
  pub execute_at : Option String

-- Python's truth test of an optional text, and `x or []`.
abbrev pub is_set : Option String → Bool
is_set none = false
is_set (some s) = non_empty s

abbrev pub or_empty : Option (List String) → List String
or_empty none = []
or_empty (some xs) = xs

abbrev pub text_or : Option String → String → String
text_or none default = default
text_or (some s) default = s

-- `f"{x}"` of an optional text
abbrev pub shown : Option String → String
shown none = "None"
shown (some s) = s

-- `request.get("metadata", {})`, and its capabilities.
abbrev pub metadata_of : Option ControllerMetadata → ControllerMetadata
metadata_of none = record { capabilities = none; entries = [] }
metadata_of (some m) = m

pub record DelegationCredential : Type 0 where
  pub scope : String
  pub permitted_actions : List String
  pub signature : String

-- The payload of an `EXECUTION_INSTRUCTION`.
pub record Instruction : Type 0 where
  pub proposal_id : Option String
  pub device_id : Option String
  pub config_lines : Option (List String)
  pub execution_token : Option Fields
  pub execute_at : Option String

-- The payload of an `EXECUTION_RESULT`.
pub record ExecutionReport : Type 0 where
  pub proposal_id : Option String
  pub executor : String
  pub status : String
  pub reason : Option String
  pub timestamp : String

-- A device of a `DISCOVERY_REPORT`, and the payload of one.
pub record ReportedDevice : Type 0 where
  pub mac : Option String

pub record DiscoveryReport : Type 0 where
  pub lc_id : Option String
  pub subnet : Option String
  pub new_devices : List ReportedDevice
  pub updated_devices : List ReportedDevice
  pub inactive_devices : List ReportedDevice

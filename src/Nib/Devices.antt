-- ===== src/Nib/Devices.antt =====
-- pdsno/datastore/sqlite_store.py: the device operations. The MAC address identifies a device, and
-- a version guards its updates.
pub mod Unique
pub mod Upserts
mod Tests
use partially_distributed_sm.Common.{
  Bool, List, Option, String, [], coalesce, false, filter, find_row, if◌then◌else◌, lookup, nat_eq,
  non_empty, none, row_count, some, string_eq, update_rows, ℕ, ◌&&◌, ◌++◌, ◌+◌, ◌==◌, ◌∷◌,
}
use partially_distributed_sm.Nib.Models.{
  Device, DeviceStatus, NibResult, Reply, conflicting, integrity_error, missing, missing_fields,
  refused, result, succeeded,
}
use partially_distributed_sm.Nib.Store.{NibStore}

-- `WHERE device_id = ?`
abbrev pub has_device_id : String → Device → Bool
has_device_id id d = d.device_id == id

-- `WHERE mac_address = ?`
abbrev pub has_mac : String → Device → Bool
has_mac mac d = d.mac_address == mac

-- `WHERE region = ?`
abbrev pub is_in : String → Device → Bool
is_in region d = elim d.region [ none ↦ false | some r ↦ r == region ]

-- `WHERE mac_address = ? AND version = ?`
abbrev pub has_mac_version : String → ℕ → Device → Bool
has_mac_version mac version d = d.mac_address == mac && d.version == version

-- `WHERE device_id = ? AND version = ?`
abbrev pub has_id_version : String → ℕ → Device → Bool
has_id_version id version d = d.device_id == id && d.version == version

-- `a or b`, for an optional text
abbrev pub or_else_text : Option String → Option String → Option String
or_else_text none b = b
or_else_text (some s) b = if non_empty s then some s else b

unfoldable pub required_of_device : Device → List String
required_of_device d =
    missing (("mac_address", non_empty d.mac_address) ∷ ("ip_address", non_empty d.ip_address) ∷ [])

-- The discovery method: the device's own, or else the one in its metadata.
unfoldable pub discovery_method_of : Device → Option String
discovery_method_of d = or_else_text d.discovery_method (lookup "discovery_method" d.metadata)

-- The `SET` clause of `upsert_device`, for the row of a device with the same MAC address.
unfoldable pub refresh : Device → ℕ → Device → Device
refresh d now row = record row {
  ip_address = d.ip_address;
  hostname = d.hostname;
  vendor = d.vendor;
  device_type = d.device_type;
  firmware_version = d.firmware_version;
  status = d.status;
  last_seen = coalesce d.last_seen (some now);
  last_updated = some now;
  local_controller = d.local_controller;
  region = d.region;
  discovery_method = discovery_method_of d;
  metadata = d.metadata;
  version = row.version + 1;
}

-- The id and the times that a new device is given: `fresh_id` is made by `uuid`.
unfoldable pub complete : Device → String → ℕ → ℕ → Device
complete d fresh_id first last = record d {
  device_id = if non_empty d.device_id then d.device_id else fresh_id;
  first_seen = coalesce d.first_seen (some first);
  last_seen = coalesce d.last_seen (some last);
}

-- The row of the `INSERT`.
unfoldable pub new_row : Device → ℕ → Device
new_row d now = record d {
  discovery_method = discovery_method_of d;
  last_updated = some now;
  version = 0;
}

-- The `SET` clause of `update_device_status`.
abbrev pub set_device_status : DeviceStatus → ℕ → Device → Device
set_device_status status now row = record row {
  status = status;
  last_updated = some now;
  version = row.version + 1;
}

module _ {Blob : Type 0} where
  unfoldable pub get_device : String → NibStore Blob → Option Device
  get_device id s = find_row (has_device_id id) s.devices

  unfoldable pub get_device_by_mac : String → NibStore Blob → Option Device
  get_device_by_mac mac s = find_row (has_mac mac) s.devices

  unfoldable pub get_all_devices : Option String → NibStore Blob → List Device
  get_all_devices none s = s.devices
  get_all_devices (some region) s =
      if non_empty region then filter (is_in region) s.devices else s.devices

  abbrev pub update_existing : Device → Device → ℕ → NibStore Blob → NibStore Blob × Reply
  update_existing d existing now s =
      if row_count (has_mac_version d.mac_address d.version) s.devices == 0
      then (s, result conflicting)
      else (
        record s {
          devices = update_rows (has_mac_version d.mac_address d.version) (refresh d now) s.devices;
        },
        result (succeeded (some existing.device_id)),
      )

  -- The primary key refuses a second row with the id.
  abbrev pub insert_device : Device → ℕ → NibStore Blob → NibStore Blob × Reply
  insert_device d now s = elim (find_row (has_device_id d.device_id) s.devices) [
    | some _ ↦ (s, integrity_error)
    | none ↦ (
      record s { devices = s.devices ++ new_row d now ∷ [] },
      result (succeeded (some d.device_id)),
    )
  ]

  abbrev pub upsert_complete :
      List String → Device → String → (ℕ → ℕ) → NibStore Blob → NibStore Blob × Reply
  upsert_complete (f ∷ fs) d fresh_id now s = (s, result (refused (missing_fields (f ∷ fs))))
  upsert_complete [] d fresh_id now s = elim (get_device_by_mac d.mac_address s) [
    | some existing ↦ update_existing d existing (now 0) s
    | none ↦ insert_device (complete d fresh_id (now 1) (now 2)) (now 0) s
  ]

  -- The caller's object is not returned: a new device's id and times are those of `complete`.
  unfoldable pub upsert_device : Device → String → (ℕ → ℕ) → NibStore Blob → NibStore Blob × Reply
  upsert_device d fresh_id now s = upsert_complete (required_of_device d) d fresh_id now s

  unfoldable pub update_device_status :
      String → DeviceStatus → ℕ → ℕ → NibStore Blob → NibStore Blob × NibResult
  update_device_status id status version now s =
      if row_count (has_id_version id version) s.devices == 0 then (s, conflicting) else (
        record s {
          devices =
              update_rows (has_id_version id version) (set_device_status status now) s.devices;
        },
        succeeded none,
      )

-- The calls that change the devices.
pub data DeviceCall : Type 0 where
  upsert : Device → String → (ℕ → ℕ) → DeviceCall
  set_status_of : String → DeviceStatus → ℕ → ℕ → DeviceCall

module _ {Blob : Type 0} where
  unfoldable pub device_call : DeviceCall → NibStore Blob → NibStore Blob
  device_call (upsert d fresh_id now) s = (upsert_device d fresh_id now s).0
  device_call (set_status_of id status version now) s =
      (update_device_status id status version now s).0

  unfoldable pub device_calls : List DeviceCall → NibStore Blob → NibStore Blob
  device_calls [] s = s
  device_calls (c ∷ cs) s = device_calls cs (device_call c s)

-- ===== src/Nib/Devices/Tests.antt =====
-- pdsno/datastore/sqlite_store.py: devices at concrete inputs.
use mathlib.Core.Option
use partially_distributed_sm.Common.{
  List, String, [], coalesce, false, if◌then◌else◌, lookup, nat_eq, none, refl, some, string_eq,
  true, ℕ, ◌&&◌, ◌+◌, ◌==◌, ◌∷◌, ◌≡◌,
}
use partially_distributed_sm.Nib.Models.{Device, active, conflicting, granted, quarantined, result}
use partially_distributed_sm.Nib.Store.{NibStore, empty_store}
use partially_distributed_sm.Nib.Devices.{
  DeviceCall, device_calls, discovery_method_of, get_device_by_mac, or_else_text, refresh,
  required_of_device, set_status_of, upsert, upsert_device,
}
use partially_distributed_sm.Nib.Devices.Unique.{IsUnique, device_calls-IsUnique}
use partially_distributed_sm.Nib.Devices.Upserts.{upsert_device_known}

abbrev switch : Device
switch = record {
  device_id = "nib-dev-1";
  ip_address = "10.0.0.1";
  mac_address = "aa:01";
  status = quarantined;
  hostname = none;
  temp_scan_id = none;
  vendor = none;
  device_type = none;
  firmware_version = none;
  region = some "zone-A";
  local_controller = some "lc";
  discovery_method = none;
  first_seen = some 1;
  last_seen = some 1;
  last_updated = some 1;
  version = 3;
  metadata = [];
}

abbrev seen : Device
seen = record switch {
  ip_address = "10.0.0.7";
  last_seen = none;
  metadata = ("discovery_method", "arp") ∷ [];
}

abbrev router : Device
router = record switch { device_id = ""; mac_address = "aa:02"; first_seen = none }

abbrev store : NibStore Unit
store = record empty_store { devices = switch ∷ [] }

abbrev clock : ℕ → ℕ
clock n = 10 + n

store-IsUnique : IsUnique store.devices
store-IsUnique = (refl, refl, tt)

-- The update takes the discovery method from the metadata, and keeps the row's id.
refreshed :
    get_device_by_mac "aa:01" (upsert_device seen "x" clock store).0
    ≡ some (record seen {
      last_seen = some 10;
      last_updated = some 10;
      discovery_method = some "arp";
      version = 4;
    })
unfolding get_device_by_mac upsert_device required_of_device refresh discovery_method_of lookup
refreshed = refl

abbrev calls : List DeviceCall
calls =
    upsert seen "nib-dev-8" clock
    ∷ upsert router "nib-dev-9" clock
    ∷ upsert (record router { mac_address = "aa:03" }) "nib-dev-9" clock
    ∷ set_status_of "nib-dev-9" active 0 20
    ∷ []

device_calls-IsUnique_example : IsUnique (device_calls calls store).devices
device_calls-IsUnique_example = device_calls-IsUnique calls store store-IsUnique

upsert_device_known_example :
    let (s', r) = upsert_device seen "x" clock store in
    (granted r ≡ true)
    × (granted r ≡ false → (s' ≡ store) × (r ≡ result conflicting))
    × (granted r ≡ true
        → (j : String)
        → get_device_by_mac j s'
          ≡ Option.map
              (λ (x : Device).
                if x.mac_address == "aa:01" && x.version == 3
                then record seen {
                  device_id = x.device_id;
                  mac_address = x.mac_address;
                  temp_scan_id = x.temp_scan_id;
                  first_seen = x.first_seen;
                  last_seen = coalesce seen.last_seen (some 10);
                  last_updated = some 10;
                  discovery_method =
                      or_else_text seen.discovery_method (lookup "discovery_method" seen.metadata);
                  version = x.version + 1;
                }
                else x)
              (get_device_by_mac j store))
unfolding required_of_device get_device_by_mac
upsert_device_known_example =
    upsert_device_known seen switch "x" clock store store-IsUnique refl refl

-- ===== src/Controllers/Local/Discovery.antt =====
-- pdsno/controllers/local_controller.py: the steps of a discovery cycle after the scans: the merge of
-- their results, the changes since the last scan and the write to the store. The scans themselves
-- are input; a number that they measure is its text.
use partially_distributed_sm.Common.{
  Bool, Dict, List, Option, String, [], false, has, if◌then◌else◌, insert, lookup, nat_eq, none,
  not, some, string_eq, true, ℕ, ◌&&◌, ◌+◌, ◌==◌, ◌∷◌,
}
use partially_distributed_sm.Platform.{Platform}
use partially_distributed_sm.Nib.Models.{
  Device, DeviceStatus, Reply, active, integrity_error, result,
}
use partially_distributed_sm.Nib.Store.{NibStore}
use partially_distributed_sm.Nib.Devices.{get_device_by_mac, upsert_device}
use partially_distributed_sm.Config.Approval.Engine.{ConfigData}
use partially_distributed_sm.Controllers.Local.{LocalController, with_text}

pub record ArpDevice : Type 0 where
  pub ip : String
  pub mac : String
  pub timestamp : String
  pub protocol : Option String

pub record IcmpDevice : Type 0 where
  pub rtt_ms : Option String

pub record SnmpDevice : Type 0 where
  pub hostname : Option String
  pub vendor : Option String
  pub model : Option String
  pub uptime_seconds : Option String

pub record ScannedDevice : Type 0 where
  pub ip : String
  pub mac : String
  pub last_seen : String
  pub protocol : String
  pub reachable : Bool
  pub rtt_ms : Option String
  pub hostname : Option String
  pub vendor : Option String
  pub model : Option String
  pub uptime_seconds : Option String
  pub discovery_method : String

abbrev pub protocol_or_arp : Option String → String
protocol_or_arp none = "ARP"
protocol_or_arp (some s) = s

abbrev pub with_arp : ArpDevice → ScannedDevice
with_arp a = record {
  ip = a.ip;
  mac = a.mac;
  last_seen = a.timestamp;
  protocol = protocol_or_arp a.protocol;
  reachable = false;
  rtt_ms = none;
  hostname = none;
  vendor = none;
  model = none;
  uptime_seconds = none;
  discovery_method = "arp";
}

abbrev pub with_icmp : Option IcmpDevice → ScannedDevice → ScannedDevice
with_icmp none d = d
with_icmp (some i) d = record d { reachable = true; rtt_ms = i.rtt_ms; discovery_method = "icmp" }

abbrev pub with_snmp : Option SnmpDevice → ScannedDevice → ScannedDevice
with_snmp none d = d
with_snmp (some s) d = record d {
  hostname = s.hostname;
  vendor = s.vendor;
  model = s.model;
  uptime_seconds = s.uptime_seconds;
  discovery_method = "snmp";
}

unfoldable pub merge_scan_results :
    List ArpDevice → Dict String IcmpDevice → Dict String SnmpDevice → List ScannedDevice
merge_scan_results [] icmp snmp = []
merge_scan_results (a ∷ as') icmp snmp =
    with_snmp (lookup a.ip snmp) (with_icmp (lookup a.ip icmp) (with_arp a))
    ∷ merge_scan_results as' icmp snmp

-- `{d['mac']: d for d in current_devices}`
abbrev pub by_mac : List ScannedDevice → Dict String ScannedDevice → Dict String ScannedDevice
by_mac [] found = found
by_mac (d ∷ ds) found = by_mac ds (insert d.mac d found)

abbrev pub same_text : Option String → Option String → Bool
same_text none none = true
same_text none (some t) = false
same_text (some s) none = false
same_text (some s) (some t) = s == t

abbrev pub is_active : DeviceStatus → Bool
is_active active = true
is_active _ = false

abbrev pub same_bool : Bool → Bool → Bool
same_bool true b = b
same_bool false b = not b

-- `current_snapshot == last_snapshot`
abbrev pub same_snapshot : ScannedDevice → Device → Bool
same_snapshot d last =
    d.ip == last.ip_address
    && same_text d.hostname last.hostname
    && same_text d.vendor last.vendor
    && same_text d.model last.device_type
    && same_bool d.reachable (is_active last.status)
    && same_text (some d.discovery_method) (lookup "discovery_method" last.metadata)

-- An entry of `inactive`: its address, and the last IP address and name.
pub record Gone : Type 0 where
  pub mac : String
  pub ip : String
  pub hostname : Option String

pub record Delta : Type 0 where
  pub new : List ScannedDevice
  pub updated : List ScannedDevice
  pub inactive : List Gone
  pub unchanged : List ScannedDevice

abbrev pub place : Option Device → ScannedDevice → Delta → Delta
place none d rest = record rest { new = d ∷ rest.new }
place (some last) d rest =
    if same_snapshot d last
    then record rest { unchanged = d ∷ rest.unchanged }
    else record rest { updated = d ∷ rest.updated }

abbrev pub gone : Dict String ScannedDevice → Dict String Device → List Gone
gone current [] = []
gone current ((mac, d) ∷ last) =
    let rest = gone current last in
    if has mac current
    then rest
    else record { mac = mac; ip = d.ip_address; hostname = d.hostname } ∷ rest

abbrev pub compare_scans : Dict String ScannedDevice → Dict String Device → List Gone → Delta
compare_scans [] last inactive = record {
  new = [];
  updated = [];
  inactive = inactive;
  unchanged = [];
}
compare_scans ((mac, d) ∷ current) last inactive =
    place (lookup mac last) d (compare_scans current last inactive)

unfoldable pub detect_deltas : List ScannedDevice → LocalController → Delta
detect_deltas devices c =
    let current = by_mac devices [] in
    compare_scans current c.last_scan_devices (gone current c.last_scan_devices)

abbrev pub existing_id : Option Device → String
existing_id none = ""
existing_id (some d) = d.device_id

abbrev pub existing_version : Option Device → ℕ
existing_version none = 0
existing_version (some d) = d.version

-- The row that a scanned device is written as; `None` values of the metadata are left out.
abbrev pub device_of : ScannedDevice → ℕ → Option Device → LocalController → Device
device_of d seen existing c = record {
  device_id = existing_id existing;
  ip_address = d.ip;
  mac_address = d.mac;
  status = if d.reachable then DeviceStatus.active else DeviceStatus.quarantined;
  hostname = d.hostname;
  temp_scan_id = none;
  vendor = d.vendor;
  device_type = d.model;
  firmware_version = none;
  region = some c.region;
  local_controller = some c.controller_id;
  discovery_method = some d.discovery_method;
  first_seen = none;
  last_seen = some seen;
  last_updated = none;
  version = existing_version existing;
  metadata = with_text "rtt_ms" d.rtt_ms (
      with_text "uptime_seconds" d.uptime_seconds
        (("discovery_method", d.discovery_method) ∷ ("protocol", d.protocol) ∷ []));
}

-- The cache is written whether or not the store takes the device; what the store fills in is not in
-- it, and nothing reads it there.
abbrev pub keep_scanned :
    NibStore ConfigData × Reply → Device → LocalController → LocalController × Bool
keep_scanned (nib, integrity_error) d c = (record c { nib = nib }, false)
keep_scanned (nib, result r) d c =
    (record c { nib = nib; last_scan_devices = insert d.mac_address d c.last_scan_devices }, true)

module _ (p : Platform) where
  abbrev pub write_device :
      Option ℕ → ScannedDevice → String → (ℕ → ℕ) → LocalController → LocalController × Bool
  write_device none d fresh_id now c = (c, false)
  write_device (some seen) d fresh_id now c =
      let row = device_of d seen (get_device_by_mac d.mac c.nib) c in
      keep_scanned (upsert_device row fresh_id now c.nib) row c

  -- `false` is an exception, which ends the loop: a time that is no timestamp, or an id that is taken.
  unfoldable pub write_devices_to_nib :
      List ScannedDevice → (ℕ → String) → (ℕ → ℕ → ℕ) → LocalController → LocalController × Bool
  write_devices_to_nib [] fresh now c = (c, true)
  write_devices_to_nib (d ∷ ds) fresh now c =
      let (c', going) = write_device (p.fromisoformat d.last_seen) d (fresh 0) (now 0) c in
      let rest = write_devices_to_nib ds (λ n. fresh (n + 1)) (λ n. now (n + 1)) c' in
      if going then rest else (c', false)

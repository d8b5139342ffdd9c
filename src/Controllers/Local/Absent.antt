-- ===== src/Controllers/Local/Absent.antt =====
-- pdsno/controllers/local_controller.py: the devices that a scan misses, after a write of the scan.
use partially_distributed_sm.Common.{
  All, Bool-cases, Dict, List, Option, String, [], ap, arith, elem, eq_iff, has, inl, inr, insert,
  keys, lookup, lookup-insert, nat_eq, none, not, refl, some, string_eq, true, ℕ, ◌&&◌, ◌+◌, ◌==◌,
  ◌||◌, ◌∙◌, ◌∷◌, ◌≡◌,
}
use partially_distributed_sm.Platform.{Platform}
use partially_distributed_sm.Nib.Models.{Device, Reply, integrity_error, result}
use partially_distributed_sm.Nib.Store.{NibStore}
use partially_distributed_sm.Nib.Devices.{get_device_by_mac, upsert_device}
use partially_distributed_sm.Config.Approval.Engine.{ConfigData}
use partially_distributed_sm.Controllers.Local.{LocalController}
use partially_distributed_sm.Controllers.Local.Discovery.{
  Delta, Gone, ScannedDevice, by_mac, compare_scans, device_of, gone, keep_scanned, place,
  same_snapshot, write_device, write_devices_to_nib,
}
use partially_distributed_sm.Controllers.Local.Rescan.{macs}

pub compare_scans-inactive :
    (cur : Dict String ScannedDevice) (last : Dict String Device) (away : List Gone)
    → (compare_scans cur last away).inactive ≡ away
compare_scans-inactive [] last away = refl
compare_scans-inactive ((k, d) ∷ cur) last away =
    go (lookup k last) (compare_scans cur last away) ∙ compare_scans-inactive cur last away
  where
    go : (o : Option Device) (rest : Delta) → (place o d rest).inactive ≡ rest.inactive
    go none rest = refl
    go (some l) rest = elim (Bool-cases (same_snapshot d l)) [
      | inl same ↦ rw same refl
      | inr other ↦ rw other refl
    ]

pub has-there :
    (k : String) (v : ScannedDevice) (d : Dict String ScannedDevice)
    → lookup k d ≡ some v
    → has k d ≡ true
has-there k v d h = rw (h, has) refl

abbrev pub gone_macs : List Gone → List String
gone_macs [] = []
gone_macs (g ∷ gs) = g.mac ∷ gone_macs gs

has-insert :
    (k : String) (x : ScannedDevice) (d : Dict String ScannedDevice)
    → has k (insert x.mac x d) ≡ (x.mac == k || has k d)
has-insert k x d =
    rw (has, lookup-insert x.mac k x d)
      (elim (Bool-cases (x.mac == k)) [ inl same ↦ rw same refl | inr other ↦ rw other refl ])

has-by_mac :
    (k : String) (ds : List ScannedDevice) (d : Dict String ScannedDevice)
    → has k (by_mac ds d) ≡ (has k d || elem k (macs ds))
has-by_mac k [] d = ground arith
has-by_mac k (x ∷ xs) d =
    has-by_mac k xs (insert x.mac x d)
    ∙ ap (λ b. b || elem k (macs xs)) (has-insert k x d)
    ∙ ground arith

pub has-by_mac_nil :
    (k : String) (ds : List ScannedDevice) → has k (by_mac ds []) ≡ elem k (macs ds)
unfolding lookup
has-by_mac_nil k ds = has-by_mac k ds []

-- The inactive devices are those that were known and are not in the scan.
pub elem-gone :
    (k : String) (cur : Dict String ScannedDevice) (last : Dict String Device)
    → elem k (gone_macs (gone cur last)) ≡ (elem k (keys last) && not (has k cur))
elem-gone k cur [] = refl
elem-gone k cur ((j, w) ∷ last) = elim (Bool-cases (has j cur)) [
  | inl there ↦ rw there (ground (arith, eq_iff j k, elem-gone k cur last, there))
  | inr away ↦ rw away (ground (arith, eq_iff j k, elem-gone k cur last, away))
]

-- An entry for an address of the scan changes nothing.
gone-insert :
    (cur : Dict String ScannedDevice) (k : String) (d : Device) (last : Dict String Device)
    → has k cur ≡ true
    → gone cur (insert k d last) ≡ gone cur last
unfolding insert
gone-insert cur k d [] h = rw h refl
gone-insert cur k d ((j, w) ∷ last) h = elim (Bool-cases (j == k)) [
  | inl same ↦ let there : has j cur ≡ true = rw ((eq_iff j k).0 same) h in rw (same, there) refl
  | inr other ↦ rw (other, gone-insert cur k d last h) refl
]

module _ (p : Platform) where
  write_device-gone :
      (cur : Dict String ScannedDevice) (o : Option ℕ) (x : ScannedDevice) (fresh_id : String)
      (now : ℕ → ℕ) (c : LocalController)
      → has x.mac cur ≡ true
      → gone cur (write_device p o x fresh_id now c).0.last_scan_devices
        ≡ gone cur c.last_scan_devices
  write_device-gone cur none x fresh_id now c h = refl
  write_device-gone cur (some seen) x fresh_id now c h =
      let row = device_of x seen (get_device_by_mac x.mac c.nib) c in
      go (upsert_device row fresh_id now c.nib) row h
    where
      go :
          (w : NibStore ConfigData × Reply) (row : Device)
          → has row.mac_address cur ≡ true
          → gone cur (keep_scanned w row c).0.last_scan_devices ≡ gone cur c.last_scan_devices
      go (nib, integrity_error) row h = refl
      go (nib, result r) row h = gone-insert cur row.mac_address row c.last_scan_devices h

  pub write_devices-gone :
      (cur : Dict String ScannedDevice) (xs : List ScannedDevice) (fresh : ℕ → String)
      (now : ℕ → ℕ → ℕ) (c : LocalController)
      → All (λ (x : ScannedDevice). has x.mac cur ≡ true) xs
      → gone cur (write_devices_to_nib p xs fresh now c).0.last_scan_devices
        ≡ gone cur c.last_scan_devices
  unfolding write_devices_to_nib
  write_devices-gone cur [] fresh now c h = refl
  write_devices-gone cur (x ∷ xs) fresh now c (there, h) =
      let y = write_device p (p.fromisoformat x.last_seen) x (fresh 0) (now 0) c in
      let first = write_device-gone cur (p.fromisoformat x.last_seen) x (fresh 0) (now 0) c there in
      elim (Bool-cases y.1) [
        | inr stopped ↦ rw stopped first
        | inl going ↦
            rw going
              (write_devices-gone cur xs (λ n. fresh (n + 1)) (λ n. now (n + 1)) y.0 h ∙ first)
      ]

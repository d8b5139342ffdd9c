-- ===== src/Nib/Devices/Unique.antt =====
-- pdsno/datastore/sqlite_store.py: the devices by their MAC addresses and by their ids.
use mathlib.Core.Option
use partially_distributed_sm.Common.{
  Bool, Bool-cases, List, Option-cases, String, [], arith, eq_iff, find-append_none, find_row,
  if◌then◌else◌, inl, inr, nat_eq, none, refl, row_count, string_eq, update_rows, ℕ, ◌++◌, ◌==◌,
  ◌∙◌, ◌∷◌, ◌≡◌,
}
use partially_distributed_sm.Nib.Models.{Device, DeviceStatus}
use partially_distributed_sm.Nib.Store.{NibStore}
use partially_distributed_sm.Nib.Devices.{
  DeviceCall, complete, device_call, device_calls, get_device_by_mac, has_device_id, has_id_version,
  has_mac, has_mac_version, insert_device, new_row, refresh, required_of_device, set_status_of,
  update_device_status, update_existing, upsert, upsert_complete, upsert_device,
}

abbrev pub IsUnique : List Device → Type 0
IsUnique [] = Unit
IsUnique (d ∷ ds) =
    (find_row (has_mac d.mac_address) ds ≡ none)
    × (find_row (has_device_id d.device_id) ds ≡ none)
    × IsUnique ds

IsUnique-append :
    (ds : List Device) (d : Device)
    → IsUnique ds
    → find_row (has_mac d.mac_address) ds ≡ none
    → find_row (has_device_id d.device_id) ds ≡ none
    → IsUnique (ds ++ d ∷ [])
IsUnique-append [] d h m i = (refl, refl, tt)
IsUnique-append (x ∷ ds) d h m i = ground (
  arith,
  find-append_none (has_mac x.mac_address) ds d,
  find-append_none (has_device_id x.device_id) ds d,
  eq_iff x.mac_address d.mac_address,
  eq_iff d.mac_address x.mac_address,
  eq_iff x.device_id d.device_id,
  eq_iff d.device_id x.device_id,
  IsUnique-append ds d,
)

-- A row keeps its MAC address and its id.
abbrev pub KeepsKeys : (Device → Device) → Type 0
KeepsKeys f = (d : Device) → ((f d).mac_address ≡ d.mac_address) × ((f d).device_id ≡ d.device_id)

-- The row that an update leaves in place of a row.
abbrev pub updated : (Device → Bool) → (Device → Device) → Device → Device
updated q f d = if q d then f d else d

pub find_mac-update :
    (q : Device → Bool) (f : Device → Device) (mac : String) (ds : List Device)
    → KeepsKeys f
    → find_row (has_mac mac) (update_rows q f ds)
      ≡ Option.map (updated q f) (find_row (has_mac mac) ds)
find_mac-update q f mac [] keeps = refl
find_mac-update q f mac (x ∷ ds) keeps =
    ground (arith, (keeps x).0, find_mac-update q f mac ds keeps)

find_id-update :
    (q : Device → Bool) (f : Device → Device) (id : String) (ds : List Device)
    → KeepsKeys f
    → find_row (has_device_id id) (update_rows q f ds)
      ≡ Option.map (updated q f) (find_row (has_device_id id) ds)
find_id-update q f id [] keeps = refl
find_id-update q f id (x ∷ ds) keeps = ground (arith, (keeps x).1, find_id-update q f id ds keeps)

updated-keys : (q : Device → Bool) (f : Device → Device) → KeepsKeys f → KeepsKeys (updated q f)
updated-keys q f keeps d = elim (Bool-cases (q d)) [
  | inl hit ↦ rw hit (keeps d)
  | inr other ↦ rw other (refl, refl)
]

IsUnique-update :
    (q : Device → Bool) (f : Device → Device) (ds : List Device)
    → KeepsKeys f
    → IsUnique ds
    → IsUnique (update_rows q f ds)
IsUnique-update q f [] keeps h = tt
IsUnique-update q f (x ∷ ds) keeps (m, i, h) =
    let (same_mac, same_id) = updated-keys q f keeps x in
    (
      rw same_mac (find_mac-update q f x.mac_address ds keeps ∙ rw m refl),
      rw same_id (find_id-update q f x.device_id ds keeps ∙ rw i refl),
      IsUnique-update q f ds keeps h,
    )

pub refresh-KeepsKeys : (d : Device) (now : ℕ) → KeepsKeys (refresh d now)
unfolding refresh
refresh-KeepsKeys d now row = (refl, refl)

module _ {Blob : Type 0} where
  update_existing-IsUnique :
      (d existing : Device) (now : ℕ) (s : NibStore Blob)
      → IsUnique s.devices
      → IsUnique (update_existing d existing now s).0.devices
  update_existing-IsUnique d existing now s h =
      elim (Bool-cases (row_count (has_mac_version d.mac_address d.version) s.devices == 0)) [
        | inl absent ↦ rw absent h
        | inr there ↦ rw there (IsUnique-update _ _ s.devices (refresh-KeepsKeys d now) h)
      ]

  insert_device-IsUnique :
      (d : Device) (now : ℕ) (s : NibStore Blob)
      → find_row (has_mac d.mac_address) s.devices ≡ none
      → IsUnique s.devices
      → IsUnique (insert_device d now s).0.devices
  unfolding new_row
  insert_device-IsUnique d now s absent h =
      elim (Option-cases (find_row (has_device_id d.device_id) s.devices)) [
        | inr (other, taken) ↦ rw (taken, insert_device) h
        | inl free ↦
            rw (free, insert_device) (IsUnique-append s.devices (new_row d now) h absent free)
      ]

  upsert_complete-IsUnique :
      (fs : List String) (d : Device) (fresh_id : String) (now : ℕ → ℕ) (s : NibStore Blob)
      → IsUnique s.devices
      → IsUnique (upsert_complete fs d fresh_id now s).0.devices
  unfolding get_device_by_mac complete
  upsert_complete-IsUnique (f ∷ fs) d fresh_id now s h = h
  upsert_complete-IsUnique [] d fresh_id now s h =
      elim (Option-cases (find_row (has_mac d.mac_address) s.devices)) [
        | inr (existing, there) ↦
            rw (there, upsert_complete) (update_existing-IsUnique d existing (now 0) s h)
        | inl absent ↦
            rw (absent, upsert_complete)
              (insert_device-IsUnique (complete d fresh_id (now 1) (now 2)) (now 0) s absent h)
      ]

  update_device_status-IsUnique :
      (id : String) (status : DeviceStatus) (version now : ℕ) (s : NibStore Blob)
      → IsUnique s.devices
      → IsUnique (update_device_status id status version now s).0.devices
  unfolding update_device_status
  update_device_status-IsUnique id status version now s h =
      elim (Bool-cases (row_count (has_id_version id version) s.devices == 0)) [
        | inl absent ↦ rw absent h
        | inr there ↦ rw there (IsUnique-update _ _ s.devices (λ row. (refl, refl)) h)
      ]

  -- Where MAC addresses and ids are unique: whatever devices are written, in whatever order and with whatever ids and versions, no two rows
  -- have the same MAC address, and no two the same id.
  pub device_calls-IsUnique :
      (cs : List DeviceCall) (s : NibStore Blob)
      → IsUnique s.devices
      → IsUnique (device_calls cs s).devices
  unfolding device_calls device_call upsert_device
  device_calls-IsUnique [] s h = h
  device_calls-IsUnique (upsert d fresh_id now ∷ cs) s h =
      device_calls-IsUnique cs _
        (upsert_complete-IsUnique (required_of_device d) d fresh_id now s h)
  device_calls-IsUnique (set_status_of id status version now ∷ cs) s h =
      device_calls-IsUnique cs _ (update_device_status-IsUnique id status version now s h)

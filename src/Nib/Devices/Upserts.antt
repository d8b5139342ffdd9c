-- ===== src/Nib/Devices/Upserts.antt =====
-- pdsno/datastore/sqlite_store.py: an upsert of a device that is known, and of one that is new.
use mathlib.Core.Option
use partially_distributed_sm.Common.{
  Bool-cases, List, Option-cases, String, [], arith, coalesce, eq_iff, false, find_row,
  if◌then◌else◌, inl, inr, lookup, nat_eq, none, not, refl, row_count, some, string_eq, true, ℕ,
  ◌&&◌, ◌++◌, ◌+◌, ◌==◌, ◌∷◌, ◌≡◌,
}
use partially_distributed_sm.Nib.Models.{Device, Reply, conflicting, granted, result}
use partially_distributed_sm.Nib.Store.{NibStore}
use partially_distributed_sm.Nib.Devices.{
  complete, discovery_method_of, get_device, get_device_by_mac, has_device_id, has_mac,
  has_mac_version, insert_device, new_row, or_else_text, refresh, required_of_device,
  update_existing, upsert_complete, upsert_device,
}
use partially_distributed_sm.Nib.Devices.Unique.{
  IsUnique, find_mac-update, refresh-KeepsKeys, updated,
}
use mathlib.Core.Option.{some-injective}

no_mac_version :
    (mac : String) (version : ℕ) (ds : List Device)
    → find_row (has_mac mac) ds ≡ none
    → row_count (has_mac_version mac version) ds ≡ 0
no_mac_version mac version [] h = refl
no_mac_version mac version (x ∷ ds) h = ground (arith, no_mac_version mac version ds)

-- With unique addresses, the update finds its row exactly when that row has the version.
count_mac_version :
    (mac : String) (version : ℕ) (ds : List Device) (row : Device)
    → IsUnique ds
    → find_row (has_mac mac) ds ≡ some row
    → (row_count (has_mac_version mac version) ds == 0) ≡ not (row.version == version)
count_mac_version mac version [] row h there = cc
count_mac_version mac version (x ∷ ds) row (m, i, h) there =
    elim (Bool-cases (x.mac_address == mac)) [
      | inl same ↦
          ground
            (arith, some-injective x row, eq_iff x.mac_address mac, no_mac_version mac version ds)
      | inr other ↦ ground (arith, count_mac_version mac version ds row h)
    ]

find_mac-append :
    (j : String) (ds : List Device) (x : Device)
    → find_row (has_mac x.mac_address) ds ≡ none
    → find_row (has_mac j) (ds ++ x ∷ [])
      ≡ (if x.mac_address == j then some x else find_row (has_mac j) ds)
find_mac-append j [] x h = refl
find_mac-append j (y ∷ ds) x h = ground (
  arith,
  eq_iff x.mac_address j,
  eq_iff y.mac_address j,
  eq_iff y.mac_address x.mac_address,
  find_mac-append j ds x,
)

module _ {Blob : Type 0} where
  upsert-existing :
      (d row : Device) (fresh_id : String) (now : ℕ → ℕ) (s : NibStore Blob)
      → required_of_device d ≡ []
      → get_device_by_mac d.mac_address s ≡ some row
      → upsert_device d fresh_id now s ≡ update_existing d row (now 0) s
  unfolding upsert_device
  upsert-existing d row fresh_id now s whole there = rw (whole, upsert_complete, there) refl

  upsert-new :
      (d : Device) (fresh_id : String) (now : ℕ → ℕ) (s : NibStore Blob)
      → required_of_device d ≡ []
      → get_device_by_mac d.mac_address s ≡ none
      → upsert_device d fresh_id now s
        ≡ insert_device (complete d fresh_id (now 1) (now 2)) (now 0) s
  unfolding upsert_device
  upsert-new d fresh_id now s whole absent = rw (whole, upsert_complete, absent) refl

  -- What is shown of an upsert of a known device.
  abbrev Refreshed : Device → Device → ℕ → NibStore Blob → NibStore Blob × Reply → Type 0
  Refreshed d row now s (s', r) =
      (granted r ≡ (row.version == d.version))
      × (granted r ≡ false → (s' ≡ s) × (r ≡ result conflicting))
      × (granted r ≡ true
          → (j : String)
          → get_device_by_mac j s'
            ≡ Option.map (updated (has_mac_version d.mac_address d.version) (refresh d now))
                (get_device_by_mac j s))

  update_existing-Refreshed :
      (d row : Device) (now : ℕ) (s : NibStore Blob)
      → IsUnique s.devices
      → get_device_by_mac d.mac_address s ≡ some row
      → Refreshed d row now s (update_existing d row now s)
  unfolding get_device_by_mac
  update_existing-Refreshed d row now s unique there =
      let counted = count_mac_version d.mac_address d.version s.devices row unique there in
      elim (Bool-cases (row.version == d.version)) [
        | inl same ↦
            rw (counted, update_existing, same)
              (
                refl,
                λ h. cc,
                λ h j. find_mac-update _ (refresh d now) j s.devices (refresh-KeepsKeys d now),
              )
        | inr stale ↦ rw (counted, update_existing, stale) (refl, λ h. (refl, refl), λ h. cc)
      ]

  -- Where MAC addresses and ids are unique, an upsert of a device with its required fields whose MAC
  -- address is stored goes through exactly when the device has the
  -- version of the stored row, and otherwise reports a conflict and changes nothing. If it goes
  -- through, a search by any MAC address finds what it found before, but for the row with that
  -- address: it keeps its id, its time of first sight and its temporary scan id, has the clock's time
  -- of update and a version one greater, and the device's values in all other fields, where a missing
  -- time of last sight is the clock's and a missing discovery method that of the metadata.
  pub upsert_device_known :
      (d row : Device) (fresh_id : String) (now : ℕ → ℕ) (s : NibStore Blob)
      → IsUnique s.devices
      → required_of_device d ≡ []
      → get_device_by_mac d.mac_address s ≡ some row
      → let (s', r) = upsert_device d fresh_id now s in
        (granted r ≡ (row.version == d.version))
        × (granted r ≡ false → (s' ≡ s) × (r ≡ result conflicting))
        × (granted r ≡ true
            → (j : String)
            → get_device_by_mac j s'
              ≡ Option.map
                  (λ (x : Device).
                    if x.mac_address == d.mac_address && x.version == d.version
                    then record d {
                      device_id = x.device_id;
                      mac_address = x.mac_address;
                      temp_scan_id = x.temp_scan_id;
                      first_seen = x.first_seen;
                      last_seen = coalesce d.last_seen (some (now 0));
                      last_updated = some (now 0);
                      discovery_method =
                          or_else_text d.discovery_method (lookup "discovery_method" d.metadata);
                      version = x.version + 1;
                    }
                    else x)
                  (get_device_by_mac j s))
  unfolding refresh discovery_method_of
  upsert_device_known d row fresh_id now s unique whole there =
      rw (upsert-existing d row fresh_id now s whole there)
        (update_existing-Refreshed d row (now 0) s unique there)

  -- What is shown of an insertion.
  abbrev Inserted : Device → ℕ → NibStore Blob → NibStore Blob × Reply → Type 0
  Inserted c now s (s', r) =
      (granted r ≡ elim (get_device c.device_id s) [ none ↦ true | some _ ↦ false ])
      × (granted r ≡ false → s' ≡ s)
      × (granted r ≡ true
          → (j : String)
          → get_device_by_mac j s'
            ≡ (if c.mac_address == j then some (new_row c now) else get_device_by_mac j s))

  insert_device-Inserted :
      (c : Device) (now : ℕ) (s : NibStore Blob)
      → get_device_by_mac c.mac_address s ≡ none
      → Inserted c now s (insert_device c now s)
  unfolding get_device get_device_by_mac new_row
  insert_device-Inserted c now s absent =
      elim (Option-cases (find_row (has_device_id c.device_id) s.devices)) [
        | inr (other, taken) ↦ rw (taken, insert_device) (refl, λ h. refl, λ h. cc)
        | inl free ↦
            rw (free, insert_device)
              (refl, λ h. cc, λ h j. find_mac-append j s.devices (new_row c now) absent)
      ]

  -- An upsert of a device with its required fields whose MAC address is not stored writes a row with that address, version
  -- 0 and the id that the device has or is given, unless a row has that id already: then the
  -- store's exception leaves it as it was. A search by any other MAC address finds what it found.
  pub upsert_device_new :
      (d : Device) (fresh_id : String) (now : ℕ → ℕ) (s : NibStore Blob)
      → required_of_device d ≡ []
      → get_device_by_mac d.mac_address s ≡ none
      → let (s', r) = upsert_device d fresh_id now s in
        let c = complete d fresh_id (now 1) (now 2) in
        (granted r ≡ elim (get_device c.device_id s) [ none ↦ true | some _ ↦ false ])
        × (granted r ≡ false → s' ≡ s)
        × (granted r ≡ true
            → (j : String)
            → get_device_by_mac j s'
              ≡ (if c.mac_address == j then some (new_row c (now 0)) else get_device_by_mac j s))
  upsert_device_new d fresh_id now s whole absent = rw (upsert-new d fresh_id now s whole absent) (
      insert_device-Inserted (complete d fresh_id (now 1) (now 2)) (now 0) s
        (unfold complete in absent))

-- ===== src/Controllers/Local/Settles.antt =====
-- pdsno/controllers/local_controller.py: what writing the changes of a scan leaves to a second look.
use partially_distributed_sm.Common.{
  All, All-append, Bool-cases, Dict, List, Option, String, [], ap, arith, elem, eq_iff, false, has,
  if◌then◌else◌, inl, inr, insert, keys, length, lookup, lookup-insert, nat_eq, none, not, refl,
  some, string_eq, suc, sym, true, ℕ, ◌&&◌, ◌++◌, ◌+◌, ◌==◌, ◌∙◌, ◌∷◌, ◌≡◌,
}
use partially_distributed_sm.Platform.{Platform}
use partially_distributed_sm.Nib.Models.{Device, Reply, integrity_error, result}
use partially_distributed_sm.Nib.Store.{NibStore}
use partially_distributed_sm.Nib.Devices.{get_device_by_mac, upsert_device}
use partially_distributed_sm.Config.Approval.Engine.{ConfigData}
use partially_distributed_sm.Controllers.Local.{LocalController}
use partially_distributed_sm.Controllers.Local.Discovery.{
  Delta, Gone, ScannedDevice, by_mac, compare_scans, detect_deltas, device_of, gone, keep_scanned,
  place, same_snapshot, write_device, write_devices_to_nib,
}
use partially_distributed_sm.Controllers.Local.Rescan.{
  IsKeyed, by_mac-IsKeyed, changed, macs, place-changed, settled, settled-device_of,
}
use partially_distributed_sm.Controllers.Local.Entries.{All-both, All-lookup, All-map, Entry, found}
use partially_distributed_sm.Controllers.Local.Absent.{
  compare_scans-inactive, elem-gone, gone_macs, has-by_mac_nil, has-there, write_devices-gone,
}

placed-All :
    (P : ScannedDevice → Type 0) (cur : Dict String ScannedDevice) (last : Dict String Device)
    (away : List Gone)
    → All (λ (e : Entry). P e.1) cur
    → All P (compare_scans cur last away).new × All P (compare_scans cur last away).updated
placed-All P [] last away h = (tt, tt)
placed-All P ((k, d) ∷ cur) last away (h, hs) =
    go (lookup k last) (compare_scans cur last away) (placed-All P cur last away hs)
  where
    go :
        (o : Option Device) (rest : Delta)
        → All P rest.new × All P rest.updated
        → All P (place o d rest).new × All P (place o d rest).updated
    go none rest (a, b) = ((h, a), b)
    go (some l) rest (a, b) = elim (Bool-cases (same_snapshot d l)) [
      | inl same ↦ rw same (a, b)
      | inr other ↦ rw other (a, (h, b))
    ]

covered :
    (cur : Dict String ScannedDevice) (last : Dict String Device) (away : List Gone) (k : String)
    → elem k (macs (compare_scans cur last away).new) ≡ false
    → elem k (macs (compare_scans cur last away).updated) ≡ false
    → All (λ (e : Entry). (e.1.mac == k) ≡ true → settled (lookup e.0 last) e.1 ≡ true) cur
covered [] last away k h h' = tt
covered ((j, d) ∷ cur) last away k h h' =
    let (g, g', own) = place-changed (lookup j last) d (compare_scans cur last away) k h h' in
    (own, covered cur last away k g g')

elem-macs_append :
    (k : String) (xs ys : List ScannedDevice)
    → elem k (macs (xs ++ ys)) ≡ false
    → (elem k (macs xs) ≡ false) × (elem k (macs ys) ≡ false)
elem-macs_append k [] ys h = (refl, h)
elem-macs_append k (x ∷ xs) ys h = ground (arith, elem-macs_append k xs ys)

compare_scans-settled :
    (cur : Dict String ScannedDevice) (last : Dict String Device) (away : List Gone)
    → All (λ (e : Entry). settled (lookup e.0 last) e.1 ≡ true) cur
    → let d = compare_scans cur last away in
      (d.new ≡ []) × (d.updated ≡ []) × (length d.unchanged ≡ length cur)
compare_scans-settled [] last away h = (refl, refl, refl)
compare_scans-settled ((k, d) ∷ cur) last away (h, hs) =
    go (lookup k last) (compare_scans cur last away) h (compare_scans-settled cur last away hs)
  where
    go :
        (o : Option Device) (rest : Delta)
        → settled o d ≡ true
        → (rest.new ≡ []) × (rest.updated ≡ []) × (length rest.unchanged ≡ length cur)
        → ((place o d rest).new ≡ [])
          × ((place o d rest).updated ≡ [])
          × (length (place o d rest).unchanged ≡ suc (length cur))
    go none rest same (a, b, n) = cc
    go (some l) rest same (a, b, n) = rw same (a, b, ap suc n)

module _ (p : Platform) where
  write_device-kept :
      (o : Option ℕ) (x : ScannedDevice) (fresh_id : String) (now : ℕ → ℕ) (c : LocalController)
      → (write_device p o x fresh_id now c).1 ≡ true
      → (seen : ℕ) × ((write_device p o x fresh_id now c).0.last_scan_devices
          ≡ insert x.mac (device_of x seen (get_device_by_mac x.mac c.nib) c) c.last_scan_devices)
  write_device-kept none x fresh_id now c h = cc
  write_device-kept (some seen) x fresh_id now c h =
      let row = device_of x seen (get_device_by_mac x.mac c.nib) c in
      (seen, go (upsert_device row fresh_id now c.nib) row h)
    where
      go :
          (w : NibStore ConfigData × Reply) (row : Device)
          → (keep_scanned w row c).1 ≡ true
          → (keep_scanned w row c).0.last_scan_devices
            ≡ insert row.mac_address row c.last_scan_devices
      go (nib, integrity_error) row h = cc
      go (nib, result r) row h = refl

  -- The entry of one address, over the writes of devices that, at this address, are the device `d`.
  write-settled :
      (k : String) (d : ScannedDevice) (ds : List ScannedDevice) (fresh : ℕ → String)
      (now : ℕ → ℕ → ℕ) (c : LocalController)
      → All (λ (x : ScannedDevice). (x.mac == k) ≡ true → x ≡ d) ds
      → (elem k (macs ds) ≡ false → settled (lookup k c.last_scan_devices) d ≡ true)
      → (write_devices_to_nib p ds fresh now c).1 ≡ true
      → settled (lookup k (write_devices_to_nib p ds fresh now c).0.last_scan_devices) d ≡ true
  unfolding write_devices_to_nib
  write-settled k d [] fresh now c same h done = h refl
  write-settled k d (x ∷ xs) fresh now c (is_d, same) h done =
      elim (Bool-cases (write_device p (p.fromisoformat x.last_seen) x (fresh 0) (now 0) c).1) [
        | inr stopped ↦ let wrong = rw (stopped, write_devices_to_nib) at done in cc
        | inl going ↦
            let c' = (write_device p (p.fromisoformat x.last_seen) x (fresh 0) (now 0) c).0 in
            let (seen, kept) =
              write_device-kept (p.fromisoformat x.last_seen) x (fresh 0) (now 0) c going in
            rw going (
              write-settled k d xs (λ n. fresh (n + 1)) (λ n. now (n + 1)) c' same
                (λ out. rw (kept, lookup-insert) (next seen out))
                (rw (going, write_devices_to_nib) at done))
      ]
    where
      next :
          (seen : ℕ)
          → elem k (macs xs) ≡ false
          → settled
              (if x.mac == k
                then some (device_of x seen (get_device_by_mac x.mac c.nib) c)
                else lookup k c.last_scan_devices)
              d
            ≡ true
      next seen out = elim (Bool-cases (x.mac == k)) [
        | inl here ↦
            rw (here, is_d here) (settled-device_of d seen (get_device_by_mac d.mac c.nib) c)
        | inr other ↦ rw other (h (rw other out))
      ]

  -- A scan that finds what the last one found has no news: after the new and the updated devices of
  -- a scan have been written without an exception, whatever the store answered, the same scan has no
  -- new and no updated device, every address that it found is unchanged, and it reports the same
  -- devices inactive as the first scan did: those of the addresses that were known before and that
  -- the scan did not find.
  pub detect_deltas_again :
      (ds : List ScannedDevice) (fresh : ℕ → String) (now : ℕ → ℕ → ℕ) (c : LocalController)
      → (write_devices_to_nib p (changed (detect_deltas ds c)) fresh now c).1 ≡ true
      → let again =
          detect_deltas ds (write_devices_to_nib p (changed (detect_deltas ds c)) fresh now c).0 in
        (again.new ≡ [])
        × (again.updated ≡ [])
        × (length again.unchanged ≡ length (by_mac ds []))
        × (again.inactive ≡ (detect_deltas ds c).inactive)
        × ((k : String)
            → elem k (gone_macs again.inactive)
              ≡ (elem k (keys c.last_scan_devices) && not (elem k (macs ds))))
  unfolding detect_deltas
  detect_deltas_again ds fresh now c done =
      let (none_new, none_updated, all_unchanged) =
        compare_scans-settled cur c'.last_scan_devices (gone cur c'.last_scan_devices) (
          All-map (λ (e : Entry). lookup e.0 cur ≡ some e.1)
            (λ (e : Entry). settled (lookup e.0 c'.last_scan_devices) e.1 ≡ true) cur
            (λ e. entry e.0 e.1) there) in
      (
        none_new,
        none_updated,
        all_unchanged,
        still_gone,
        λ k. ap (λ gs. elem k (gone_macs gs)) still_gone ∙ missed k,
      )
    where
      cur : Dict String ScannedDevice
      cur = by_mac ds []

      delta : Delta
      delta = compare_scans cur c.last_scan_devices (gone cur c.last_scan_devices)

      c' : LocalController
      c' = (write_devices_to_nib p (changed delta) fresh now c).0

      keyed : IsKeyed cur
      keyed = by_mac-IsKeyed ds [] (tt, tt)

      there : All (λ (e : Entry). lookup e.0 cur ≡ some e.1) cur
      there = found cur keyed.0

      alone :
          (k : String) (d : ScannedDevice)
          → lookup k cur ≡ some d
          → All (λ (x : ScannedDevice). (x.mac == k) ≡ true → x ≡ d) (changed delta)
      alone k d h =
          let (a, b) =
            placed-All (λ (x : ScannedDevice). (x.mac == k) ≡ true → x ≡ d) cur c.last_scan_devices
              (gone cur c.last_scan_devices)
              (All-map (λ (e : Entry). (lookup e.0 cur ≡ some e.1) × (e.1.mac ≡ e.0))
                (λ (e : Entry). (e.1.mac == k) ≡ true → e.1 ≡ d) cur
                (λ e (own, named) same.
                  let at_k : e.0 ≡ k = sym named ∙ (eq_iff e.1.mac k).0 same in
                  let both = sym (rw at_k at own) ∙ h in cc)
                (All-both _ _ cur there keyed.1)) in
          All-append _ delta.new delta.updated a b

      in_scan : All (λ (x : ScannedDevice). has x.mac cur ≡ true) (changed delta)
      in_scan =
          let (a, b) =
            placed-All (λ (x : ScannedDevice). has x.mac cur ≡ true) cur c.last_scan_devices
              (gone cur c.last_scan_devices)
              (All-map (λ (e : Entry). (lookup e.0 cur ≡ some e.1) × (e.1.mac ≡ e.0))
                (λ (e : Entry). has e.1.mac cur ≡ true) cur
                (λ e (own, named).
                  has-there e.1.mac e.1 cur (ap (λ (k : String). lookup k cur) named ∙ own))
                (All-both _ _ cur there keyed.1)) in
          All-append _ delta.new delta.updated a b

      still_gone :
          (compare_scans cur c'.last_scan_devices (gone cur c'.last_scan_devices)).inactive
          ≡ delta.inactive
      still_gone =
          compare_scans-inactive cur c'.last_scan_devices (gone cur c'.last_scan_devices)
          ∙ write_devices-gone p cur (changed delta) fresh now c in_scan
          ∙ sym (compare_scans-inactive cur c.last_scan_devices (gone cur c.last_scan_devices))

      missed :
          (k : String)
          → elem k (gone_macs delta.inactive)
            ≡ (elem k (keys c.last_scan_devices) && not (elem k (macs ds)))
      missed k =
          ap (λ gs. elem k (gone_macs gs))
            (compare_scans-inactive cur c.last_scan_devices (gone cur c.last_scan_devices))
          ∙ elem-gone k cur c.last_scan_devices
          ∙ ap (λ b. elem k (keys c.last_scan_devices) && not b) (has-by_mac_nil k ds)

      entry :
          (k : String) (d : ScannedDevice)
          → lookup k cur ≡ some d
          → settled (lookup k c'.last_scan_devices) d ≡ true
      entry k d h =
          write-settled k d (changed delta) fresh now c (alone k d h)
            (λ out.
              let (g, g') = elem-macs_append k delta.new delta.updated out in
              All-lookup
                (λ (e : Entry).
                  (e.1.mac == k) ≡ true → settled (lookup e.0 c.last_scan_devices) e.1 ≡ true)
                k d cur (covered cur c.last_scan_devices (gone cur c.last_scan_devices) k g g') h
                ((eq_iff d.mac k).1 (All-lookup (λ (e : Entry). e.1.mac ≡ e.0) k d cur keyed.1 h)))
            done

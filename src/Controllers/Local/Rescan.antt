-- ===== src/Controllers/Local/Rescan.antt =====
-- pdsno/controllers/local_controller.py: a scan that finds what the last one found.
use partially_distributed_sm.Common.{
  All, Bool, Bool-cases, Dict, Distinct, List, Option, String, [], arith, elem, eq_iff, false,
  if◌then◌else◌, inl, inr, insert, keys, lookup, nat_eq, none, refl, some, string_eq, sym, true, ℕ,
  ◌++◌, ◌==◌, ◌||◌, ◌∙◌, ◌∷◌, ◌≡◌,
}
use partially_distributed_sm.Nib.Models.{Device, DeviceStatus}
use partially_distributed_sm.Controllers.Local.{LocalController, with_text}
use partially_distributed_sm.Controllers.Local.Discovery.{
  Delta, ScannedDevice, by_mac, device_of, is_active, place, same_bool, same_snapshot, same_text,
}

-- The cache has a device with the snapshot of the scanned one.
abbrev pub settled : Option Device → ScannedDevice → Bool
settled none d = false
settled (some last) d = same_snapshot d last

abbrev pub changed : Delta → List ScannedDevice
changed d = d.new ++ d.updated

abbrev pub macs : List ScannedDevice → List String
macs [] = []
macs (d ∷ ds) = d.mac ∷ macs ds

same_text_refl : (s : Option String) → same_text s s ≡ true
same_text_refl none = refl
same_text_refl (some s) = (eq_iff s s).1 refl

same_bool-status :
    (b : Bool)
    → same_bool b (is_active (if b then DeviceStatus.active else DeviceStatus.quarantined)) ≡ true
same_bool-status true = refl
same_bool-status false = refl

method-written :
    (rtt uptime : Option String) (s t : String)
    → lookup "discovery_method" (
        with_text "rtt_ms" rtt
          (with_text "uptime_seconds" uptime (("discovery_method", s) ∷ ("protocol", t) ∷ [])))
      ≡ some s
unfolding lookup
method-written none none s t = refl
method-written none (some u) s t = refl
method-written (some r) none s t = refl
method-written (some r) (some u) s t = refl

pub settled-device_of :
    (d : ScannedDevice) (seen : ℕ) (existing : Option Device) (c : LocalController)
    → settled (some (device_of d seen existing c)) d ≡ true
settled-device_of d seen existing c =
    simp ((eq_iff d.ip d.ip).1 refl, same_text_refl, same_bool-status, method-written)

module _ {V : Type 0} where
  lookup-absent : (k : String) (d : Dict String V) → elem k (keys d) ≡ false → lookup k d ≡ none
  unfolding lookup
  lookup-absent k [] h = refl
  lookup-absent k ((j, w) ∷ d) h = ground (arith, lookup-absent k d)

-- Each entry of the scan is under its own address, and no address is there twice.
abbrev pub IsKeyed : Dict String ScannedDevice → Type 0
IsKeyed d = Distinct (keys d) × All (λ (e : String × ScannedDevice). e.1.mac ≡ e.0) d

elem-insert :
    (j k : String) (v : ScannedDevice) (d : Dict String ScannedDevice)
    → elem j (keys (insert k v d)) ≡ (elem j (keys d) || k == j)
unfolding insert
elem-insert j k v [] = ground arith
elem-insert j k v ((i, w) ∷ d) =
    ground (arith, eq_iff i k, eq_iff i j, eq_iff k j, elem-insert j k v d)

insert-IsKeyed :
    (v : ScannedDevice) (d : Dict String ScannedDevice) → IsKeyed d → IsKeyed (insert v.mac v d)
unfolding insert
insert-IsKeyed v [] h = ((refl, tt), (refl, tt))
insert-IsKeyed v ((i, w) ∷ d) ((out, distinct), (own, rest)) = elim (Bool-cases (i == v.mac)) [
  | inl same ↦ rw same ((out, distinct), (sym ((eq_iff i v.mac).0 same), rest))
  | inr other ↦
      let (distinct', rest') = insert-IsKeyed v d (distinct, rest) in
      rw other (
        (
          elem-insert i v.mac v d ∙ ground (arith, out, eq_iff i v.mac, eq_iff v.mac i, other),
          distinct',
        ),
        (own, rest'),
      )
]

pub by_mac-IsKeyed :
    (ds : List ScannedDevice) (d : Dict String ScannedDevice) → IsKeyed d → IsKeyed (by_mac ds d)
by_mac-IsKeyed [] d h = h
by_mac-IsKeyed (x ∷ xs) d h = by_mac-IsKeyed xs (insert x.mac x d) (insert-IsKeyed x d h)

pub place-changed :
    (o : Option Device) (d : ScannedDevice) (rest : Delta) (k : String)
    → elem k (macs (place o d rest).new) ≡ false
    → elem k (macs (place o d rest).updated) ≡ false
    → (elem k (macs rest.new) ≡ false)
      × (elem k (macs rest.updated) ≡ false)
      × ((d.mac == k) ≡ true → settled o d ≡ true)
place-changed none d rest k h h' = ground arith
place-changed (some last) d rest k h h' = elim (Bool-cases (same_snapshot d last)) [
  | inl same ↦ (rw same at h, rw same at h', λ e. same)
  | inr other ↦ let g = rw other at h' in (rw other at h, ground arith, λ e. ground arith)
]

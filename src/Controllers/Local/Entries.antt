-- ===== src/Controllers/Local/Entries.antt =====
-- pdsno/controllers/local_controller.py: the entries of a scan.
use mathlib.Core.Path.{subst}
use partially_distributed_sm.Common.{
  All, Bool-cases, Dict, Distinct, List, String, [], ap, arith, elem, eq_iff, inl, inr, keys,
  lookup, nat_eq, ne_of_elem, refl, some, string_eq, true, ◌==◌, ◌||◌, ◌∙◌, ◌∷◌, ◌≡◌,
}
use partially_distributed_sm.Controllers.Local.Discovery.{ScannedDevice}

pub All-map :
    {A : Type 0} (P Q : A → Type 0) (xs : List A) → ((x : A) → P x → Q x) → All P xs → All Q xs
All-map P Q [] f h = tt
All-map P Q (x ∷ xs) f (h, hs) = (f x h, All-map P Q xs f hs)

pub All-both :
    {A : Type 0} (P Q : A → Type 0) (xs : List A) → All P xs → All Q xs → All (λ x. P x × Q x) xs
All-both P Q [] h k = tt
All-both P Q (x ∷ xs) (h, hs) (k, ks) = ((h, k), All-both P Q xs hs ks)

abbrev pub Entry : Type 0
Entry = String × ScannedDevice

pub All-lookup :
    (Q : Entry → Type 0) (k : String) (v : ScannedDevice) (d : Dict String ScannedDevice)
    → All Q d
    → lookup k d ≡ some v
    → Q (k, v)
unfolding lookup
All-lookup Q k v [] h e = cc
All-lookup Q k v ((j, w) ∷ d) (h, hs) e = elim (Bool-cases (j == k)) [
  | inl same ↦
      let there = rw same at e in
      subst Q
        (ap (λ (i : String). (i, w)) ((eq_iff j k).0 same) ∙ ap (λ (o : ScannedDevice). (k, o)) cc)
        h
  | inr other ↦ All-lookup Q k v d hs (rw other at e)
]

pub found :
    (d : Dict String ScannedDevice)
    → Distinct (keys d)
    → All (λ (e : Entry). lookup e.0 d ≡ some e.1) d
unfolding lookup
found [] h = tt
found ((j, w) ∷ d) (out, h) = (
  rw ((eq_iff j j).1 refl) refl,
  All-map (λ (e : Entry). (lookup e.0 d ≡ some e.1) × (elem e.0 (keys d) ≡ true))
      (λ (e : Entry). lookup e.0 ((j, w) ∷ d) ≡ some e.1) d
      (λ e (there, within). rw (ne_of_elem j e.0 (keys d) out within) there)
      (All-both _ _ d (found d h) (listed d)),
)
  where
    listed : (d : Dict String ScannedDevice) → All (λ (e : Entry). elem e.0 (keys d) ≡ true) d
    listed [] = tt
    listed ((i, v) ∷ d) = (
      rw ((eq_iff i i).1 refl) refl,
      All-map (λ (e : Entry). elem e.0 (keys d) ≡ true)
          (λ (e : Entry). (i == e.0 || elem e.0 (keys d)) ≡ true) d (λ e h. rw h ground arith)
          (listed d),
    )

-- ===== src/Controllers/Regional/Validates.antt =====
-- pdsno/controllers/regional_controller.py: the identities that local controllers are given.
use partially_distributed_sm.Common.{
  Bool, Bool-cases, Distinct, List, Option, String, [], ap, append_text, arith, elem, eq_iff, false,
  inl, inr, nat_eq, not, refl, string_eq, sym, ℕ, ◌++◌, ◌+◌, ◌<◌, ◌==◌, ◌||◌, ◌∷◌, ◌≡◌, ◌≤◌, ◌⊎◌,
}
use partially_distributed_sm.Platform.{Platform, TellsApart}
use partially_distributed_sm.Controllers.Messages.{Envelope, ValidationRequest, is_set, text_or}
use partially_distributed_sm.Controllers.Registration.{controller_record, identity_of, is_same}
use partially_distributed_sm.Controllers.Regional.{
  RegionalController, Validation, grant_local, identity_given, register_local, validate_local,
  validate_local_controller,
}
use partially_distributed_sm.Nib.Models.{
  ControllerMetadata, NibResult, Reply, integrity_error, result,
}
use partially_distributed_sm.Nib.Store.{NibStore}
use partially_distributed_sm.Nib.Controllers.{upsert_controller}
use partially_distributed_sm.Config.Approval.Engine.{ConfigData}

append_text-cancel : (a x y : String) → append_text a x ≡ append_text a y → x ≡ y
append_text-cancel String.[] x y h = h
append_text-cancel (String.◌∷◌ c s) x y h = append_text-cancel s x y (ap tail h)
  where
    tail : String → String
    tail String.[] = String.[]
    tail (String.◌∷◌ c s) = s

neither : (a b : Bool) → a ≡ false → b ≡ false → (a || b) ≡ false
neither a b h k = ground (arith, h, k)

-- A validation request, the id of its event and the time.
pub record Asked : Type 0 where
  pub envelope : Envelope ValidationRequest
  pub event_id : String
  pub now : ℕ

-- The id of an identity that is given.
abbrev pub given_id : Validation → List String
given_id (identity_given id certificate region) = id ∷ []
given_id _ = []

module _ (p : Platform) where
  identity_of_inj :
      (role region : String) (m n : ℕ)
      → TellsApart p
      → identity_of p role region m ≡ identity_of p role region n
      → m ≡ n
  identity_of_inj role region m n apart h = apart m n (
      append_text-cancel "_" _ _ (
        append_text-cancel region _ _
          (append_text-cancel "_cntl_" _ _ (append_text-cancel role _ _ h))))

module _ (p : Platform) (event_key : List ℕ) where
  unfoldable pub validations : List Asked → RegionalController → RegionalController
  validations [] c = c
  validations (a ∷ as') c =
      validations as' (validate_local_controller p event_key a.envelope a.event_id a.now c).0

  -- The ids that a sequence of requests is given, in their order.
  unfoldable pub given_ids : List Asked → RegionalController → List String
  given_ids [] c = []
  given_ids (a ∷ as') c =
      let (c', v) = validate_local_controller p event_key a.envelope a.event_id a.now c in
      given_id v ++ given_ids as' c'

  -- The region stays. Either the counter does too, and no identity is given, or it is one more and
  -- the identity, if one is given, has its number.
  abbrev Counted : RegionalController → RegionalController × Validation → Type 0
  Counted c (c', v) =
      (c'.region ≡ c.region)
      × (((c'.controller_sequence ≡ c.controller_sequence) × (given_id v ≡ []))
          ⊎ ((c'.controller_sequence ≡ c.controller_sequence + 1)
              × ((given_id v ≡ [])
                  ⊎ (given_id v
                      ≡ identity_of p "local" c.region (c.controller_sequence + 1) ∷ []))))

  grant-Counted :
      (w : NibStore ConfigData × Reply) (key : String) (now : ℕ) (c : RegionalController)
      → Counted c (
          grant_local p event_key w
            (identity_of p "local" c.region (c.controller_sequence + 1))
            c.region
            key
            now
            (record c { controller_sequence = c.controller_sequence + 1 }))
  grant-Counted (nib, integrity_error) key now c = (refl, inr (refl, inl refl))
  grant-Counted (nib, result r) key now c = (refl, inr (refl, inr refl))

  register-Counted :
      (w : NibStore ConfigData × NibResult) (event_id key : String) (now : ℕ)
      (c : RegionalController)
      → Counted c (
          register_local p event_key w event_id
            (identity_of p "local" c.region (c.controller_sequence + 1))
            c.region
            key
            now
            (record c { controller_sequence = c.controller_sequence + 1 }))
  register-Counted (nib, r) event_id key now c = elim (Bool-cases r.success) [
    | inl written ↦ rw written (grant-Counted _ key now c)
    | inr lost ↦ rw lost (refl, inr (refl, inl refl))
  ]

  validate-Counted :
      (a : Asked) (c : RegionalController)
      → Counted c (validate_local_controller p event_key a.envelope a.event_id a.now c)
  unfolding validate_local_controller
  validate-Counted a c =
      let r = a.envelope.payload in go r.controller_type r.temp_id r.public_key r.region r.metadata
    where
      stored : Option String → Option ControllerMetadata → NibStore ConfigData × NibResult
      stored key metadata =
          upsert_controller
            (controller_record p (identity_of p "local" c.region (c.controller_sequence + 1))
              "local" c.region (text_or key "") c.controller_id metadata a.now)
            a.now c.nib

      go :
          (role temp_id key region : Option String) (metadata : Option ControllerMetadata)
          → Counted c
              (validate_local p event_key role temp_id key region metadata a.event_id a.now c)
      go role temp_id key region metadata = elim (Bool-cases (is_same role "local")) [
        | inr other ↦ rw other (refl, inl (refl, refl))
        | inl same ↦ elim (Bool-cases (not (is_set temp_id) || not (is_set key))) [
          | inl absent ↦ rw (same, absent) (refl, inl (refl, refl))
          | inr there ↦ elim (Bool-cases (is_same region c.region)) [
            | inr elsewhere ↦ rw (same, there, elsewhere) (refl, inl (refl, refl))
            | inl here ↦
                rw (same, there, here)
                  (register-Counted (stored key metadata) a.event_id (text_or key "") a.now c)
          ]
        ]
      ]

  module _ (apart : TellsApart p) where
    number_apart :
        (region : String) (m n : ℕ)
        → m < n
        → (identity_of p "local" region n == identity_of p "local" region m) ≡ false
    number_apart region m n h =
        elim (Bool-cases (identity_of p "local" region n == identity_of p "local" region m)) [
          | inr other ↦ other
          | inl same ↦
              let equal = identity_of_inj p "local" region n m apart (
                (eq_iff (identity_of p "local" region n) (identity_of p "local" region m)).0
                  same) in
              absurd (omega (arith, h, equal))
        ]

    step_not_given :
        (c c' : RegionalController) (v : Validation) (m : ℕ) (rest : List String)
        → m ≤ c.controller_sequence
        → Counted c (c', v)
        → (m ≤ c'.controller_sequence → elem (identity_of p "local" c'.region m) rest ≡ false)
        → elem (identity_of p "local" c.region m) (given_id v ++ rest) ≡ false
    step_not_given c c' v m rest h (same, inl (stays, empty)) later =
        rw (empty, sym same) (later (omega (arith, h, stays)))
    step_not_given c c' v m rest h (same, inr (counts, inl empty)) later =
        rw (empty, sym same) (later (omega (arith, h, counts)))
    step_not_given c c' v m rest h (same, inr (counts, inr one)) later =
        let k : elem (identity_of p "local" c.region m) rest ≡ false =
          rw (sym same) (later (omega (arith, h, counts))) in
        rw one
          (neither _ _ (number_apart c.region m (c.controller_sequence + 1) (omega (arith, h))) k)

    -- An id whose number is not above the counter is not given any more.
    old_not_given :
        (as' : List Asked) (c : RegionalController) (m : ℕ)
        → m ≤ c.controller_sequence
        → elem (identity_of p "local" c.region m) (given_ids as' c) ≡ false
    unfolding given_ids
    old_not_given [] c m h = refl
    old_not_given (a ∷ as') c m h =
        let x = validate_local_controller p event_key a.envelope a.event_id a.now c in
        step_not_given c x.0 x.1 m (given_ids as' x.0) h (validate-Counted a c)
          (old_not_given as' x.0 m)

    step-Distinct :
        (c c' : RegionalController) (v : Validation) (rest : List String)
        → Counted c (c', v)
        → Distinct rest
        → ((m : ℕ)
            → m ≤ c'.controller_sequence
            → elem (identity_of p "local" c'.region m) rest ≡ false)
        → Distinct (given_id v ++ rest)
    step-Distinct c c' v rest (same, inl (stays, empty)) d later = rw empty d
    step-Distinct c c' v rest (same, inr (counts, inl empty)) d later = rw empty d
    step-Distinct c c' v rest (same, inr (counts, inr one)) d later =
        rw one (rw (sym same) (later (c.controller_sequence + 1) (omega (arith, counts))), d)

    -- No two local controllers get the same id from one regional controller: where different numbers
    -- have different texts, the ids that any sequence of validation requests is given are pairwise
    -- different.
    pub given_ids-Distinct :
        (as' : List Asked) (c : RegionalController) → Distinct (given_ids as' c)
    unfolding given_ids
    given_ids-Distinct [] c = tt
    given_ids-Distinct (a ∷ as') c =
        let x = validate_local_controller p event_key a.envelope a.event_id a.now c in
        step-Distinct c x.0 x.1 (given_ids as' x.0) (validate-Counted a c)
          (given_ids-Distinct as' x.0) (old_not_given as' x.0)

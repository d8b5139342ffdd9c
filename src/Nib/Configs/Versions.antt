-- ===== src/Nib/Configs/Versions.antt =====
-- pdsno/datastore/sqlite_store.py: the config that an update by id and version reaches.
use mathlib.Core.Option
use partially_distributed_sm.Common.{
  Bool, List, Option, String, [], arith, eq_iff, false, find_row, if◌then◌else◌, nat_eq, none, not,
  refl, row_count, some, string_eq, update_rows, ℕ, ◌++◌, ◌==◌, ◌∷◌, ◌≡◌,
}
use partially_distributed_sm.Nib.Models.{Config, ConfigStatus}
use partially_distributed_sm.Nib.Configs.{has_id, has_version, set_status}

module _ {Blob : Type 0} where
  -- The primary key: no two rows have one id.
  abbrev pub HasKeys : List (Config Blob) → Type 0
  HasKeys [] = Unit
  HasKeys (c ∷ rows) = (find_row (has_id c.config_id) rows ≡ none) × HasKeys rows

  pub set_status-id :
      (status : ConfigStatus) (approver token : Option String) (expiry : Option ℕ) (now : ℕ)
      (c : Config Blob)
      → (set_status status approver token expiry now c).config_id ≡ c.config_id
  unfolding set_status
  set_status-id status approver token expiry now c = refl

  pub find-append :
      (id : String) (rows : List (Config Blob)) (c : Config Blob)
      → find_row (has_id id) (rows ++ c ∷ []) ≡ (elim (find_row (has_id id) rows) [
        | none ↦ if has_id id c then some c else none
        | some r ↦ some r
      ])
  find-append id [] c = ground arith
  find-append id (r ∷ rows) c = ground (arith, find-append id rows c)

  pub HasKeys-append :
      (rows : List (Config Blob)) (c : Config Blob)
      → HasKeys rows
      → find_row (has_id c.config_id) rows ≡ none
      → HasKeys (rows ++ c ∷ [])
  HasKeys-append [] c h e = (refl, tt)
  HasKeys-append (r ∷ rows) c h e = ground (
    arith,
    find-append r.config_id rows c,
    eq_iff r.config_id c.config_id,
    eq_iff c.config_id r.config_id,
    HasKeys-append rows c,
  )

  -- Whether a row has the id and the version that a writer read.
  abbrev pub hit : String → ℕ → List (Config Blob) → Bool
  hit id version rows = elim (find_row (has_id id) rows) [
    | none ↦ false
    | some c ↦ c.version == version
  ]

  row_count_absent :
      (id : String) (version : ℕ) (rows : List (Config Blob))
      → find_row (has_id id) rows ≡ none
      → row_count (has_version id version) rows ≡ 0
  row_count_absent id version [] h = refl
  row_count_absent id version (r ∷ rows) h = ground (arith, row_count_absent id version rows)

  pub row_count-hit :
      (id : String) (version : ℕ) (rows : List (Config Blob))
      → HasKeys rows
      → (row_count (has_version id version) rows == 0) ≡ not (hit id version rows)
  row_count-hit id version [] h = refl
  row_count-hit id version (r ∷ rows) h = ground (
    arith,
    eq_iff r.config_id id,
    row_count_absent id version rows,
    row_count-hit id version rows h.1,
  )

  module _ (id : String) (version : ℕ) (f : Config Blob → Config Blob) where
    -- What `UPDATE` does to one row.
    abbrev pub revise : Config Blob → Config Blob
    revise c = if has_version id version c then f c else c

    pub find-update :
        ((c : Config Blob) → (f c).config_id ≡ c.config_id)
        → (j : String) (rows : List (Config Blob))
        → find_row (has_id j) (update_rows (has_version id version) f rows)
          ≡ Option.map revise (find_row (has_id j) rows)
    find-update same j [] = refl
    find-update same j (r ∷ rows) = ground (arith, same r, find-update same j rows)

    pub HasKeys-update :
        ((c : Config Blob) → (f c).config_id ≡ c.config_id)
        → (rows : List (Config Blob)) → HasKeys rows
        → HasKeys (update_rows (has_version id version) f rows)
    HasKeys-update same [] h = tt
    HasKeys-update same (r ∷ rows) h =
        ground (arith, same r, find-update same r.config_id rows, HasKeys-update same rows h.1)

-- ===== src/Nib/Configs.antt =====
-- pdsno/datastore/sqlite_store.py: the config operations, with optimistic locking by a version.
pub mod Versions
pub mod Writes
mod Tests
use partially_distributed_sm.Common.{
  Bool, List, Option, String, [], coalesce, false, find_row, if◌then◌else◌, nat_eq, non_empty, none,
  row_count, some, string_eq, true, update_rows, ℕ, ◌&&◌, ◌++◌, ◌+◌, ◌==◌, ◌∷◌,
}
use partially_distributed_sm.Nib.Models.{
  Config, ConfigStatus, NibResult, already_exists, approved, conflicting, executed, is_present,
  missing, missing_fields, refused, succeeded,
}
use partially_distributed_sm.Nib.Store.{NibStore}

abbrev pub is_approved : ConfigStatus → Bool
is_approved approved = true
is_approved _ = false

abbrev pub is_executed : ConfigStatus → Bool
is_executed executed = true
is_executed _ = false

module _ {Blob : Type 0} where
  -- `WHERE config_id = ?`
  abbrev pub has_id : String → Config Blob → Bool
  has_id id c = c.config_id == id

  -- `WHERE config_id = ? AND version = ?`
  abbrev pub has_version : String → ℕ → Config Blob → Bool
  has_version id version c = c.config_id == id && c.version == version

  unfoldable pub get_config : String → NibStore Blob → Option (Config Blob)
  get_config id s = find_row (has_id id) s.configs

  unfoldable pub required : Config Blob → List String
  required c = missing (
      ("config_id", non_empty c.config_id)
      ∷ ("device_id", non_empty c.device_id)
      ∷ ("proposed_by", is_present c.proposed_by)
      ∷ [])

  -- The row that the `INSERT` writes: the version is 0, whatever the record holds.
  abbrev pub proposal_row : Config Blob → ℕ → Config Blob
  proposal_row c now = record c { proposed_at = coalesce c.proposed_at (some now); version = 0 }

  abbrev pub insert_proposal : Config Blob → NibStore Blob → NibStore Blob × NibResult
  insert_proposal row s = elim (find_row (has_id row.config_id) s.configs) [
    | none ↦ (record s { configs = s.configs ++ row ∷ [] }, succeeded (some row.config_id))
    | some _ ↦ (s, refused (already_exists row.config_id))
  ]

  abbrev pub check_required :
      List String → NibStore Blob × NibResult → NibStore Blob → NibStore Blob × NibResult
  check_required [] outcome s = outcome
  check_required (f ∷ fs) outcome s = (s, refused (missing_fields (f ∷ fs)))

  unfoldable pub create_config_proposal :
      Config Blob → ℕ → NibStore Blob → NibStore Blob × NibResult
  create_config_proposal c now s =
      check_required (required c) (insert_proposal (proposal_row c now) s) s

  -- The `SET` clause of `update_config_status`.
  unfoldable pub set_status :
      ConfigStatus → Option String → Option String → Option ℕ → ℕ → Config Blob → Config Blob
  set_status status approver execution_token expiry now c = record c {
    status = status;
    approved_by = coalesce approver c.approved_by;
    execution_token = coalesce execution_token c.execution_token;
    approved_at = if is_approved status then some now else c.approved_at;
    executed_at = if is_executed status then some now else c.executed_at;
    expiry = coalesce expiry c.expiry;
    version = c.version + 1;
  }

  unfoldable pub update_config_status :
      String
      → ConfigStatus
      → ℕ
      → Option String
      → Option String
      → Option ℕ
      → ℕ
      → NibStore Blob
      → NibStore Blob × NibResult
  update_config_status id status version approver execution_token expiry now s =
      if row_count (has_version id version) s.configs == 0 then (s, conflicting) else (
        record s {
          configs =
              update_rows (has_version id version)
                (set_status status approver execution_token expiry now) s.configs;
        },
        succeeded none,
      )

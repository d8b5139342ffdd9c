-- ===== src/Nib/Controllers.antt =====
-- pdsno/datastore/sqlite_store.py: the identities of controllers.
pub mod Upserts
mod Tests
use partially_distributed_sm.Common.{
  Bool, List, Option, String, [], coalesce, false, filter, find_row, if◌then◌else◌, nat_eq, none,
  row_count, some, string_eq, update_rows, ℕ, ◌&&◌, ◌++◌, ◌+◌, ◌==◌, ◌∷◌,
}
use partially_distributed_sm.Nib.Models.{Controller, NibResult, conflicting, succeeded}
use partially_distributed_sm.Nib.Store.{NibStore}

-- `WHERE controller_id = ?`
abbrev pub has_controller_id : String → Controller → Bool
has_controller_id id c = c.controller_id == id

-- `WHERE controller_id = ? AND version = ?`
abbrev pub has_controller_version : String → ℕ → Controller → Bool
has_controller_version id version c = c.controller_id == id && c.version == version

-- `WHERE region = ? AND status = 'active'`
abbrev pub is_active_in : String → Controller → Bool
is_active_in region c =
    elim c.region [ none ↦ false | some r ↦ r == region ] && c.status == "active"

-- The `SET` clause of `upsert_controller`.
unfoldable pub renew : Controller → Controller → Controller
renew c row = record c { controller_id = row.controller_id; version = row.version + 1 }

module _ {Blob : Type 0} where
  unfoldable pub get_controller : String → NibStore Blob → Option Controller
  get_controller id s = find_row (has_controller_id id) s.controllers

  unfoldable pub get_controllers_by_region : String → NibStore Blob → List Controller
  get_controllers_by_region region s = filter (is_active_in region) s.controllers

  -- The version of a new row is the record's.
  unfoldable pub upsert_controller : Controller → ℕ → NibStore Blob → NibStore Blob × NibResult
  upsert_controller c now s = elim (get_controller c.controller_id s) [
    | none ↦ (
      record s {
        controllers =
            s.controllers ++ record c { validated_at = coalesce c.validated_at (some now) } ∷ [];
      },
      succeeded (some c.controller_id),
    )
    | some existing ↦
        if row_count (has_controller_version c.controller_id c.version) s.controllers == 0
        then (s, conflicting)
        else (
          record s {
            controllers =
                update_rows (has_controller_version c.controller_id c.version) (renew c)
                  s.controllers;
          },
          succeeded (some c.controller_id),
        )
  ]

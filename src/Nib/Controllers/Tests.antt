-- ===== src/Nib/Controllers/Tests.antt =====
-- pdsno/datastore/sqlite_store.py: the table of controllers at concrete inputs.
use partially_distributed_sm.Common.{List, [], nat_eq, none, refl, some, string_eq, ℕ, ◌∷◌, ◌≡◌}
use partially_distributed_sm.Nib.Models.{Controller}
use partially_distributed_sm.Nib.Store.{NibStore, empty_store}
use partially_distributed_sm.Nib.Controllers.{get_controller, renew, upsert_controller}
use partially_distributed_sm.Nib.Controllers.Upserts.{puts, registry, upserts, upserts-puts}

abbrev row : Controller
row = record {
  controller_id = "local_cntl_zone-A_1";
  role = "local";
  region = some "zone-A";
  status = "active";
  validated_by = some "regional_cntl_zone-A_1";
  validated_at = none;
  public_key = some "key";
  certificate = none;
  capabilities = [];
  metadata = record { capabilities = none; entries = [] };
  version = 0;
}

abbrev other_key : Controller
other_key = record row { public_key = some "other" }

-- A record with version 0 replaces the row that was entered first, and then no more.
abbrev calls : List (Controller × ℕ)
calls = (row, 5) ∷ (other_key, 6) ∷ (row, 7) ∷ []

abbrev store : NibStore Unit
store = empty_store

replaced :
    get_controller "local_cntl_zone-A_1" (upserts calls store)
    ≡ some (record other_key { version = 1 })
unfolding upserts upsert_controller get_controller renew
replaced = refl

upserts-puts_example :
    registry (upserts calls store) "local_cntl_zone-A_1"
    ≡ puts calls (registry store) "local_cntl_zone-A_1"
upserts-puts_example = upserts-puts calls store "local_cntl_zone-A_1"

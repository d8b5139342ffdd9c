-- ===== src/Nib/Configs/Tests.antt =====
-- pdsno/datastore/sqlite_store.py: configs at concrete inputs.
use mathlib.Core.Option
use partially_distributed_sm.Common.{
  String, [], false, if◌then◌else◌, nat_eq, none, not, refl, some, string_eq, true, ◌&&◌, ◌+◌, ◌==◌,
  ◌∷◌, ◌≡◌,
}
use partially_distributed_sm.Nib.Store.{NibStore, empty_store}
use partially_distributed_sm.Nib.Configs.{get_config, update_config_status}
use partially_distributed_sm.Nib.Configs.Versions.{HasKeys, hit}
use partially_distributed_sm.Nib.Configs.Writes.{
  update_config_status_outcome, update_config_status_stale,
}
use partially_distributed_sm.Nib.Models.{Config, ConfigStatus, ConfigCategory, conflicting}

abbrev config : Config Unit
config = record {
  config_id = "c1";
  device_id = "sw";
  config_hash = "";
  category = ConfigCategory.medium;
  status = ConfigStatus.pending;
  proposed_by = some "lc";
  approved_by = none;
  execution_token = none;
  proposed_at = some 1;
  approved_at = none;
  executed_at = none;
  expiry = none;
  policy_version = none;
  rollback_payload = none;
  config_data = none;
  reason = none;
  version = 0;
}

abbrev stored : NibStore Unit
stored = record empty_store { configs = config ∷ [] }

stored-HasKeys : HasKeys stored.configs
stored-HasKeys = (refl, tt)

update_config_status_outcome_example :
    let (s', r) =
      update_config_status "c1" ConfigStatus.approved 0 (some "rc") none none 5 stored in
    let matched = hit "c1" 0 stored.configs in
    (r.success ≡ matched)
    × (r.conflict ≡ not matched)
    × HasKeys s'.configs
    × (matched ≡ false → s' ≡ stored)
    × (matched ≡ true
        → (j : String)
        → get_config j s'
          ≡ Option.map
              (λ (c : Config Unit).
                if c.config_id == "c1" && c.version == 0
                then record c {
                  status = ConfigStatus.approved;
                  approved_by = some "rc";
                  approved_at = some 5;
                  version = c.version + 1;
                }
                else c)
              (get_config j stored))
update_config_status_outcome_example =
    update_config_status_outcome "c1" ConfigStatus.approved 0 (some "rc") none none 5 stored
      stored-HasKeys

first_succeeds :
    (update_config_status "c1" ConfigStatus.approved 0 (some "rc") none none 5 stored).1.success
    ≡ true
unfolding update_config_status
first_succeeds = refl

update_config_status_stale_example :
    let s' = (update_config_status "c1" ConfigStatus.approved 0 (some "rc") none none 5 stored).0 in
    update_config_status "c1" ConfigStatus.denied 0 (some "gc") none none 6 s' ≡ (s', conflicting)
update_config_status_stale_example =
    update_config_status_stale "c1" 0 stored ConfigStatus.approved ConfigStatus.denied (some "rc")
      none (some "gc") none none none 5 6 stored-HasKeys first_succeeds

abbrev other : Config Unit
other = record config { config_id = "c2"; version = 7 }

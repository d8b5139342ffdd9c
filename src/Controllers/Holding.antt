-- ===== src/Controllers/Holding.antt =====
-- pdsno/controllers: the store that a controller shares with its approval engine. Both hold a
-- reference to one object: the controller's field is what the engine reads and writes.
use partially_distributed_sm.Common.{Option, String, nat_eq, none, some, string_eq, ℕ}
use partially_distributed_sm.Nib.Models.{Config, ConfigStatus}
use partially_distributed_sm.Nib.Store.{NibStore}
use partially_distributed_sm.Nib.Configs.{get_config, update_config_status}
use partially_distributed_sm.Config.Approval.Engine.{ConfigData, Engine}

abbrev pub with_nib : NibStore ConfigData → Engine → Engine
with_nib nib e = record e { nib_store = some nib }

abbrev pub nib_of : NibStore ConfigData → Engine → NibStore ConfigData
nib_of nib e = elim e.nib_store [ none ↦ nib | some written ↦ written ]

-- The row of a config, if there is one, is updated at the version that was read.
abbrev pub set_read_status :
    String
    → ConfigStatus
    → Option String
    → Option String
    → Option ℕ
    → ℕ
    → Option (Config ConfigData)
    → NibStore ConfigData
    → NibStore ConfigData
set_read_status id status approver token expiry now none nib = nib
set_read_status id status approver token expiry now (some c) nib =
    (update_config_status id status c.version approver token expiry now nib).0

unfoldable pub set_config_status :
    String
    → ConfigStatus
    → Option String
    → Option String
    → Option ℕ
    → ℕ
    → NibStore ConfigData
    → NibStore ConfigData
set_config_status id status approver token expiry now nib =
    set_read_status id status approver token expiry now (get_config id nib) nib

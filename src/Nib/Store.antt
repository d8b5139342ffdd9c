-- ===== src/Nib/Store.antt =====
-- pdsno/datastore/sqlite_store.py: the tables of `NIBStore`. A row of a table is a record; the
-- primary keys are enforced by the operations, as SQLite does. The foreign key from configs to
-- devices is not enforced: the pragma that switches it on is issued on one connection, and every
-- method opens its own.
use partially_distributed_sm.Common.{List, []}
use partially_distributed_sm.Nib.Models.{Config, Controller, Device, Event, Lock, Policy}

pub record NibStore (Blob : Type 0) : Type 0 where
  pub devices : List Device
  pub configs : List (Config Blob)
  pub locks : List Lock
  pub controllers : List Controller
  pub events : List Event
  pub policies : List Policy

abbrev pub empty_store : {Blob : Type 0} → NibStore Blob
empty_store = record {
  devices = [];
  configs = [];
  locks = [];
  controllers = [];
  events = [];
  policies = [];
}

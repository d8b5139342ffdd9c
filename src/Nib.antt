-- ===== src/Nib.antt =====
-- The package pdsno/datastore: the network information base, an SQLite store of devices,
-- configurations, events, locks and controllers.
pub mod Models
pub mod Store
pub mod Configs
pub mod Locks
pub mod Devices
pub mod Controllers
pub mod Events
pub mod Policies

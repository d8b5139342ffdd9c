-- ===== src/Config.antt =====
-- The package pdsno/config: the life of a configuration change.
pub mod Lifecycle
pub mod Token
pub mod Sensitivity
pub mod Approval

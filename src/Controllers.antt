-- ===== src/Controllers.antt =====
-- The package pdsno/controllers: the global, regional and local controllers.
pub mod Messages
pub mod Holding
pub mod Secrets
pub mod Registration
pub mod Local
pub mod Regional
pub mod Handshake
pub mod Flow
pub mod Global

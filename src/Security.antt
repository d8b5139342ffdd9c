-- ===== src/Security.antt =====
-- pdsno/security: who may do what, and what a message must carry to be believed.
pub mod Rbac
pub mod MessageAuth

-- ===== src/Security/Rbac.antt =====
-- pdsno/security/rbac.py: the roles, what each of them permits, and the manager that answers.
pub mod Roles
pub mod Manager
pub mod Matrix
pub mod Granted
pub mod Agreement
mod Tests

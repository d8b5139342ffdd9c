-- ===== src/Config/Approval.antt =====
-- pdsno/config/approval_engine.py: the approval workflow.
pub mod Request
pub mod Engine
pub mod Sharing
pub mod Decisions
pub mod Soundness
mod Tests

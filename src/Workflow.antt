-- ===== src/Workflow.antt =====
-- The settlement workflow contract: contracts/settlement-workflow/src/lib.rs.
pub mod Storage
pub mod Guards
pub mod Admin
pub mod Gate
pub mod Emergency
pub mod Machine

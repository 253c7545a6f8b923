-- ===== src/Compliance.antt =====
-- The compliance contract (contracts/compliance/src/lib.rs).
pub mod Types
pub mod Storage
pub mod Guards
pub mod Decision
pub mod Listing
pub mod Sweep
pub mod Roles
pub mod Index
pub mod Keeping
pub mod Machine
pub mod Permissions
pub mod Histories

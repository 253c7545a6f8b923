-- ===== src/Treasury/Lifecycle/Unrelated.antt =====
-- The entrypoints that do not touch a settlement.
pub mod Deposits
pub mod Signers
pub mod Admin
pub mod Timelock

-- ===== src/Invoice.antt =====
-- The invoice contract: contracts/invoice/src.
pub mod Types
pub mod Storage
pub mod Guards
pub mod Refunds
pub mod Lifecycle
pub mod Payouts
pub mod Admin
pub mod Templates
pub mod Creating
pub mod Batches
pub mod Machine

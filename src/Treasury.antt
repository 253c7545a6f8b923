-- ===== src/Treasury.antt =====
-- The treasury contract (contracts/treasury/src).
pub mod Guards
pub mod Proposals
pub mod Execution
pub mod Closing
pub mod Holds
pub mod Views
pub mod Disputes
pub mod Deposits
pub mod Signers
pub mod Admin
pub mod Timelock
pub mod Lifecycle
pub mod Machine
pub mod Payments
pub mod PendingIndex

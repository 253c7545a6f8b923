-- ===== src/Lib.antt =====
-- The COMEBACKHERE contracts, four Soroban contracts: the treasury keeps deposits and pays merchants
-- by settlements which weighted signers approve and parties may dispute; the compliance contract says
-- which addresses are allowed; the settlement workflow pays a settlement only for a merchant that
-- compliance allows, and pauses the other contracts in an emergency; and the invoice contract records
-- what a payer owes a merchant, and refunds it. Modelled are contracts/treasury, contracts/compliance,
-- contracts/settlement-workflow and the life of an invoice in contracts/invoice, and the crates they are
-- built on: crates/multisig (storage types and quorum), crates/protocol-math (basis points), the part of
-- crates/compliance-client that they call, and the error types.
--
-- An entrypoint is a function of the environment `Env` and of its arguments into a `Call`: it takes
-- the storage and gives a value with the new storage, or a failure. A failed invocation leaves no
-- trace, as on the host. `Result::Err`, `panic_with_error!` and a failed `?` are `error e` (with
-- `compliance_error`, `workflow_error` and `invoice_error` for the errors of the other contracts); an untyped panic or
-- an overflow check is `panicked`; a missing signature is `unauthenticated`.
--
--   Prelude, Prelude/*     Boolean tests, lists, maps and signed integers over the native numbers
--   Errors, Host           the error enum and the host: `Env`, `Call`, guards, `Ensures`
--   Math, Math/Split       crates/protocol-math/src/lib.rs: `apply_bps_i128`, `split_bps_i128`
--   Multisig               crates/multisig/src/lib.rs: the quorum functions, under their names
--   Multisig/Types         its structs and enums; Multisig/Storage: `DataKey` as the record `State`
--   Multisig/Approvals     laws of recording and revoking an approval
--   Treasury/Guards        contracts/treasury/src/lib.rs: `initialize`, guards, `write_settlement`
--   Treasury/Proposals     settlements.rs: proposing, approving, revoking, also in batches
--   Treasury/Execution     settlements.rs: paying, in part, in whole and in batches
--   Treasury/Closing       settlements.rs: cancelling and expiring
--   Treasury/Views         settlements.rs: the pages of settlements
--   Treasury/Holds         holds.rs
--   Treasury/Disputes      disputes.rs
--   Treasury/Deposits      deposits.rs, with `record_deposit_reference` of lib.rs
--   Treasury/Signers       signers.rs
--   Treasury/Admin         admin.rs, and the token allowlist and payout addresses of settlements.rs
--   Treasury/Timelock      timelock.rs
--   Treasury/Lifecycle     how one call may change a stored settlement, entrypoint by entrypoint
--   Treasury/Machine       all entrypoints that change state as one data type `Op`, and runs of them
--   Treasury/Payments      the conditions of a payment, stated apart from the order of the tests
--   Treasury/PendingIndex  the index of the pending settlements
--   Compliance/Guards      contracts/compliance/src/lib.rs: guards, cooldowns, the log of an address
--                          and the paged index of the tracked addresses
--   Compliance/Decision    its decisions on an address: `is_allowed_at` and the batch reads
--   Compliance/Listing     allowing, blocking and clearing; Compliance/Sweep: `sweep_expired`
--   Compliance/Roles       initialization, the roles, pausing, tiers and the blocklist root
--   Compliance/Storage     its `DataKey` as the record `State`; Compliance/Types: its types
--   Compliance/Index, Keeping, Machine, Permissions, Histories
--                          the index as one list, the invariant, all entrypoints as one data type,
--                          who may call them, and runs of them
--   Workflow/Storage       contracts/settlement-workflow/src/lib.rs: its `DataKey`, and the clients of
--                          the other contracts as the record `Contracts`
--   Workflow/Guards, Admin its guards, constructor, handover and circuit breaker
--   Workflow/Gate          `execute_with_compliance` and its batch
--   Workflow/Emergency     the emergency pause: its configuration and both sweeps
--   Workflow/Machine       its entrypoints as one data type, and the states it comes to
--   Protocol, Protocol/*   the three contracts together: `Contracts` by the models of the other two
--   Invoice/Types, Storage contracts/invoice/src/invoice.rs: its types and `DataKey`
--   Invoice/Guards         validation.rs, and the writers of the indexes and the history of lib.rs
--   Invoice/Lifecycle      entrypoints/lifecycle.rs and entrypoints/transfer.rs
--   Invoice/Refunds        refund.rs: the refund rules and the fees; Invoice/Payouts: entrypoints/refund.rs
--   Invoice/Batches        entrypoints/batch.rs: expiring and cancelling many invoices;
--                          Invoice/Creating: creating many
--   Invoice/Admin          entrypoints/admin.rs: initialization, settings, pausing, `extend_expiry`
--   Invoice/Templates      entrypoints/template.rs, with template.rs in Invoice/Types
--   Invoice/Machine        these entrypoints but `initialize` as one data type, one call, and runs
--   Tests, Tests/*         the theorems at concrete inputs
--
-- An `Address` is only compared and is a number. `u32` and `u64` are numbers, with the overflow that
-- the checked operations report written out (`2 ^ 32`, `2 ^ 64`); `i128` is an integer with the bounds
-- of `checked_add` and the like. Times and counts are not bounded otherwise. The loops are structural:
-- over the list that the code iterates over, or, for `while i <= count`, over the number of rounds that
-- are left, which is the count. The loop that advances the schedule of a template, `advance`, gets one round
-- more than the present time, which is enough, as `advance_passes` proves.
--
-- A storage key that is always read with the same default holds that default while it is absent. What
-- one call reads of the world is in `Env`: the clock, who has signed, the token contracts and the
-- compliance contract, the latter as a function that Protocol fills with its model. The token contracts keep a state of their own, `L`, which is a parameter and
-- which only a transfer changes: the host does not let a contract be called again while it runs. Every
-- call of a run has its own environment.
--
-- Not modelled: the time to live of storage entries; the plain getters; the snapshot export and the
-- Merkle proof of contracts/compliance, whose hash is a function of the host; of contracts/invoice the
-- open-invoice limits and the late fee; crates/protocol-errors, which serves clients
-- outside the contracts; the macro crate; tests, fuzz targets and scripts.
pub mod Prelude
pub mod Errors
pub mod Host
pub mod Math
pub mod Multisig
pub mod Treasury
pub mod Compliance
pub mod Workflow
pub mod Invoice
pub mod Protocol
pub mod Tests

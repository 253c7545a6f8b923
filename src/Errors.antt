-- ===== src/Errors.antt =====
-- `TreasuryError` of crates/multisig/src/lib.rs, in the order of its discriminants, and the ways in
-- which a contract call fails. A typed error that an entrypoint returns and one that it panics with
-- both end the invocation with that error; the host then drops all that the invocation wrote.
pub mod Compliance
pub mod Workflow
pub mod Invoice
use Compliance.{ComplianceError}
use Workflow.{WorkflowError}
use Invoice.{InvoiceError}

pub data TreasuryError : Type 0 where
  already_initialized zero_threshold settlement_not_found already_executed : TreasuryError
  threshold_not_met threshold_not_configured invalid_amount contract_paused : TreasuryError
  unauthorized unauthorized_signer invalid_token_contract token_not_allowed : TreasuryError
  rotation_not_found rotation_already_executed settlement_on_hold : TreasuryError
  dispute_not_expired already_on_hold threshold_unreachable : TreasuryError
  compliance_check_failed arithmetic_overflow dispute_not_found : TreasuryError
  dispute_already_resolved resolution_direction_mismatch batch_too_large : TreasuryError
  weight_overflow settlement_not_cancellable ttl_not_elapsed allowlist_full : TreasuryError
  not_on_hold destination_not_allowed insufficient_balance not_paused : TreasuryError
  rotation_proposal_cooldown workflow_not_registered_signer : TreasuryError
  withdrawal_limit_exceeded invalid_split_ratio force_cancel_not_allowed : TreasuryError
  signer_change_too_early signer_change_not_found signer_change_already_finalised : TreasuryError
  execution_deadline_exceeded quorum_break token_has_pending_settlements : TreasuryError
  approval_not_found duplicate_vote no_pending_admin label_too_long : TreasuryError
  invalid_timelock_delay duplicate_reference_id token_has_balance : TreasuryError

pub data Failure : Type 0 where
  -- a typed error of a contract
  error : TreasuryError → Failure
  compliance_error : ComplianceError → Failure
  workflow_error : WorkflowError → Failure
  invoice_error : InvoiceError → Failure
  -- `require_auth` of an address that did not sign the invocation
  unauthenticated : Failure
  -- any other trap: an untyped panic, an overflow check, a failed call of another contract
  panicked : Failure

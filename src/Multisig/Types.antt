-- ===== src/Multisig/Types.antt =====
-- The records and enums of crates/multisig/src/lib.rs. An `Address` is only compared, so it is a
-- number; `u32` and `u64` are numbers, `i128` is an integer; bytes are lists of numbers.
use comebackhere_contracts.Prelude.{ℕ, Bool, true, false, Option, List, ◌==◌}
use comebackhere_contracts.Prelude.Int.{ℤ}

pub data SettlementHoldReason : Type 0 where
  none compliance_review fraud_check kyc_pending admin_hold : SettlementHoldReason

pub data SettlementStatus : Type 0 where
  pending executed partially_settled partially_executed on_hold cancelled expired : SettlementStatus

pub data DisputeStatus : Type 0 where
  raised resolved_claimant resolved_counterparty expired resolved_split : DisputeStatus

pub data MaybeAddress : Type 0 where
  none : MaybeAddress
  some : ℕ → MaybeAddress

pub record Settlement : Type 0 where
  pub id : ℕ
  pub merchant_address : ℕ
  pub amount : ℤ
  pub approvals : List ℕ
  pub approval_weight : ℕ
  pub status : SettlementStatus
  pub hold_reason : SettlementHoldReason
  pub proposed_at : ℕ
  pub execution_deadline : ℕ
  pub token : MaybeAddress

pub record Dispute : Type 0 where
  pub id : ℕ
  pub settlement_id : ℕ
  pub claimant : ℕ
  pub counterparty : ℕ
  pub amount : ℤ
  pub status : DisputeStatus
  pub resolution_approvals : List ℕ
  pub resolution_weight : ℕ
  pub resolution_for_claimant : Bool
  pub dispute_expires_at : ℕ
  pub claimant_share_bps : ℕ
  pub evidence_hash : Option (List ℕ)
  pub resolution_memo : Option (List ℕ)

pub data RotationStatus : Type 0 where
  pending executed cancelled : RotationStatus

pub record SignerRotationProposal : Type 0 where
  pub id : ℕ
  pub old_signer : ℕ
  pub new_signer : ℕ
  pub approvals : List ℕ
  pub approval_weight : ℕ
  pub status : RotationStatus
  pub captured_old_weight : ℕ

pub data SignerChangeKind : Type 0 where
  set_signer : ℕ → ℕ → SignerChangeKind
  remove_signer : ℕ → SignerChangeKind
  update_threshold : ℕ → SignerChangeKind
  update_timelock_delay : ℕ → SignerChangeKind

pub data SignerChangeStatus : Type 0 where
  pending executed cancelled : SignerChangeStatus

pub record SignerChangeProposal : Type 0 where
  pub id : ℕ
  pub kind : SignerChangeKind
  pub proposed_at : ℕ
  pub executable_at : ℕ
  pub status : SignerChangeStatus

pub record ApprovalExpiry : Type 0 where
  pub signer : ℕ
  pub approved_at : ℕ
  pub expires_at : ℕ

-- The derived equality, as far as the code compares with a fixed status.
abbrev pub is_pending : SettlementStatus → Bool
is_pending SettlementStatus.pending = true
is_pending _ = false

abbrev pub is_on_hold : SettlementStatus → Bool
is_on_hold SettlementStatus.on_hold = true
is_on_hold _ = false

abbrev pub is_raised : DisputeStatus → Bool
is_raised DisputeStatus.raised = true
is_raised _ = false

abbrev pub is_pending_rotation : RotationStatus → Bool
is_pending_rotation RotationStatus.pending = true
is_pending_rotation _ = false

abbrev pub is_pending_change : SignerChangeStatus → Bool
is_pending_change SignerChangeStatus.pending = true
is_pending_change _ = false

abbrev pub same_token : MaybeAddress → MaybeAddress → Bool
same_token MaybeAddress.none MaybeAddress.none = true
same_token (MaybeAddress.some a) (MaybeAddress.some b) = a == b
same_token _ _ = false

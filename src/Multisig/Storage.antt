-- ===== src/Multisig/Storage.antt =====
-- The storage of the treasury contract: one field for each `DataKey` of crates/multisig/src/lib.rs.
-- A key that every reader reads with the same default (`unwrap_or(0)`, an empty `Vec`) holds that
-- default while it is absent; the other keys are `Option` or `Map`.
use comebackhere_contracts.Prelude.{ℕ, Bool, Option, List, Map}
use comebackhere_contracts.Prelude.Int.{ℤ}
use comebackhere_contracts.Multisig.Types.{
  Settlement, Dispute, SettlementHoldReason, SignerRotationProposal, SignerChangeProposal,
}

-- The published events, with their topics' arguments and their data.
pub data Event : Type 0 where
  treasury_initialized treasury_paused treasury_unpaused treasury_drained : ℕ → Event
  settlement_proposed settlement_approved settlement_partial_approved : ℕ → Settlement → Event
  settlement_executed settlement_partial_executed settlement_cancelled : ℕ → Settlement → Event
  settlement_expired settlement_released : ℕ → Settlement → Event
  settlement_approval_revoked settlement_force_cancelled : ℕ → ℕ → Settlement → Event
  settlement_held : ℕ → SettlementHoldReason → Option ℕ → Event
  merchant_payout_updated : ℕ → ℕ → Event
  token_allowed token_removed : ℕ → Event
  deposit : ℕ → ℤ → Option (List ℕ) → Event
  withdraw emergency_withdraw : ℕ → ℤ → Event
  dispute_raised dispute_expired dispute_resolved : ℕ → Dispute → Event
  dispute_resolved_split dispute_resolution_voted : ℕ → Dispute → Event
  threshold_updated settlement_expiry_updated compliance_id_set : ℕ → Event
  withdrawal_limit_set : ℤ → ℕ → Event
  admin_transfer_proposed : ℕ → ℕ → Event
  admin_transferred admin_transfer_cancelled signer_removed : ℕ → Event
  signer_weight_set : ℕ → ℕ → Event
  signer_label_set : ℕ → List ℕ → Event
  rotation_proposed rotation_executed : ℕ → SignerRotationProposal → Event
  rotation_approved rotation_cancelled : ℕ → SignerRotationProposal → Event
  signer_change_proposed signer_change_executed : ℕ → SignerChangeProposal → Event
  signer_change_cancelled : ℕ → SignerChangeProposal → Event

pub record State (L : Type 0) : Type 0 where
  pub admin : Option ℕ
  pub threshold : Option ℕ
  pub settlement_count : ℕ
  pub settlement : Map Settlement
  pub signer : Map ℕ
  pub paused : Bool
  pub dispute_count : ℕ
  pub dispute : Map Dispute
  -- holder, then token contract
  pub balance : ℕ → ℕ → ℤ
  pub token_allowlist : List ℕ
  pub rotation_count : ℕ
  pub signer_rotation : Map SignerRotationProposal
  pub merchant_payout_address : Map ℕ
  pub signer_list : List ℕ
  pub withdrawal_allowlist : List ℕ
  pub last_rotation_proposal : Map ℕ
  pub partial_approved_total : ℕ → ℤ
  pub merchant_settlements : ℕ → List ℕ
  pub withdrawal_limit_per_window : ℤ
  pub withdrawal_window_secs : ℕ
  pub withdrawal_window_start : ℕ → ℕ
  pub withdrawn_in_window : ℕ → ℤ
  pub signer_change_count : ℕ
  pub signer_change : Map SignerChangeProposal
  pub partial_executed_total : ℕ → ℤ
  pub payout_address_history : ℕ → List (ℕ × ℕ)
  pub hold_expiry : Map ℕ
  pub pending_admin : Option (ℕ × ℕ)
  pub token_total : ℕ → ℤ
  -- whether a reference id was seen within its time to live
  pub deposit_ref : List ℕ → Bool
  pub signer_last_active : Map ℕ
  pub pending_settlement_index : List ℕ
  pub compliance_id : Option ℕ
  pub settlement_expiry_secs : Option ℕ
  pub signer_label : ℕ → Option (List ℕ)
  pub settlement_disputes : ℕ → List ℕ
  pub timelock_delay_secs : Option ℕ
  -- what was published, the newest event first
  pub events : List Event
  -- the state of the token contracts
  pub ledger : L

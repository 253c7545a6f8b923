-- ===== src/Treasury/Machine.antt =====
-- The treasury contract as one machine: an entrypoint's call with its arguments, its effect, and
-- sequences of calls. A call that fails leaves the storage as it was. `initialize` comes before
-- all of these calls.
pub mod Keeping
pub mod Histories
pub mod Once
pub mod Indexing
use comebackhere_contracts.Prelude.{ℕ, Bool, false, Option, none, List, [], ◌∷◌}
use comebackhere_contracts.Prelude.Int.{ℤ, pos}
use comebackhere_contracts.Host.{Env, Call, Result, ok, err, ◌>>=◌, ◌>>◌, pure}
use comebackhere_contracts.Multisig.Types.{MaybeAddress, SettlementHoldReason, SignerChangeKind}
use comebackhere_contracts.Multisig.Storage.{State}
use comebackhere_contracts.Treasury.Proposals
use comebackhere_contracts.Treasury.Execution
use comebackhere_contracts.Treasury.Closing
use comebackhere_contracts.Treasury.Holds
use comebackhere_contracts.Treasury.Disputes
use comebackhere_contracts.Treasury.Deposits
use comebackhere_contracts.Treasury.Signers
use comebackhere_contracts.Treasury.Admin
use comebackhere_contracts.Treasury.Timelock

-- `propose` stands for `propose_settlement`, `propose_partial_settlement` and
-- `propose_settlement_with_token`, which call it.
pub data Op : Type 0 where
  propose : ℕ → ℕ → ℤ → MaybeAddress → ℕ → Op
  approve_settlement : ℕ → ℕ → Op
  revoke_approval : ℕ → ℕ → Op
  batch_approve_settlements : ℕ → List ℕ → Op
  approve_partial_settlement : ℕ → ℕ → ℤ → Op
  execute_settlement : ℕ → ℕ → ℕ → Op
  batch_execute_settlements : ℕ → List ℕ → ℕ → Op
  partially_execute_settlement : ℕ → ℕ → ℤ → ℕ → Op
  cancel_settlement : ℕ → ℕ → Op
  batch_cancel_settlements : ℕ → List ℕ → Op
  force_cancel_settlement : ℕ → ℕ → Op
  expire_settlement : ℕ → ℕ → Op
  hold_settlement : ℕ → ℕ → SettlementHoldReason → Option ℕ → Op
  release_hold : ℕ → ℕ → Op
  raise_dispute : ℕ → ℕ → ℕ → ℤ → ℕ → Option (List ℕ) → Op
  expire_dispute : ℕ → ℕ → Op
  resolve_dispute : ℕ → ℕ → Bool → Option (List ℕ) → Op
  resolve_dispute_split : ℕ → ℕ → ℕ → ℕ → Option (List ℕ) → Op
  vote_dispute_resolution : ℕ → ℕ → Bool → Op
  deposit : ℕ → ℕ → ℤ → Option (List ℕ) → Op
  batch_deposit : ℕ → List (ℕ × ℤ) → Option (List ℕ) → Op
  withdraw : ℕ → ℕ → ℤ → Op
  withdraw_all : ℕ → ℕ → ℕ → Op
  emergency_withdraw : List ℕ → ℕ → ℕ → Op
  set_signer : ℕ → ℕ → ℕ → Op
  set_signer_label : ℕ → ℕ → List ℕ → Op
  remove_signer : ℕ → ℕ → Op
  propose_signer_rotation : ℕ → ℕ → ℕ → Op
  approve_signer_rotation : ℕ → ℕ → Op
  cancel_rotation : ℕ → ℕ → Op
  update_threshold : ℕ → ℕ → Op
  pause : ℕ → Op
  unpause : ℕ → Op
  set_withdrawal_limit : ℕ → ℤ → ℕ → Op
  set_settlement_expiry : ℕ → ℕ → Op
  set_compliance_id : ℕ → ℕ → Op
  transfer_admin : ℕ → ℕ → ℕ → Op
  accept_admin : ℕ → Op
  cancel_transfer_admin : ℕ → Op
  update_merchant_payout_address : ℕ → ℕ → Op
  add_allowed_token : ℕ → ℕ → Op
  remove_allowed_token : ℕ → ℕ → Op
  propose_signer_change : ℕ → SignerChangeKind → Op
  execute_signer_change : ℕ → ℕ → Op
  cancel_signer_change : ℕ → ℕ → Op

module _ {L : Type 0} where
  unfoldable pub call : Env L → Op → Call (State L) (Unit {0})
  call e (Op.propose signer merchant amount token deadline) =
      Proposals.propose e signer merchant amount token deadline >> pure tt
  call e (Op.approve_settlement signer id) = Proposals.approve_settlement e signer id >> pure tt
  call e (Op.revoke_approval signer id) = Proposals.revoke_approval e signer id >> pure tt
  call e (Op.batch_approve_settlements signer ids) =
      Proposals.batch_approve_settlements e signer ids >> pure tt
  call e (Op.approve_partial_settlement signer id amount) =
      Proposals.approve_partial_settlement e signer id amount >> pure tt
  call e (Op.execute_settlement signer id token) =
      Execution.execute_settlement e signer id token >> pure tt
  call e (Op.batch_execute_settlements signer ids token) =
      Execution.batch_execute_settlements e signer ids token >> pure tt
  call e (Op.partially_execute_settlement signer id amount token) =
      Execution.partially_execute_settlement e signer id amount token >> pure tt
  call e (Op.cancel_settlement signer id) = Closing.cancel_settlement e signer id >> pure tt
  call e (Op.batch_cancel_settlements admin ids) =
      Closing.batch_cancel_settlements e admin ids >> pure tt
  call e (Op.force_cancel_settlement admin id) =
      Closing.force_cancel_settlement e admin id >> pure tt
  call e (Op.expire_settlement admin id) = Closing.expire_settlement e admin id >> pure tt
  call e (Op.hold_settlement admin id reason expires_at) =
      Holds.hold_settlement e admin id reason expires_at >> pure tt
  call e (Op.release_hold admin id) = Holds.release_hold e admin id >> pure tt
  call e (Op.raise_dispute claimant id counterparty amount expires_at evidence) =
      Disputes.raise_dispute e claimant id counterparty amount expires_at evidence >> pure tt
  call e (Op.expire_dispute admin id) = Disputes.expire_dispute e admin id >> pure tt
  call e (Op.resolve_dispute admin id in_favor_of_claimant memo) =
      Disputes.resolve_dispute e admin id in_favor_of_claimant memo >> pure tt
  call e (Op.resolve_dispute_split admin id claimant_bps token memo) =
      Disputes.resolve_dispute_split e admin id claimant_bps token memo >> pure tt
  call e (Op.vote_dispute_resolution signer id in_favor_of_claimant) =
      Disputes.vote_dispute_resolution e signer id in_favor_of_claimant >> pure tt
  call e (Op.deposit from token amount reference) =
      Deposits.deposit e from token amount reference >> pure tt
  call e (Op.batch_deposit from deposits reference) =
      Deposits.batch_deposit e from deposits reference >> pure tt
  call e (Op.withdraw to token amount) = Deposits.withdraw e to token amount >> pure tt
  call e (Op.withdraw_all admin token recipient) =
      Deposits.withdraw_all e admin token recipient >> pure tt
  call e (Op.emergency_withdraw signers token recovery) =
      Deposits.emergency_withdraw e signers token recovery >> pure tt
  call e (Op.set_signer admin signer weight) = Signers.set_signer e admin signer weight >> pure tt
  call e (Op.set_signer_label admin signer label) =
      Signers.set_signer_label e admin signer label >> pure tt
  call e (Op.remove_signer admin signer) = Signers.remove_signer e admin signer >> pure tt
  call e (Op.propose_signer_rotation proposer old_signer new_signer) =
      Signers.propose_signer_rotation e proposer old_signer new_signer >> pure tt
  call e (Op.approve_signer_rotation approver id) =
      Signers.approve_signer_rotation e approver id >> pure tt
  call e (Op.cancel_rotation admin id) = Signers.cancel_rotation e admin id >> pure tt
  call e (Op.update_threshold admin new_threshold) =
      Admin.update_threshold e admin new_threshold >> pure tt
  call e (Op.pause admin) = Admin.pause e admin >> pure tt
  call e (Op.unpause admin) = Admin.unpause e admin >> pure tt
  call e (Op.set_withdrawal_limit admin limit window_secs) =
      Admin.set_withdrawal_limit e admin limit window_secs >> pure tt
  call e (Op.set_settlement_expiry admin expiry_secs) =
      Admin.set_settlement_expiry e admin expiry_secs >> pure tt
  call e (Op.set_compliance_id admin compliance_id) =
      Admin.set_compliance_id e admin compliance_id >> pure tt
  call e (Op.transfer_admin admin new_admin expiry_secs) =
      Admin.transfer_admin e admin new_admin expiry_secs >> pure tt
  call e (Op.accept_admin new_admin) = Admin.accept_admin e new_admin >> pure tt
  call e (Op.cancel_transfer_admin admin) = Admin.cancel_transfer_admin e admin >> pure tt
  call e (Op.update_merchant_payout_address merchant payout) =
      Admin.update_merchant_payout_address e merchant payout >> pure tt
  call e (Op.add_allowed_token admin token) = Admin.add_allowed_token e admin token >> pure tt
  call e (Op.remove_allowed_token admin token) = Admin.remove_allowed_token e admin token >> pure tt
  call e (Op.propose_signer_change admin kind) =
      Timelock.propose_signer_change e admin kind >> pure tt
  call e (Op.execute_signer_change admin id) = Timelock.execute_signer_change e admin id >> pure tt
  call e (Op.cancel_signer_change admin id) = Timelock.cancel_signer_change e admin id >> pure tt

  abbrev after : State L → Result (Unit {0} × State L) → State L
  after s (ok r) = r.1
  after s (err e) = s

  unfoldable pub step : Env L → Op → State L → State L
  unfolding call
  step e op s = after s (call e op s)

  -- Each call comes with its own clock, signatures and answers of the other contracts.
  unfoldable pub run : List (Env L × Op) → State L → State L
  run [] s = s
  run ((e, op) ∷ rest) s = run rest (step e op s)

-- The storage of a contract that was just deployed, and the state of the token contracts.
unfoldable pub deployed : {L : Type 0} → L → State L
deployed ledger = record {
  admin = none;
  threshold = none;
  settlement_count = 0;
  settlement = λ _. none;
  signer = λ _. none;
  paused = false;
  dispute_count = 0;
  dispute = λ _. none;
  balance = λ _ _. pos 0;
  token_allowlist = [];
  rotation_count = 0;
  signer_rotation = λ _. none;
  merchant_payout_address = λ _. none;
  signer_list = [];
  withdrawal_allowlist = [];
  last_rotation_proposal = λ _. none;
  partial_approved_total = λ _. pos 0;
  merchant_settlements = λ _. [];
  withdrawal_limit_per_window = pos 0;
  withdrawal_window_secs = 0;
  withdrawal_window_start = λ _. 0;
  withdrawn_in_window = λ _. pos 0;
  signer_change_count = 0;
  signer_change = λ _. none;
  partial_executed_total = λ _. pos 0;
  payout_address_history = λ _. [];
  hold_expiry = λ _. none;
  pending_admin = none;
  token_total = λ _. pos 0;
  deposit_ref = λ _. false;
  signer_last_active = λ _. none;
  pending_settlement_index = [];
  compliance_id = none;
  settlement_expiry_secs = none;
  signer_label = λ _. none;
  settlement_disputes = λ _. [];
  timelock_delay_secs = none;
  events = [];
  ledger = ledger;
}

-- ===== src/Treasury/Machine/Keeping.antt =====
-- Every entrypoint keeps to the life cycle of the settlements.
use comebackhere_contracts.Host.{Env, Call, Result, ok, err, Ensures, pure, ◌>>◌}
use comebackhere_contracts.Multisig.Storage.{State}
use comebackhere_contracts.Treasury.Lifecycle.{Onward, Keeps}
use comebackhere_contracts.Treasury.Lifecycle.Frames.{Leaves-Keeps}
use comebackhere_contracts.Treasury.Machine.{Op, call}
use comebackhere_contracts.Treasury.Lifecycle.Approving.{
  propose-Keeps, approve_settlement-Keeps, revoke_approval-Keeps, batch_approve_settlements-Keeps,
  approve_partial_settlement-Keeps,
}
use comebackhere_contracts.Treasury.Lifecycle.Paying.{
  execute_settlement-Keeps, batch_execute_settlements-Keeps, partially_execute_settlement-Keeps,
}
use comebackhere_contracts.Treasury.Lifecycle.Ending.{
  cancel_settlement-Keeps, batch_cancel_settlements-Keeps, force_cancel_settlement-Keeps,
  expire_settlement-Keeps, hold_settlement-Keeps, release_hold-Keeps,
}
use comebackhere_contracts.Treasury.Lifecycle.Disputing.{
  raise_dispute-Keeps, expire_dispute-Keeps, resolve_dispute-Keeps, resolve_dispute_split-Keeps,
  vote_dispute_resolution-Keeps,
}
use comebackhere_contracts.Treasury.Lifecycle.Unrelated.Deposits.{
  deposit-Leaves, batch_deposit-Leaves, withdraw-Leaves, withdraw_all-Leaves,
  emergency_withdraw-Leaves,
}
use comebackhere_contracts.Treasury.Lifecycle.Unrelated.Signers.{
  set_signer-Leaves, set_signer_label-Leaves, remove_signer-Leaves, propose_signer_rotation-Leaves,
  approve_signer_rotation-Leaves, cancel_rotation-Leaves,
}
use comebackhere_contracts.Treasury.Lifecycle.Unrelated.Admin.{
  update_threshold-Leaves, pause-Leaves, unpause-Leaves, set_withdrawal_limit-Leaves,
  set_settlement_expiry-Leaves, set_compliance_id-Leaves, transfer_admin-Leaves,
  accept_admin-Leaves, cancel_transfer_admin-Leaves, update_merchant_payout_address-Leaves,
  add_allowed_token-Leaves, remove_allowed_token-Leaves,
}
use comebackhere_contracts.Treasury.Lifecycle.Unrelated.Timelock.{
  propose_signer_change-Leaves, execute_signer_change-Leaves, cancel_signer_change-Leaves,
}

module _ {L : Type 0} where
  -- The value that a call returns does not matter.
  dropped-Keeps : {A : Type 0} (m : Call (State L) A) → Keeps m → Keeps (m >> pure tt)
  dropped-Keeps {A} m h s k sound = drop (m s) (h s k sound)
    where
      drop :
          (r : Result (A × State L))
          → Ensures (λ _ s'. Onward k s s') r
          → Ensures (λ _ s'. Onward k s s') (elim r [ ok x ↦ ok (tt, x.1) | err e ↦ err e ])
      drop (ok x) j = j
      drop (err e) j = tt

  pub call-Keeps : (e : Env L) (op : Op) → Keeps (call e op)
  unfolding call
  call-Keeps e (Op.propose signer merchant amount token deadline) =
      dropped-Keeps _ (propose-Keeps e signer merchant amount token deadline)
  call-Keeps e (Op.approve_settlement signer id) =
      dropped-Keeps _ (approve_settlement-Keeps e signer id)
  call-Keeps e (Op.revoke_approval signer id) = dropped-Keeps _ (revoke_approval-Keeps e signer id)
  call-Keeps e (Op.batch_approve_settlements signer ids) =
      dropped-Keeps _ (batch_approve_settlements-Keeps e signer ids)
  call-Keeps e (Op.approve_partial_settlement signer id amount) =
      dropped-Keeps _ (approve_partial_settlement-Keeps e signer id amount)
  call-Keeps e (Op.execute_settlement signer id token) =
      dropped-Keeps _ (execute_settlement-Keeps e signer id token)
  call-Keeps e (Op.batch_execute_settlements signer ids token) =
      dropped-Keeps _ (batch_execute_settlements-Keeps e signer ids token)
  call-Keeps e (Op.partially_execute_settlement signer id amount token) =
      dropped-Keeps _ (partially_execute_settlement-Keeps e signer id amount token)
  call-Keeps e (Op.cancel_settlement signer id) =
      dropped-Keeps _ (cancel_settlement-Keeps e signer id)
  call-Keeps e (Op.batch_cancel_settlements admin ids) =
      dropped-Keeps _ (batch_cancel_settlements-Keeps e admin ids)
  call-Keeps e (Op.force_cancel_settlement admin id) =
      dropped-Keeps _ (force_cancel_settlement-Keeps e admin id)
  call-Keeps e (Op.expire_settlement admin id) =
      dropped-Keeps _ (expire_settlement-Keeps e admin id)
  call-Keeps e (Op.hold_settlement admin id reason expires_at) =
      dropped-Keeps _ (hold_settlement-Keeps e admin id reason expires_at)
  call-Keeps e (Op.release_hold admin id) = dropped-Keeps _ (release_hold-Keeps e admin id)
  call-Keeps e (Op.raise_dispute claimant id counterparty amount expires_at evidence) =
      dropped-Keeps _ (raise_dispute-Keeps e claimant id counterparty amount expires_at evidence)
  call-Keeps e (Op.expire_dispute admin id) = dropped-Keeps _ (expire_dispute-Keeps e admin id)
  call-Keeps e (Op.resolve_dispute admin id in_favor_of_claimant memo) =
      dropped-Keeps _ (resolve_dispute-Keeps e admin id in_favor_of_claimant memo)
  call-Keeps e (Op.resolve_dispute_split admin id claimant_bps token memo) =
      dropped-Keeps _ (resolve_dispute_split-Keeps e admin id claimant_bps token memo)
  call-Keeps e (Op.vote_dispute_resolution signer id in_favor_of_claimant) =
      dropped-Keeps _ (vote_dispute_resolution-Keeps e signer id in_favor_of_claimant)
  call-Keeps e (Op.deposit from token amount reference) =
      dropped-Keeps _ (Leaves-Keeps _ (deposit-Leaves e from token amount reference))
  call-Keeps e (Op.batch_deposit from deposits reference) =
      dropped-Keeps _ (Leaves-Keeps _ (batch_deposit-Leaves e from deposits reference))
  call-Keeps e (Op.withdraw to token amount) =
      dropped-Keeps _ (Leaves-Keeps _ (withdraw-Leaves e to token amount))
  call-Keeps e (Op.withdraw_all admin token recipient) =
      dropped-Keeps _ (Leaves-Keeps _ (withdraw_all-Leaves e admin token recipient))
  call-Keeps e (Op.emergency_withdraw signers token recovery) =
      dropped-Keeps _ (Leaves-Keeps _ (emergency_withdraw-Leaves e signers token recovery))
  call-Keeps e (Op.set_signer admin signer weight) =
      dropped-Keeps _ (Leaves-Keeps _ (set_signer-Leaves e admin signer weight))
  call-Keeps e (Op.set_signer_label admin signer label) =
      dropped-Keeps _ (Leaves-Keeps _ (set_signer_label-Leaves e admin signer label))
  call-Keeps e (Op.remove_signer admin signer) =
      dropped-Keeps _ (Leaves-Keeps _ (remove_signer-Leaves e admin signer))
  call-Keeps e (Op.propose_signer_rotation proposer old_signer new_signer) =
      dropped-Keeps _
        (Leaves-Keeps _ (propose_signer_rotation-Leaves e proposer old_signer new_signer))
  call-Keeps e (Op.approve_signer_rotation approver id) =
      dropped-Keeps _ (Leaves-Keeps _ (approve_signer_rotation-Leaves e approver id))
  call-Keeps e (Op.cancel_rotation admin id) =
      dropped-Keeps _ (Leaves-Keeps _ (cancel_rotation-Leaves e admin id))
  call-Keeps e (Op.update_threshold admin new_threshold) =
      dropped-Keeps _ (Leaves-Keeps _ (update_threshold-Leaves e admin new_threshold))
  call-Keeps e (Op.pause admin) = dropped-Keeps _ (Leaves-Keeps _ (pause-Leaves e admin))
  call-Keeps e (Op.unpause admin) = dropped-Keeps _ (Leaves-Keeps _ (unpause-Leaves e admin))
  call-Keeps e (Op.set_withdrawal_limit admin limit window_secs) =
      dropped-Keeps _ (Leaves-Keeps _ (set_withdrawal_limit-Leaves e admin limit window_secs))
  call-Keeps e (Op.set_settlement_expiry admin expiry_secs) =
      dropped-Keeps _ (Leaves-Keeps _ (set_settlement_expiry-Leaves e admin expiry_secs))
  call-Keeps e (Op.set_compliance_id admin compliance_id) =
      dropped-Keeps _ (Leaves-Keeps _ (set_compliance_id-Leaves e admin compliance_id))
  call-Keeps e (Op.transfer_admin admin new_admin expiry_secs) =
      dropped-Keeps _ (Leaves-Keeps _ (transfer_admin-Leaves e admin new_admin expiry_secs))
  call-Keeps e (Op.accept_admin new_admin) =
      dropped-Keeps _ (Leaves-Keeps _ (accept_admin-Leaves e new_admin))
  call-Keeps e (Op.cancel_transfer_admin admin) =
      dropped-Keeps _ (Leaves-Keeps _ (cancel_transfer_admin-Leaves e admin))
  call-Keeps e (Op.update_merchant_payout_address merchant payout) =
      dropped-Keeps _ (Leaves-Keeps _ (update_merchant_payout_address-Leaves e merchant payout))
  call-Keeps e (Op.add_allowed_token admin token) =
      dropped-Keeps _ (Leaves-Keeps _ (add_allowed_token-Leaves e admin token))
  call-Keeps e (Op.remove_allowed_token admin token) =
      dropped-Keeps _ (Leaves-Keeps _ (remove_allowed_token-Leaves e admin token))
  call-Keeps e (Op.propose_signer_change admin kind) =
      dropped-Keeps _ (Leaves-Keeps _ (propose_signer_change-Leaves e admin kind))
  call-Keeps e (Op.execute_signer_change admin id) =
      dropped-Keeps _ (Leaves-Keeps _ (execute_signer_change-Leaves e admin id))
  call-Keeps e (Op.cancel_signer_change admin id) =
      dropped-Keeps _ (Leaves-Keeps _ (cancel_signer_change-Leaves e admin id))

-- ===== src/Treasury/Machine/Indexing.antt =====
-- The index of the pending settlements over any calls but batches of payments.
use comebackhere_contracts.Prelude.{ℕ, ◌≡◌, Bool, true, false, List, [], ◌∷◌, contains, arith}
use mathlib.Core.Path.{subst}
use comebackhere_contracts.Host.{Env, Call, Result, ok, err, Ensures, pure, ◌>>◌}
use comebackhere_contracts.Multisig.Storage.{State}
use comebackhere_contracts.Treasury.Guards.{initialize}
use comebackhere_contracts.Treasury.PendingIndex.{
  IsIndexed, stored_pending, KeepsIndex, Leaves-KeepsIndex,
}
use comebackhere_contracts.Treasury.Machine.{Op, call, step, run, deployed}
use comebackhere_contracts.Treasury.PendingIndex.Kept.{
  propose-KeepsIndex, approve_settlement-KeepsIndex, revoke_approval-KeepsIndex,
  approve_partial_settlement-KeepsIndex, execute_settlement-KeepsIndex,
  partially_execute_settlement-KeepsIndex, cancel_settlement-KeepsIndex,
  force_cancel_settlement-KeepsIndex, expire_settlement-KeepsIndex, hold_settlement-KeepsIndex,
  release_hold-KeepsIndex,
}
use comebackhere_contracts.Treasury.PendingIndex.Others.{
  batch_approve_settlements-KeepsIndex, batch_cancel_settlements-KeepsIndex,
  raise_dispute-KeepsIndex, expire_dispute-KeepsIndex, resolve_dispute-KeepsIndex,
  resolve_dispute_split-KeepsIndex, vote_dispute_resolution-KeepsIndex,
}
use comebackhere_contracts.Treasury.Lifecycle.Unrelated.Deposits.{
  deposit-Leaves, batch_deposit-Leaves, withdraw-Leaves, withdraw_all-Leaves,
  emergency_withdraw-Leaves,
}
use comebackhere_contracts.Treasury.Lifecycle.Unrelated.Signers.{
  set_signer-Leaves, set_signer_label-Leaves, remove_signer-Leaves, propose_signer_rotation-Leaves,
  approve_signer_rotation-Leaves, cancel_rotation-Leaves,
}
use comebackhere_contracts.Treasury.Lifecycle.Unrelated.Admin.{
  update_threshold-Leaves, pause-Leaves, unpause-Leaves, set_withdrawal_limit-Leaves,
  set_settlement_expiry-Leaves, set_compliance_id-Leaves, transfer_admin-Leaves,
  accept_admin-Leaves, cancel_transfer_admin-Leaves, update_merchant_payout_address-Leaves,
  add_allowed_token-Leaves, remove_allowed_token-Leaves,
}
use comebackhere_contracts.Treasury.Lifecycle.Unrelated.Timelock.{
  propose_signer_change-Leaves, execute_signer_change-Leaves, cancel_signer_change-Leaves,
}

abbrev pub is_batch_payment : Op → Bool
is_batch_payment (Op.batch_execute_settlements signer ids token) = true
is_batch_payment _ = false

module _ {L : Type 0} where
  -- no batch of payments among the calls
  abbrev pub IsUnbatched : List (Env L × Op) → Type 0
  IsUnbatched [] = Unit
  IsUnbatched ((e, op) ∷ rest) = (is_batch_payment op ≡ false) × IsUnbatched rest

  dropped-KeepsIndex :
      {A : Type 0} (m : Call (State L) A) → KeepsIndex m → KeepsIndex (m >> pure tt)
  dropped-KeepsIndex {A} m h s k indexed = drop (m s) (h s k indexed)
    where
      drop :
          (r : Result (A × State L))
          → Ensures (λ _ s'. IsIndexed s' k) r
          → Ensures (λ _ s'. IsIndexed s' k) (elim r [ ok x ↦ ok (tt, x.1) | err e ↦ err e ])
      drop (ok x) j = j
      drop (err e) j = tt

  call-KeepsIndex : (e : Env L) (op : Op) → is_batch_payment op ≡ false → KeepsIndex (call e op)
  unfolding call
  call-KeepsIndex e (Op.propose signer merchant amount token deadline) single =
      dropped-KeepsIndex _ (propose-KeepsIndex e signer merchant amount token deadline)
  call-KeepsIndex e (Op.approve_settlement signer id) single =
      dropped-KeepsIndex _ (approve_settlement-KeepsIndex e signer id)
  call-KeepsIndex e (Op.revoke_approval signer id) single =
      dropped-KeepsIndex _ (revoke_approval-KeepsIndex e signer id)
  call-KeepsIndex e (Op.batch_approve_settlements signer ids) single =
      dropped-KeepsIndex _ (batch_approve_settlements-KeepsIndex e signer ids)
  call-KeepsIndex e (Op.approve_partial_settlement signer id amount) single =
      dropped-KeepsIndex _ (approve_partial_settlement-KeepsIndex e signer id amount)
  call-KeepsIndex e (Op.execute_settlement signer id token) single =
      dropped-KeepsIndex _ (execute_settlement-KeepsIndex e signer id token)
  call-KeepsIndex e (Op.batch_execute_settlements signer ids token) single = absurd (ground arith)
  call-KeepsIndex e (Op.partially_execute_settlement signer id amount token) single =
      dropped-KeepsIndex _ (partially_execute_settlement-KeepsIndex e signer id amount token)
  call-KeepsIndex e (Op.cancel_settlement signer id) single =
      dropped-KeepsIndex _ (cancel_settlement-KeepsIndex e signer id)
  call-KeepsIndex e (Op.batch_cancel_settlements admin ids) single =
      dropped-KeepsIndex _ (batch_cancel_settlements-KeepsIndex e admin ids)
  call-KeepsIndex e (Op.force_cancel_settlement admin id) single =
      dropped-KeepsIndex _ (force_cancel_settlement-KeepsIndex e admin id)
  call-KeepsIndex e (Op.expire_settlement admin id) single =
      dropped-KeepsIndex _ (expire_settlement-KeepsIndex e admin id)
  call-KeepsIndex e (Op.hold_settlement admin id reason expires_at) single =
      dropped-KeepsIndex _ (hold_settlement-KeepsIndex e admin id reason expires_at)
  call-KeepsIndex e (Op.release_hold admin id) single =
      dropped-KeepsIndex _ (release_hold-KeepsIndex e admin id)
  call-KeepsIndex e (Op.raise_dispute claimant id counterparty amount expires_at evidence) single =
      dropped-KeepsIndex _
        (raise_dispute-KeepsIndex e claimant id counterparty amount expires_at evidence)
  call-KeepsIndex e (Op.expire_dispute admin id) single =
      dropped-KeepsIndex _ (expire_dispute-KeepsIndex e admin id)
  call-KeepsIndex e (Op.resolve_dispute admin id in_favor_of_claimant memo) single =
      dropped-KeepsIndex _ (resolve_dispute-KeepsIndex e admin id in_favor_of_claimant memo)
  call-KeepsIndex e (Op.resolve_dispute_split admin id claimant_bps token memo) single =
      dropped-KeepsIndex _ (resolve_dispute_split-KeepsIndex e admin id claimant_bps token memo)
  call-KeepsIndex e (Op.vote_dispute_resolution signer id in_favor_of_claimant) single =
      dropped-KeepsIndex _ (vote_dispute_resolution-KeepsIndex e signer id in_favor_of_claimant)
  call-KeepsIndex e (Op.deposit from token amount reference) single =
      dropped-KeepsIndex _ (Leaves-KeepsIndex _ (deposit-Leaves e from token amount reference))
  call-KeepsIndex e (Op.batch_deposit from deposits reference) single =
      dropped-KeepsIndex _ (Leaves-KeepsIndex _ (batch_deposit-Leaves e from deposits reference))
  call-KeepsIndex e (Op.withdraw to token amount) single =
      dropped-KeepsIndex _ (Leaves-KeepsIndex _ (withdraw-Leaves e to token amount))
  call-KeepsIndex e (Op.withdraw_all admin token recipient) single =
      dropped-KeepsIndex _ (Leaves-KeepsIndex _ (withdraw_all-Leaves e admin token recipient))
  call-KeepsIndex e (Op.emergency_withdraw signers token recovery) single =
      dropped-KeepsIndex _
        (Leaves-KeepsIndex _ (emergency_withdraw-Leaves e signers token recovery))
  call-KeepsIndex e (Op.set_signer admin signer weight) single =
      dropped-KeepsIndex _ (Leaves-KeepsIndex _ (set_signer-Leaves e admin signer weight))
  call-KeepsIndex e (Op.set_signer_label admin signer label) single =
      dropped-KeepsIndex _ (Leaves-KeepsIndex _ (set_signer_label-Leaves e admin signer label))
  call-KeepsIndex e (Op.remove_signer admin signer) single =
      dropped-KeepsIndex _ (Leaves-KeepsIndex _ (remove_signer-Leaves e admin signer))
  call-KeepsIndex e (Op.propose_signer_rotation proposer old_signer new_signer) single =
      dropped-KeepsIndex _
        (Leaves-KeepsIndex _ (propose_signer_rotation-Leaves e proposer old_signer new_signer))
  call-KeepsIndex e (Op.approve_signer_rotation approver id) single =
      dropped-KeepsIndex _ (Leaves-KeepsIndex _ (approve_signer_rotation-Leaves e approver id))
  call-KeepsIndex e (Op.cancel_rotation admin id) single =
      dropped-KeepsIndex _ (Leaves-KeepsIndex _ (cancel_rotation-Leaves e admin id))
  call-KeepsIndex e (Op.update_threshold admin new_threshold) single =
      dropped-KeepsIndex _ (Leaves-KeepsIndex _ (update_threshold-Leaves e admin new_threshold))
  call-KeepsIndex e (Op.pause admin) single =
      dropped-KeepsIndex _ (Leaves-KeepsIndex _ (pause-Leaves e admin))
  call-KeepsIndex e (Op.unpause admin) single =
      dropped-KeepsIndex _ (Leaves-KeepsIndex _ (unpause-Leaves e admin))
  call-KeepsIndex e (Op.set_withdrawal_limit admin limit window_secs) single =
      dropped-KeepsIndex _
        (Leaves-KeepsIndex _ (set_withdrawal_limit-Leaves e admin limit window_secs))
  call-KeepsIndex e (Op.set_settlement_expiry admin expiry_secs) single =
      dropped-KeepsIndex _ (Leaves-KeepsIndex _ (set_settlement_expiry-Leaves e admin expiry_secs))
  call-KeepsIndex e (Op.set_compliance_id admin compliance_id) single =
      dropped-KeepsIndex _ (Leaves-KeepsIndex _ (set_compliance_id-Leaves e admin compliance_id))
  call-KeepsIndex e (Op.transfer_admin admin new_admin expiry_secs) single =
      dropped-KeepsIndex _
        (Leaves-KeepsIndex _ (transfer_admin-Leaves e admin new_admin expiry_secs))
  call-KeepsIndex e (Op.accept_admin new_admin) single =
      dropped-KeepsIndex _ (Leaves-KeepsIndex _ (accept_admin-Leaves e new_admin))
  call-KeepsIndex e (Op.cancel_transfer_admin admin) single =
      dropped-KeepsIndex _ (Leaves-KeepsIndex _ (cancel_transfer_admin-Leaves e admin))
  call-KeepsIndex e (Op.update_merchant_payout_address merchant payout) single =
      dropped-KeepsIndex _
        (Leaves-KeepsIndex _ (update_merchant_payout_address-Leaves e merchant payout))
  call-KeepsIndex e (Op.add_allowed_token admin token) single =
      dropped-KeepsIndex _ (Leaves-KeepsIndex _ (add_allowed_token-Leaves e admin token))
  call-KeepsIndex e (Op.remove_allowed_token admin token) single =
      dropped-KeepsIndex _ (Leaves-KeepsIndex _ (remove_allowed_token-Leaves e admin token))
  call-KeepsIndex e (Op.propose_signer_change admin kind) single =
      dropped-KeepsIndex _ (Leaves-KeepsIndex _ (propose_signer_change-Leaves e admin kind))
  call-KeepsIndex e (Op.execute_signer_change admin id) single =
      dropped-KeepsIndex _ (Leaves-KeepsIndex _ (execute_signer_change-Leaves e admin id))
  call-KeepsIndex e (Op.cancel_signer_change admin id) single =
      dropped-KeepsIndex _ (Leaves-KeepsIndex _ (cancel_signer_change-Leaves e admin id))

  step-IsIndexed :
      (e : Env L) (op : Op) (s : State L) (k : ℕ)
      → is_batch_payment op ≡ false
      → IsIndexed s k
      → IsIndexed (step e op s) k
  unfolding step
  step-IsIndexed e op s k single h = outcome (call e op s) (call-KeepsIndex e op single s k h)
    where
      outcome :
          (r : Result (Unit {0} × State L))
          → Ensures (λ _ s'. IsIndexed s' k) r
          → IsIndexed (elim r [ ok x ↦ x.1 | err f ↦ s ]) k
      outcome (ok x) j = j
      outcome (err f) j = h

  run-IsIndexed :
      (calls : List (Env L × Op)) (s : State L) (k : ℕ)
      → IsUnbatched calls
      → IsIndexed s k
      → IsIndexed (run calls s) k
  unfolding run
  run-IsIndexed [] s k unbatched h = h
  run-IsIndexed ((e, op) ∷ rest) s k unbatched h =
      run-IsIndexed rest (step e op s) k unbatched.1 (step-IsIndexed e op s k unbatched.0 h)

  initialize-IsIndexed :
      (e : Env L) (admin threshold : ℕ) (signers : List (ℕ × ℕ)) (ledger : L) (k : ℕ)
      → Ensures (λ _ s. IsIndexed s k) (initialize e admin threshold signers (deployed ledger))
  unfolding initialize deployed
  initialize-IsIndexed e admin threshold signers ledger k = ground arith

  -- After `initialize` on a fresh contract and any calls without a batch of payments, the index of
  -- the pending settlements lists `k` exactly if a pending settlement is stored under `k`.
  pub run_indexed :
      (e : Env L) (admin threshold : ℕ) (signers : List (ℕ × ℕ)) (ledger : L)
      (calls : List (Env L × Op)) (s : State L) (k : ℕ)
      → initialize e admin threshold signers (deployed ledger) ≡ ok (tt, s)
      → IsUnbatched calls
      → contains (run calls s).pending_settlement_index k
        ≡ stored_pending ((run calls s).settlement k)
  run_indexed e admin threshold signers ledger calls s k init unbatched =
      run-IsIndexed calls s k unbatched (
        subst (λ r. Ensures (λ _ t. IsIndexed t k) r) init
          (initialize-IsIndexed e admin threshold signers ledger k))

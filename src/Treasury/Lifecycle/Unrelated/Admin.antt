-- ===== src/Treasury/Lifecycle/Unrelated/Admin.antt =====
-- The entrypoints of Treasury/Admin.antt leave every settlement as it is.
use comebackhere_contracts.Prelude.{ℕ, arith}
use comebackhere_contracts.Prelude.Int.{ℤ}
use comebackhere_contracts.Host.{Env}
use comebackhere_contracts.Treasury.Guards.Passed.{
  require_not_paused-Ensures, require_admin-Ensures,
}
use comebackhere_contracts.Treasury.Admin.{
  accept_admin, add_allowed_token, cancel_transfer_admin, pause, remove_allowed_token,
  set_compliance_id, set_settlement_expiry, set_withdrawal_limit, transfer_admin, unpause,
  update_merchant_payout_address, update_threshold,
}
use comebackhere_contracts.Treasury.Lifecycle.Frames.{Leaves}

module _ {L : Type 0} (e : Env L) where
  pub update_threshold-Leaves :
      (admin new_threshold : ℕ) → Leaves (update_threshold e admin new_threshold)
  unfolding update_threshold
  update_threshold-Leaves admin new_threshold s = ground (arith, require_admin-Ensures e admin s)

  pub pause-Leaves : (admin : ℕ) → Leaves (pause e admin)
  unfolding pause
  pause-Leaves admin s = ground (arith, require_admin-Ensures e admin s)

  pub unpause-Leaves : (admin : ℕ) → Leaves (unpause e admin)
  unfolding unpause
  unpause-Leaves admin s = ground (arith, require_admin-Ensures e admin s)

  pub set_withdrawal_limit-Leaves :
      (admin : ℕ) (limit : ℤ) (window_secs : ℕ)
      → Leaves (set_withdrawal_limit e admin limit window_secs)
  unfolding set_withdrawal_limit
  set_withdrawal_limit-Leaves admin limit window_secs s =
      ground (arith, require_admin-Ensures e admin s)

  pub set_settlement_expiry-Leaves :
      (admin expiry_secs : ℕ) → Leaves (set_settlement_expiry e admin expiry_secs)
  unfolding set_settlement_expiry
  set_settlement_expiry-Leaves admin expiry_secs s = ground (arith, require_admin-Ensures e admin s)

  pub set_compliance_id-Leaves :
      (admin compliance_id : ℕ) → Leaves (set_compliance_id e admin compliance_id)
  unfolding set_compliance_id
  set_compliance_id-Leaves admin compliance_id s = ground (arith, require_admin-Ensures e admin s)

  pub transfer_admin-Leaves :
      (admin new_admin expiry_secs : ℕ) → Leaves (transfer_admin e admin new_admin expiry_secs)
  unfolding transfer_admin
  transfer_admin-Leaves admin new_admin expiry_secs s =
      ground (arith, require_admin-Ensures e admin s)

  pub accept_admin-Leaves : (new_admin : ℕ) → Leaves (accept_admin e new_admin)
  unfolding accept_admin
  accept_admin-Leaves new_admin s = ground (arith)

  pub cancel_transfer_admin-Leaves : (admin : ℕ) → Leaves (cancel_transfer_admin e admin)
  unfolding cancel_transfer_admin
  cancel_transfer_admin-Leaves admin s = ground (arith, require_admin-Ensures e admin s)

  pub update_merchant_payout_address-Leaves :
      (merchant payout : ℕ) → Leaves (update_merchant_payout_address e merchant payout)
  unfolding update_merchant_payout_address
  update_merchant_payout_address-Leaves merchant payout s =
      ground (arith, require_not_paused-Ensures s)

  pub add_allowed_token-Leaves : (admin token : ℕ) → Leaves (add_allowed_token e admin token)
  unfolding add_allowed_token
  add_allowed_token-Leaves admin token s = ground (arith, require_admin-Ensures e admin s)

  pub remove_allowed_token-Leaves : (admin token : ℕ) → Leaves (remove_allowed_token e admin token)
  unfolding remove_allowed_token
  remove_allowed_token-Leaves admin token s = ground (arith, require_admin-Ensures e admin s)

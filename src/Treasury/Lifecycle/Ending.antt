-- ===== src/Treasury/Lifecycle/Ending.antt =====
-- Cancelling, expiring, holding and releasing keep to the life cycle.
use comebackhere_contracts.Prelude.{ℕ, Option, none, some, List, arith}
use comebackhere_contracts.Host.{Env, Ensures}
use comebackhere_contracts.Multisig.Types.{SettlementHoldReason}
use comebackhere_contracts.Multisig.Storage.{State}
use comebackhere_contracts.Treasury.Guards.{write_settlement}
use comebackhere_contracts.Treasury.Guards.Passed.{
  require_not_paused-Ensures, require_admin-Ensures, require_authorized_signer-Ensures,
}
use comebackhere_contracts.Treasury.Closing.{
  cancel_settlement, cancel_one, batch_cancel_settlements, force_cancel_settlement,
  expire_settlement,
}
use comebackhere_contracts.Treasury.Holds.{hold_settlement, release_hold}
use comebackhere_contracts.Treasury.Lifecycle.{IsSound, Onward, Keeps, for_each_settlement-Keeps}

module _ {L : Type 0} (e : Env L) where
  pub cancel_settlement-Keeps : (signer id : ℕ) → Keeps (cancel_settlement e signer id)
  unfolding cancel_settlement write_settlement
  cancel_settlement-Keeps signer id s k h =
      ground (arith, require_not_paused-Ensures s, require_authorized_signer-Ensures e signer s)

  cancel_one-Onward :
      (id : ℕ) (s : State L) (k : ℕ)
      → IsSound s k
      → Ensures (λ _ s'. Onward k s s') (cancel_one id (s.settlement id) s)
  unfolding cancel_one write_settlement
  cancel_one-Onward id s k h = ground arith

  pub batch_cancel_settlements-Keeps :
      (admin : ℕ) (ids : List ℕ) → Keeps (batch_cancel_settlements e admin ids)
  unfolding batch_cancel_settlements
  batch_cancel_settlements-Keeps admin ids s k h = ground (
    arith,
    require_admin-Ensures e admin s,
    for_each_settlement-Keeps cancel_one cancel_one-Onward ids s k h,
  )

  pub force_cancel_settlement-Keeps : (admin id : ℕ) → Keeps (force_cancel_settlement e admin id)
  unfolding force_cancel_settlement write_settlement
  force_cancel_settlement-Keeps admin id s k h = ground (arith, require_admin-Ensures e admin s)

  pub expire_settlement-Keeps : (admin id : ℕ) → Keeps (expire_settlement e admin id)
  unfolding expire_settlement write_settlement
  expire_settlement-Keeps admin id s k h = ground (arith, require_admin-Ensures e admin s)

  pub hold_settlement-Keeps :
      (admin id : ℕ) (reason : SettlementHoldReason) (expires_at : Option ℕ)
      → Keeps (hold_settlement e admin id reason expires_at)
  unfolding hold_settlement write_settlement
  hold_settlement-Keeps admin id reason none s k h = ground (arith, require_admin-Ensures e admin s)
  hold_settlement-Keeps admin id reason (some at) s k h =
      ground (arith, require_admin-Ensures e admin s)

  pub release_hold-Keeps : (admin id : ℕ) → Keeps (release_hold e admin id)
  unfolding release_hold write_settlement
  release_hold-Keeps admin id s k h = ground (arith, require_admin-Ensures e admin s)

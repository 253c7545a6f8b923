-- ===== src/Treasury/Lifecycle/Unrelated/Timelock.antt =====
-- The entrypoints of Treasury/Timelock.antt leave every settlement as it is.
use comebackhere_contracts.Prelude.{ℕ, arith}
use comebackhere_contracts.Host.{Env}
use comebackhere_contracts.Multisig.Types.{SignerChangeKind}
use comebackhere_contracts.Treasury.Guards.Passed.{require_admin-Ensures}
use comebackhere_contracts.Treasury.Timelock.{
  apply_change, cancel_signer_change, execute_signer_change, propose_signer_change,
}
use comebackhere_contracts.Treasury.Lifecycle.Frames.{Leaves}

module _ {L : Type 0} (e : Env L) where
  pub propose_signer_change-Leaves :
      (admin : ℕ) (kind : SignerChangeKind) → Leaves (propose_signer_change e admin kind)
  unfolding propose_signer_change
  propose_signer_change-Leaves admin kind s = ground (arith, require_admin-Ensures e admin s)

  pub execute_signer_change-Leaves : (admin id : ℕ) → Leaves (execute_signer_change e admin id)
  unfolding execute_signer_change apply_change
  execute_signer_change-Leaves admin id s = ground (arith, require_admin-Ensures e admin s)

  pub cancel_signer_change-Leaves : (admin id : ℕ) → Leaves (cancel_signer_change e admin id)
  unfolding cancel_signer_change
  cancel_signer_change-Leaves admin id s = ground (arith, require_admin-Ensures e admin s)

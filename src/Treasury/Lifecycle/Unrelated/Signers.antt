-- ===== src/Treasury/Lifecycle/Unrelated/Signers.antt =====
-- The entrypoints of Treasury/Signers.antt leave every settlement as it is.
use comebackhere_contracts.Prelude.{ℕ, List, arith}
use comebackhere_contracts.Host.{Env}
use comebackhere_contracts.Multisig.{record_approval}
use comebackhere_contracts.Treasury.Guards.Passed.{
  require_admin-Ensures, require_authorized_signer-Ensures,
}
use comebackhere_contracts.Treasury.Signers.{
  approve_signer_rotation, cancel_rotation, finish_rotation, propose_signer_rotation, remove_signer,
  set_signer, set_signer_label,
}
use comebackhere_contracts.Treasury.Lifecycle.Frames.{Leaves}

module _ {L : Type 0} (e : Env L) where
  pub set_signer-Leaves : (admin signer weight : ℕ) → Leaves (set_signer e admin signer weight)
  unfolding set_signer
  set_signer-Leaves admin signer weight s = ground (arith, require_admin-Ensures e admin s)

  pub set_signer_label-Leaves :
      (admin signer : ℕ) (label : List ℕ) → Leaves (set_signer_label e admin signer label)
  unfolding set_signer_label
  set_signer_label-Leaves admin signer label s = ground (arith, require_admin-Ensures e admin s)

  pub remove_signer-Leaves : (admin signer : ℕ) → Leaves (remove_signer e admin signer)
  unfolding remove_signer
  remove_signer-Leaves admin signer s = ground (arith, require_admin-Ensures e admin s)

  pub propose_signer_rotation-Leaves :
      (proposer old_signer new_signer : ℕ)
      → Leaves (propose_signer_rotation e proposer old_signer new_signer)
  unfolding propose_signer_rotation record_approval
  propose_signer_rotation-Leaves proposer old_signer new_signer s =
      ground (arith, require_authorized_signer-Ensures e proposer s)

  pub approve_signer_rotation-Leaves :
      (approver id : ℕ) → Leaves (approve_signer_rotation e approver id)
  unfolding approve_signer_rotation record_approval finish_rotation
  approve_signer_rotation-Leaves approver id s =
      ground (arith, require_authorized_signer-Ensures e approver s)

  pub cancel_rotation-Leaves : (admin id : ℕ) → Leaves (cancel_rotation e admin id)
  unfolding cancel_rotation
  cancel_rotation-Leaves admin id s = ground (arith, require_admin-Ensures e admin s)

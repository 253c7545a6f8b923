-- ===== src/Treasury/Lifecycle/Approving.antt =====
-- Proposing, approving and revoking keep to the life cycle.
use comebackhere_contracts.Prelude.{
  ℕ, List, inl, inr, Option-cases, arith, push_back-Distinct, remove_first-Distinct,
}
use comebackhere_contracts.Prelude.Int.{ℤ}
use comebackhere_contracts.Host.{Env, Ensures}
use comebackhere_contracts.Multisig.{record_approval, revoke_approval, signer_weight}
use comebackhere_contracts.Multisig.Types.{MaybeAddress}
use comebackhere_contracts.Multisig.Storage.{State}
use comebackhere_contracts.Treasury.Guards.{write_settlement}
use comebackhere_contracts.Treasury.Guards.Passed.{
  require_not_paused-Ensures, require_authorized_signer-Ensures,
}
use comebackhere_contracts.Treasury.Proposals
use comebackhere_contracts.Treasury.Proposals.{
  require_allowed_for_treasury, propose, approve_settlement, approve_one, approve_found,
  batch_approve_settlements, approve_partial_settlement,
}
use comebackhere_contracts.Treasury.Lifecycle.{IsSound, Onward, Keeps, for_each_settlement-Keeps}

module _ {L : Type 0} (e : Env L) where
  pub approve_settlement-Keeps : (signer id : ℕ) → Keeps (approve_settlement e signer id)
  unfolding approve_settlement write_settlement record_approval
  approve_settlement-Keeps signer id s k h = elim (Option-cases (s.settlement id)) [
    | inl missing ↦
        ground (arith, require_not_paused-Ensures s, require_authorized_signer-Ensures e signer s)
    | inr (a, found) ↦ ground (
      arith,
      require_not_paused-Ensures s,
      require_authorized_signer-Ensures e signer s,
      push_back-Distinct a.approvals signer,
    )
  ]

  pub propose-Keeps :
      (signer merchant : ℕ) (amount : ℤ) (token : MaybeAddress) (deadline : ℕ)
      → Keeps (propose e signer merchant amount token deadline)
  unfolding propose write_settlement record_approval require_allowed_for_treasury
  propose-Keeps signer merchant amount token deadline s k h =
      ground (arith, require_not_paused-Ensures s, require_authorized_signer-Ensures e signer s)

  pub revoke_approval-Keeps : (signer id : ℕ) → Keeps (Proposals.revoke_approval e signer id)
  unfolding Proposals.revoke_approval write_settlement revoke_approval
  revoke_approval-Keeps signer id s k h = grind (
    arith,
    require_not_paused-Ensures s,
    require_authorized_signer-Ensures e signer s,
    remove_first-Distinct,
  )

  approve_one-Onward :
      (signer weight id : ℕ) (s : State L) (k : ℕ)
      → IsSound s k
      → Ensures (λ _ s'. Onward k s s') (approve_one signer weight id (s.settlement id) s)
  unfolding approve_one write_settlement
  approve_one-Onward signer weight id s k h = grind (arith, push_back-Distinct)

  pub batch_approve_settlements-Keeps :
      (signer : ℕ) (ids : List ℕ) → Keeps (batch_approve_settlements e signer ids)
  unfolding batch_approve_settlements
  batch_approve_settlements-Keeps signer ids s k h = ground (
    arith,
    require_not_paused-Ensures s,
    require_authorized_signer-Ensures e signer s,
    for_each_settlement-Keeps (approve_one signer (signer_weight s signer))
        (approve_one-Onward signer (signer_weight s signer)) ids s k h,
  )

  pub approve_partial_settlement-Keeps :
      (signer id : ℕ) (amount : ℤ) → Keeps (approve_partial_settlement e signer id amount)
  unfolding approve_partial_settlement write_settlement record_approval
  approve_partial_settlement-Keeps signer id amount s k h = elim (Option-cases (s.settlement id)) [
    | inl missing ↦
        ground (arith, require_not_paused-Ensures s, require_authorized_signer-Ensures e signer s)
    | inr (a, found) ↦ ground (
      arith,
      require_not_paused-Ensures s,
      require_authorized_signer-Ensures e signer s,
      push_back-Distinct a.approvals signer,
    )
  ]

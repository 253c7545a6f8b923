-- ===== src/Treasury/PendingIndex/Kept.antt =====
-- The entrypoints that keep the index of the pending settlements.
use comebackhere_contracts.Prelude.{
  ℕ, ◌+◌, ◌≡◌, Option, arith, contains-push_back, contains-without, Option-cases, inl, inr,
}
use comebackhere_contracts.Prelude.Int.{ℤ}
use comebackhere_contracts.Host.{Env, Ensures}
use comebackhere_contracts.Multisig.{record_approval, revoke_approval}
use comebackhere_contracts.Multisig.Types.{Settlement, MaybeAddress, SettlementHoldReason}
use comebackhere_contracts.Multisig.Storage.{State}
use comebackhere_contracts.Treasury.Guards.{write_settlement}
use comebackhere_contracts.Treasury.Guards.Passed.{
  require_not_paused-Ensures, require_admin-Ensures, require_authorized_signer-Ensures,
}
use comebackhere_contracts.Treasury.Proposals.{
  propose, require_allowed_for_treasury, approve_settlement, approve_partial_settlement,
}
use comebackhere_contracts.Treasury.Proposals
use comebackhere_contracts.Treasury.Execution.{
  execute_settlement, partially_execute_settlement, check_executable, check_partial,
}
use comebackhere_contracts.Treasury.Closing.{
  cancel_settlement, force_cancel_settlement, expire_settlement,
}
use comebackhere_contracts.Treasury.Holds.{hold_settlement, release_hold}
use comebackhere_contracts.Treasury.PendingIndex.{KeepsIndex}

module _ {L : Type 0} (e : Env L) where
  check_executable-same :
      (id token : ℕ) (a : Settlement) (s : State L)
      → Ensures (λ _ s'. s' ≡ s) (check_executable e id token a s)
  unfolding check_executable
  check_executable-same id token a s = ground arith

  check_partial-same :
      (id : ℕ) (amount : ℤ) (token : ℕ) (a : Settlement) (s : State L)
      → Ensures (λ _ s'. s' ≡ s) (check_partial e id amount token a s)
  unfolding check_partial
  check_partial-same id amount token a s = ground arith

  pub approve_settlement-KeepsIndex : (signer id : ℕ) → KeepsIndex (approve_settlement e signer id)
  unfolding approve_settlement write_settlement record_approval
  approve_settlement-KeepsIndex signer id s k h = ground (
    arith,
    require_not_paused-Ensures s,
    require_authorized_signer-Ensures e signer s,
    contains-push_back s.pending_settlement_index id k,
    contains-without s.pending_settlement_index id k,
  )

  pub propose-KeepsIndex :
      (signer merchant : ℕ) (amount : ℤ) (token : MaybeAddress) (deadline : ℕ)
      → KeepsIndex (propose e signer merchant amount token deadline)
  unfolding propose write_settlement record_approval require_allowed_for_treasury
  propose-KeepsIndex signer merchant amount token deadline s k h = ground (
    arith,
    require_not_paused-Ensures s,
    require_authorized_signer-Ensures e signer s,
    contains-push_back s.pending_settlement_index (s.settlement_count + 1) k,
    contains-without s.pending_settlement_index (s.settlement_count + 1) k,
  )

  pub revoke_approval-KeepsIndex :
      (signer id : ℕ) → KeepsIndex (Proposals.revoke_approval e signer id)
  unfolding Proposals.revoke_approval write_settlement revoke_approval
  revoke_approval-KeepsIndex signer id s k h = ground (
    arith,
    require_not_paused-Ensures s,
    require_authorized_signer-Ensures e signer s,
    contains-push_back s.pending_settlement_index id k,
    contains-without s.pending_settlement_index id k,
  )

  pub approve_partial_settlement-KeepsIndex :
      (signer id : ℕ) (amount : ℤ) → KeepsIndex (approve_partial_settlement e signer id amount)
  unfolding approve_partial_settlement write_settlement record_approval
  approve_partial_settlement-KeepsIndex signer id amount s k h = ground (
    arith,
    require_not_paused-Ensures s,
    require_authorized_signer-Ensures e signer s,
    contains-push_back s.pending_settlement_index id k,
    contains-without s.pending_settlement_index id k,
  )

  pub execute_settlement-KeepsIndex :
      (signer id token : ℕ) → KeepsIndex (execute_settlement e signer id token)
  unfolding execute_settlement write_settlement
  execute_settlement-KeepsIndex signer id token s k h = elim (Option-cases (s.settlement id)) [
    | inl missing ↦ ground (
      arith,
      require_not_paused-Ensures s,
      require_authorized_signer-Ensures e signer s,
      contains-push_back s.pending_settlement_index id k,
      contains-without s.pending_settlement_index id k,
    )
    | inr (a, found) ↦ ground (
      arith,
      require_not_paused-Ensures s,
      require_authorized_signer-Ensures e signer s,
      contains-push_back s.pending_settlement_index id k,
      contains-without s.pending_settlement_index id k,
      check_executable-same id token a s,
    )
  ]

  pub partially_execute_settlement-KeepsIndex :
      (signer id : ℕ) (amount : ℤ) (token : ℕ)
      → KeepsIndex (partially_execute_settlement e signer id amount token)
  unfolding partially_execute_settlement write_settlement
  partially_execute_settlement-KeepsIndex signer id amount token s k h =
      elim (Option-cases (s.settlement id)) [
        | inl missing ↦ ground (
          arith,
          require_not_paused-Ensures s,
          require_authorized_signer-Ensures e signer s,
          contains-push_back s.pending_settlement_index id k,
          contains-without s.pending_settlement_index id k,
        )
        | inr (a, found) ↦ ground (
          arith,
          require_not_paused-Ensures s,
          require_authorized_signer-Ensures e signer s,
          contains-push_back s.pending_settlement_index id k,
          contains-without s.pending_settlement_index id k,
          check_partial-same id amount token a s,
        )
      ]

  pub cancel_settlement-KeepsIndex : (signer id : ℕ) → KeepsIndex (cancel_settlement e signer id)
  unfolding cancel_settlement write_settlement
  cancel_settlement-KeepsIndex signer id s k h = ground (
    arith,
    require_not_paused-Ensures s,
    require_authorized_signer-Ensures e signer s,
    contains-push_back s.pending_settlement_index id k,
    contains-without s.pending_settlement_index id k,
  )

  pub force_cancel_settlement-KeepsIndex :
      (admin id : ℕ) → KeepsIndex (force_cancel_settlement e admin id)
  unfolding force_cancel_settlement write_settlement
  force_cancel_settlement-KeepsIndex admin id s k h = ground (
    arith,
    require_admin-Ensures e admin s,
    contains-push_back s.pending_settlement_index id k,
    contains-without s.pending_settlement_index id k,
  )

  pub expire_settlement-KeepsIndex : (admin id : ℕ) → KeepsIndex (expire_settlement e admin id)
  unfolding expire_settlement write_settlement
  expire_settlement-KeepsIndex admin id s k h = ground (
    arith,
    require_admin-Ensures e admin s,
    contains-push_back s.pending_settlement_index id k,
    contains-without s.pending_settlement_index id k,
  )

  pub hold_settlement-KeepsIndex :
      (admin id : ℕ) (reason : SettlementHoldReason) (expires_at : Option ℕ)
      → KeepsIndex (hold_settlement e admin id reason expires_at)
  unfolding hold_settlement write_settlement
  hold_settlement-KeepsIndex admin id reason expires_at s k h = ground (
    arith,
    require_admin-Ensures e admin s,
    require_not_paused-Ensures s,
    contains-push_back s.pending_settlement_index id k,
    contains-without s.pending_settlement_index id k,
  )

  pub release_hold-KeepsIndex : (admin id : ℕ) → KeepsIndex (release_hold e admin id)
  unfolding release_hold write_settlement
  release_hold-KeepsIndex admin id s k h = ground (
    arith,
    require_admin-Ensures e admin s,
    require_not_paused-Ensures s,
    contains-push_back s.pending_settlement_index id k,
    contains-without s.pending_settlement_index id k,
  )

-- ===== src/Treasury/Lifecycle/Paying.antt =====
-- Paying out keeps to the life cycle.
use comebackhere_contracts.Prelude.{ℕ, true, inl, inr, Option-cases, List, ◌≡◌, arith}
use comebackhere_contracts.Prelude.Int.{ℤ}
use comebackhere_contracts.Host.{Env, Ensures}
use comebackhere_contracts.Multisig.Types.{Settlement}
use comebackhere_contracts.Multisig.Storage.{State}
use comebackhere_contracts.Treasury.Guards.{write_settlement}
use comebackhere_contracts.Treasury.Guards.Passed.{
  require_not_paused-Ensures, require_authorized_signer-Ensures,
}
use comebackhere_contracts.Treasury.Execution.{
  check_executable, execute_settlement, execute_one, execute_found, batch_execute_settlements,
  check_partial, partially_execute_settlement,
}
use comebackhere_contracts.Treasury.Lifecycle.{
  is_live, IsSound, Onward, Keeps, for_each_settlement-Keeps,
}

module _ {L : Type 0} (e : Env L) where
  pub check_executable-live :
      (id token : ℕ) (a : Settlement) (s : State L)
      → Ensures (λ _ s'. (s' ≡ s) × (is_live a.status ≡ true)) (check_executable e id token a s)
  unfolding check_executable
  check_executable-live id token a s = ground arith

  pub execute_settlement-Keeps :
      (signer id token : ℕ) → Keeps (execute_settlement e signer id token)
  unfolding execute_settlement write_settlement
  execute_settlement-Keeps signer id token s k h = elim (Option-cases (s.settlement id)) [
    | inl missing ↦
        ground (arith, require_not_paused-Ensures s, require_authorized_signer-Ensures e signer s)
    | inr (a, found) ↦ ground (
      arith,
      require_not_paused-Ensures s,
      require_authorized_signer-Ensures e signer s,
      check_executable-live id token a s,
    )
  ]

  execute_one-Onward :
      (token threshold id : ℕ) (s : State L) (k : ℕ)
      → IsSound s k
      → Ensures (λ _ s'. Onward k s s') (execute_one e token threshold id (s.settlement id) s)
  unfolding execute_one execute_found
  execute_one-Onward token threshold id s k h = ground arith

  pub batch_execute_settlements-Keeps :
      (signer : ℕ) (ids : List ℕ) (token : ℕ) → Keeps (batch_execute_settlements e signer ids token)
  unfolding batch_execute_settlements
  batch_execute_settlements-Keeps signer ids token s k h = elim (Option-cases s.threshold) [
    | inl unset ↦
        ground (arith, require_not_paused-Ensures s, require_authorized_signer-Ensures e signer s)
    | inr (threshold, found) ↦ ground (
      arith,
      require_not_paused-Ensures s,
      require_authorized_signer-Ensures e signer s,
      for_each_settlement-Keeps (execute_one e token threshold) (execute_one-Onward token threshold)
          ids s k h,
    )
  ]

  pub check_partial-live :
      (id : ℕ) (amount : ℤ) (token : ℕ) (a : Settlement) (s : State L)
      → Ensures (λ _ s'. (s' ≡ s) × (is_live a.status ≡ true)) (check_partial e id amount token a s)
  unfolding check_partial
  check_partial-live id amount token a s = ground arith

  pub partially_execute_settlement-Keeps :
      (signer id : ℕ) (amount : ℤ) (token : ℕ)
      → Keeps (partially_execute_settlement e signer id amount token)
  unfolding partially_execute_settlement write_settlement
  partially_execute_settlement-Keeps signer id amount token s k h =
      elim (Option-cases (s.settlement id)) [
        | inl missing ↦
            ground
              (arith, require_not_paused-Ensures s, require_authorized_signer-Ensures e signer s)
        | inr (a, found) ↦ ground (
          arith,
          require_not_paused-Ensures s,
          require_authorized_signer-Ensures e signer s,
          check_partial-live id amount token a s,
        )
      ]

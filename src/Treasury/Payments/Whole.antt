-- ===== src/Treasury/Payments/Whole.antt =====
-- `execute_settlement` pays exactly under `IsExecutable`.
use comebackhere_contracts.Prelude.{ℕ, ◌≡◌, inl, inr, none, some, arith, Option-cases}
use comebackhere_contracts.Host.{Env, ok, Ensures}
use comebackhere_contracts.Multisig.{require_authorized_signer, meets_threshold}
use comebackhere_contracts.Multisig.Types.{Settlement}
use comebackhere_contracts.Multisig.Storage.{State}
use comebackhere_contracts.Treasury.Guards.{require_not_paused, write_settlement}
use comebackhere_contracts.Treasury.Guards.Passed.{
  require_not_paused-Ensures, require_authorized_signer-Ensures,
}
use comebackhere_contracts.Treasury.Execution.{check_executable, execute_settlement, payout_address}
use comebackhere_contracts.Treasury.Payments.{
  IsActiveSigner, IsUnheld, HasQuorum, IsTimely, IsListed, IsCleared, IsExecutable, paid_state,
}

module _ {L : Type 0} (e : Env L) (id token : ℕ) (a : Settlement) (s : State L) where
  check_executable-IsUnheld :
      Ensures (λ _ s'. (s' ≡ s) × IsUnheld e s id a) (check_executable e id token a s)
  unfolding check_executable
  check_executable-IsUnheld = ground arith

  check_executable_quorum : Ensures (λ _ _. HasQuorum e s a) (check_executable e id token a s)
  unfolding check_executable meets_threshold
  check_executable_quorum = ground arith

  check_executable_rest :
      Ensures
        (λ _ _. IsTimely e s a × (token ≡ e.self → ⊥) × IsListed e s token × IsCleared e s a)
        (check_executable e id token a s)
  unfolding check_executable
  check_executable_rest = ground arith

  check_executable_passes :
      IsExecutable e s id token a → check_executable e id token a s ≡ ok (tt, s)
  unfolding check_executable meets_threshold
  check_executable_passes x = ground arith

module _ {L : Type 0} (e : Env L) (signer id token : ℕ) (s : State L) where
  pays_once_found :
      (a : Settlement) (ledger : L) (s' : State L)
      → s.settlement id ≡ some a
      → e.token_transfer token e.self (payout_address s a.merchant_address) a.amount s.ledger
        ≡ some ledger
      → execute_settlement e signer id token s ≡ ok (tt, s')
      → IsActiveSigner e s signer × IsExecutable e s id token a × (s' ≡ paid_state id a ledger s)
  unfolding execute_settlement write_settlement
  pays_once_found a ledger s' stored moved run = ground (
    arith,
    require_not_paused-Ensures s,
    require_authorized_signer-Ensures e signer s,
    check_executable-IsUnheld e id token a s,
    check_executable_quorum e id token a s,
    check_executable_rest e id token a s,
  )

  pays_nothing_missing :
      (s' : State L)
      → s.settlement id ≡ none
      → execute_settlement e signer id token s ≡ ok (tt, s')
      → ⊥
  unfolding execute_settlement
  pays_nothing_missing s' missing run =
      ground (arith, require_not_paused-Ensures s, require_authorized_signer-Ensures e signer s)

  pays_nothing_refused :
      (a : Settlement) (s' : State L)
      → s.settlement id ≡ some a
      → e.token_transfer token e.self (payout_address s a.merchant_address) a.amount s.ledger ≡ none
      → execute_settlement e signer id token s ≡ ok (tt, s')
      → ⊥
  unfolding execute_settlement
  pays_nothing_refused a s' stored refused run = ground (
    arith,
    require_not_paused-Ensures s,
    require_authorized_signer-Ensures e signer s,
    check_executable-IsUnheld e id token a s,
  )

  -- If `execute_settlement` succeeds, the caller is an active signer, the settlement is stored and
  -- met every condition, the token contract has moved the settlement's amount from the treasury to
  -- the merchant's payout address once, and nothing else has changed but the settlement's status,
  -- its hold's expiry, its place in the pending index and the published event.
  pub execute_settlement_pays :
      (s' : State L)
      → execute_settlement e signer id token s ≡ ok (tt, s')
      → (a : Settlement) × (ledger : L) × IsActiveSigner e s signer
        × (s.settlement id ≡ some a)
        × IsExecutable e s id token a
        × (e.token_transfer token e.self (payout_address s a.merchant_address) a.amount s.ledger
            ≡ some ledger)
        × (s' ≡ paid_state id a ledger s)
  execute_settlement_pays s' run = elim (Option-cases (s.settlement id)) [
    | inl missing ↦ absurd (pays_nothing_missing s' missing run)
    | inr (a, stored) ↦
        elim (Option-cases
          (e.token_transfer token e.self (payout_address s a.merchant_address) a.amount s.ledger)) [
            | inl refused ↦ absurd (pays_nothing_refused a s' stored refused run)
            | inr (ledger, moved) ↦
                let parts = pays_once_found a ledger s' stored moved run in
                (a, ledger, parts.0, stored, parts.1, moved, parts.2)
          ]
  ]

  -- If the caller is an active signer, the settlement is stored and meets every condition, and the
  -- token contract makes the transfer, then `execute_settlement` succeeds with that payment.
  pub execute_settlement_succeeds :
      (a : Settlement) (ledger : L)
      → IsActiveSigner e s signer
      → s.settlement id ≡ some a
      → IsExecutable e s id token a
      → e.token_transfer token e.self (payout_address s a.merchant_address) a.amount s.ledger
        ≡ some ledger
      → execute_settlement e signer id token s ≡ ok (tt, paid_state id a ledger s)
  unfolding execute_settlement require_not_paused require_authorized_signer write_settlement
  execute_settlement_succeeds a ledger active stored x moved =
      ground (arith, check_executable_passes e id token a s x)

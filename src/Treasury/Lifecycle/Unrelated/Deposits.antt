-- ===== src/Treasury/Lifecycle/Unrelated/Deposits.antt =====
-- The entrypoints of Treasury/Deposits.antt leave every settlement as it is.
use comebackhere_contracts.Prelude.{ℕ, ◌≡◌, refl, Option, none, some, List, [], ◌∷◌, arith}
use comebackhere_contracts.Prelude.Int.{ℤ}
use comebackhere_contracts.Host.{Env, Ensures}
use comebackhere_contracts.Multisig.Storage.{State}
use comebackhere_contracts.Treasury.Guards.Passed.{
  require_not_paused-Ensures, require_admin-Ensures,
}
use comebackhere_contracts.Treasury.Deposits.{
  batch_deposit, deposit_each, remember, require_all_signers, deposit, deposit_one, drain,
  emergency_withdraw, enforce_withdrawal_limit, record_deposit_reference, withdraw, withdraw_all,
}
use comebackhere_contracts.Treasury.Lifecycle.Frames.{Leaves, Leaves-bind}

module _ {L : Type 0} (e : Env L) where
  pub deposit-Leaves :
      (from token : ℕ) (amount : ℤ) (reference : Option (List ℕ))
      → Leaves (deposit e from token amount reference)
  unfolding deposit record_deposit_reference deposit_one
  deposit-Leaves from token amount reference s = ground (arith, require_not_paused-Ensures s)

  deposit_one-Leaves :
      (from token : ℕ) (amount : ℤ) (reference : Option (List ℕ))
      → Leaves (deposit_one e from token amount reference)
  unfolding deposit_one
  deposit_one-Leaves from token amount reference s = ground arith

  deposit_each-Leaves :
      (from : ℕ) (reference : Option (List ℕ)) (deposits : List (ℕ × ℤ))
      → Leaves (deposit_each e from reference deposits)
  unfolding deposit_each
  deposit_each-Leaves from reference [] s = (refl, refl, refl)
  deposit_each-Leaves from reference ((token, amount) ∷ rest) s =
      Leaves-bind s (deposit_one e from token amount reference s) _
        (deposit_one-Leaves from token amount reference s)
        λ _. deposit_each-Leaves from reference rest

  pub batch_deposit-Leaves :
      (from : ℕ) (deposits : List (ℕ × ℤ)) (reference : Option (List ℕ))
      → Leaves (batch_deposit e from deposits reference)
  unfolding batch_deposit record_deposit_reference
  batch_deposit-Leaves from deposits none s =
      ground (arith, require_not_paused-Ensures s, deposit_each-Leaves from none deposits s)
  batch_deposit-Leaves from deposits (some ref) s = ground (
    arith,
    require_not_paused-Ensures s,
    deposit_each-Leaves from (some ref) deposits
        (record s { deposit_ref = remember ref s.deposit_ref }),
  )

  pub withdraw-Leaves : (to token : ℕ) (amount : ℤ) → Leaves (withdraw e to token amount)
  unfolding withdraw enforce_withdrawal_limit
  withdraw-Leaves to token amount s = ground (arith, require_not_paused-Ensures s)

  pub withdraw_all-Leaves :
      (admin token recipient : ℕ) → Leaves (withdraw_all e admin token recipient)
  unfolding withdraw_all drain enforce_withdrawal_limit
  withdraw_all-Leaves admin token recipient s = ground (arith, require_admin-Ensures e admin s)

  pub require_all_signers-Ensures :
      (signers list : List ℕ) (s : State L)
      → Ensures (λ _ s'. s' ≡ s) (require_all_signers e signers list s)
  unfolding require_all_signers
  require_all_signers-Ensures signers [] s = refl
  require_all_signers-Ensures signers (x ∷ rest) s =
      ground (arith, require_all_signers-Ensures signers rest s)

  pub emergency_withdraw-Leaves :
      (signers : List ℕ) (token recovery : ℕ) → Leaves (emergency_withdraw e signers token recovery)
  unfolding emergency_withdraw
  emergency_withdraw-Leaves signers token recovery s =
      ground (arith, require_all_signers-Ensures signers s.signer_list s)

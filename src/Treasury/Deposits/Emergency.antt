-- ===== src/Treasury/Deposits/Emergency.antt =====
-- Who must agree to an emergency withdrawal (contracts/treasury/src/deposits.rs).
use comebackhere_contracts.Prelude.{ℕ, ◌<◌, ◌≡◌, true, List, [], ◌∷◌, contains, arith}
use comebackhere_contracts.Host.{Env, Ensures}
use comebackhere_contracts.Multisig.{signer_weight}
use comebackhere_contracts.Multisig.Storage.{State}
use comebackhere_contracts.Treasury.Deposits.{require_all_signers, emergency_withdraw}

module _ {L : Type 0} (e : Env L) (signers : List ℕ) (s : State L) (x : ℕ) where
  require_all_signers-contains :
      (list : List ℕ)
      → contains list x ≡ true
      → 0 < signer_weight s x
      → Ensures
          (λ _ _. (contains signers x ≡ true) × (e.signed x ≡ true))
          (require_all_signers e signers list s)
  unfolding require_all_signers
  require_all_signers-contains [] listed active = ground arith
  require_all_signers-contains (y ∷ rest) listed active =
      ground (arith, require_all_signers-contains rest)

  -- If an emergency withdrawal succeeds, the contract is paused, and every registered signer with a
  -- weight above zero is named in the call and has signed it.
  pub emergency_withdraw_unanimous :
      (token recovery : ℕ)
      → contains s.signer_list x ≡ true
      → 0 < signer_weight s x
      → Ensures
          (λ _ _. (s.paused ≡ true) × (contains signers x ≡ true) × (e.signed x ≡ true))
          (emergency_withdraw e signers token recovery s)
  unfolding emergency_withdraw
  emergency_withdraw_unanimous token recovery listed active =
      ground (arith, require_all_signers-contains s.signer_list listed active)

-- ===== src/Treasury/Guards/Passed.antt =====
-- What a passed guard tells, and that it writes nothing.
use comebackhere_contracts.Prelude.{ℕ, ◌<◌, ◌≡◌, true, false, some, arith}
use comebackhere_contracts.Host.{Env, Ensures}
use comebackhere_contracts.Multisig.{signer_weight, require_authorized_signer}
use comebackhere_contracts.Multisig.Storage.{State}
use comebackhere_contracts.Treasury.Guards.{require_admin, require_not_paused}

module _ {L : Type 0} where
  pub require_not_paused-Ensures :
      (s : State L) → Ensures (λ _ s'. (s' ≡ s) × (s.paused ≡ false)) (require_not_paused s)
  unfolding require_not_paused
  require_not_paused-Ensures s = ground arith

  pub require_admin-Ensures :
      (e : Env L) (a : ℕ) (s : State L)
      → Ensures (λ _ s'. (s' ≡ s) × (e.signed a ≡ true) × (s.admin ≡ some a)) (require_admin e a s)
  unfolding require_admin
  require_admin-Ensures e a s = ground arith

  pub require_authorized_signer-Ensures :
      (e : Env L) (a : ℕ) (s : State L)
      → Ensures
          (λ _ s'. (s' ≡ s) × (e.signed a ≡ true) × (0 < signer_weight s a))
          (require_authorized_signer e a s)
  unfolding require_authorized_signer
  require_authorized_signer-Ensures e a s = ground arith

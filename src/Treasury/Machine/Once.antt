-- ===== src/Treasury/Machine/Once.antt =====
-- A settlement is paid at most once, over any calls.
use comebackhere_contracts.Prelude.{
  ℕ, ◌≡◌, ◌≢◌, refl, false, some, List, [], ◌∷◌, arith, Option-cases, inl, inr,
}
use comebackhere_contracts.Prelude.Int.{ℤ}
use comebackhere_contracts.Host.{Env, Ensures, Ensures-ok, ok}
use comebackhere_contracts.Multisig.Types.{Settlement, SettlementStatus}
use comebackhere_contracts.Multisig.Storage.{State}
use comebackhere_contracts.Treasury.Guards.{for_each_settlement, write_settlement}
use comebackhere_contracts.Treasury.Guards.Passed.{
  require_not_paused-Ensures, require_authorized_signer-Ensures,
}
use comebackhere_contracts.Treasury.Execution.{
  execute_settlement, execute_one, batch_execute_settlements, partially_execute_settlement,
}
use comebackhere_contracts.Treasury.Lifecycle.{is_live, IsSound}
use comebackhere_contracts.Treasury.Lifecycle.Paying.{
  check_executable-live, check_partial-live, execute_settlement-Keeps,
  partially_execute_settlement-Keeps,
}
use comebackhere_contracts.Treasury.Machine.{Op, run}
use comebackhere_contracts.Treasury.Machine.Histories.{run_final}

module _ {L : Type 0} (e : Env L) (signer id : ℕ) (token : ℕ) (s s' : State L) where
  -- what is stored after a payment
  execute_settlement-settlement :
      execute_settlement e signer id token s ≡ ok (tt, s')
      → (a : Settlement) × (s'.settlement id ≡ some a) × (is_live a.status ≡ false)
  unfolding execute_settlement write_settlement
  execute_settlement-settlement run = elim (Option-cases (s.settlement id)) [
    | inl missing ↦
        absurd (
          ground
            (arith, require_not_paused-Ensures s, require_authorized_signer-Ensures e signer s))
    | inr (a, found) ↦ (
      record a { status = SettlementStatus.executed },
      ground (
        arith,
        require_not_paused-Ensures s,
        require_authorized_signer-Ensures e signer s,
        check_executable-live e id token a s,
      ),
      refl,
    )
  ]

  partially_execute_settlement-settlement :
      (amount : ℤ)
      → partially_execute_settlement e signer id amount token s ≡ ok (tt, s')
      → (a : Settlement) × (s'.settlement id ≡ some a) × (is_live a.status ≡ false)
  unfolding partially_execute_settlement write_settlement
  partially_execute_settlement-settlement amount run = elim (Option-cases (s.settlement id)) [
    | inl missing ↦
        absurd (
          ground
            (arith, require_not_paused-Ensures s, require_authorized_signer-Ensures e signer s))
    | inr (a, found) ↦ (
      record a { status = SettlementStatus.partially_executed },
      ground (
        arith,
        require_not_paused-Ensures s,
        require_authorized_signer-Ensures e signer s,
        check_partial-live e id amount token a s,
      ),
      refl,
    )
  ]

module _ {L : Type 0} (e : Env L) (caller id token : ℕ) (amount : ℤ) (a : Settlement) (s : State L)
    (stored : s.settlement id ≡ some a) (final : is_live a.status ≡ false) where
  execute_settlement-final : (s' : State L) → execute_settlement e caller id token s ≢ ok (tt, s')
  unfolding execute_settlement
  execute_settlement-final s' run = ground (
    arith,
    require_not_paused-Ensures s,
    require_authorized_signer-Ensures e caller s,
    check_executable-live e id token a s,
  )

  partially_execute_settlement-final :
      (s' : State L) → partially_execute_settlement e caller id amount token s ≢ ok (tt, s')
  unfolding partially_execute_settlement
  partially_execute_settlement-final s' run = ground (
    arith,
    require_not_paused-Ensures s,
    require_authorized_signer-Ensures e caller s,
    check_partial-live e id amount token a s,
  )

  batch_execute_settlements-final :
      Ensures
        (λ paid s'. (paid ≡ []) × (s' ≡ s))
        (batch_execute_settlements e caller (id ∷ []) token s)
  unfolding batch_execute_settlements for_each_settlement execute_one
  batch_execute_settlements-final =
      ground (arith, require_not_paused-Ensures s, require_authorized_signer-Ensures e caller s)

module _ {L : Type 0} (e : Env L) (signer id token : ℕ) (s s₁ : State L) (calls : List (Env L × Op))
    (e₂ : Env L) (caller token₂ : ℕ) (amount₂ : ℤ) (s₂ : State L) where
  -- What the later payments do, once a record that is final is stored.
  no_payment :
      (a : Settlement)
      → (run calls s₁).settlement id ≡ some a
      → is_live a.status ≡ false
      → (execute_settlement e₂ caller id token₂ (run calls s₁) ≢ ok (tt, s₂))
        × (partially_execute_settlement e₂ caller id amount₂ token₂ (run calls s₁) ≢ ok (tt, s₂))
        × Ensures
            (λ paid s'. (paid ≡ []) × (s' ≡ run calls s₁))
            (batch_execute_settlements e₂ caller (id ∷ []) token₂ (run calls s₁))
  no_payment a stored final = (
    execute_settlement-final e₂ caller id token₂ amount₂ a (run calls s₁) stored final s₂,
    partially_execute_settlement-final e₂ caller id token₂ amount₂ a (run calls s₁) stored final s₂,
    batch_execute_settlements-final e₂ caller id token₂ amount₂ a (run calls s₁) stored final,
  )

  -- Once `execute_settlement` has paid a settlement that is stored soundly, after any calls no
  -- payment and no partial payment of it succeeds, and a batch with its id alone, if it succeeds,
  -- pays nothing and changes nothing.
  pub execute_settlement_pays_once :
      IsSound s id
      → execute_settlement e signer id token s ≡ ok (tt, s₁)
      → (execute_settlement e₂ caller id token₂ (run calls s₁) ≢ ok (tt, s₂))
        × (partially_execute_settlement e₂ caller id amount₂ token₂ (run calls s₁) ≢ ok (tt, s₂))
        × Ensures
            (λ paid s'. (paid ≡ []) × (s' ≡ run calls s₁))
            (batch_execute_settlements e₂ caller (id ∷ []) token₂ (run calls s₁))
  execute_settlement_pays_once sound first =
      let after = execute_settlement-settlement e signer id token s s₁ first in
      let kept =
        Ensures-ok _ _ tt s₁ first (execute_settlement-Keeps e signer id token s id sound) in
      no_payment after.0 (run_final calls s₁ id after.0 kept.1 after.1 after.2) after.2

  -- Once `partially_execute_settlement` has paid a part of a settlement that is stored soundly, after
  -- any calls no `execute_settlement` and no `partially_execute_settlement` of it succeeds, and a
  -- batch with its id alone, if it succeeds, pays nothing and changes nothing.
  pub partial_payment_is_the_last :
      (amount : ℤ)
      → IsSound s id
      → partially_execute_settlement e signer id amount token s ≡ ok (tt, s₁)
      → (execute_settlement e₂ caller id token₂ (run calls s₁) ≢ ok (tt, s₂))
        × (partially_execute_settlement e₂ caller id amount₂ token₂ (run calls s₁) ≢ ok (tt, s₂))
        × Ensures
            (λ paid s'. (paid ≡ []) × (s' ≡ run calls s₁))
            (batch_execute_settlements e₂ caller (id ∷ []) token₂ (run calls s₁))
  partial_payment_is_the_last amount sound first =
      let after = partially_execute_settlement-settlement e signer id token s s₁ amount first in
      let kept =
        Ensures-ok _ _ tt s₁ first
          (partially_execute_settlement-Keeps e signer id amount token s id sound) in
      no_payment after.0 (run_final calls s₁ id after.0 kept.1 after.1 after.2) after.2

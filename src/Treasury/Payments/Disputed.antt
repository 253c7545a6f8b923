-- ===== src/Treasury/Payments/Disputed.antt =====
-- Open disputes and payments (contracts/treasury/src/disputes.rs, settlements.rs).
use comebackhere_contracts.Prelude.{
  ℕ, zero, suc, ◌+◌, ◌≤◌, ◌<◌, ◌≡◌, ◌≢◌, Bool, true, Option, none, some, List, arith, if◌then◌else◌,
}
use comebackhere_contracts.Prelude.Int.{ℤ}
use comebackhere_contracts.Host.{Env, Ensures, Result, ok, Ensures-map, Ensures-ok}
use comebackhere_contracts.Multisig.Types.{Settlement, SettlementStatus, is_pending}
use comebackhere_contracts.Multisig.Storage.{State}
use comebackhere_contracts.Treasury.Guards.{write_settlement}
use comebackhere_contracts.Treasury.Guards.Passed.{
  require_not_paused-Ensures, require_authorized_signer-Ensures,
}
use comebackhere_contracts.Treasury.Execution.{check_executable, execute_settlement}
use comebackhere_contracts.Treasury.Disputes.{
  is_open_for, any_from, has_open_dispute, hold_if_pending, raise_dispute,
}
use comebackhere_contracts.Treasury.Payments.{IsExecutable}

-- The search from `i` over `n` ids finds an id in that range that passes the test.
pub any_from-hit :
    (test : ℕ → Bool) (n i id : ℕ) → i ≤ id → id < i + n → test id ≡ true → any_from test n i ≡ true
unfolding any_from
any_from-hit test zero i id lo hi hit = absurd (omega arith)
any_from-hit test (suc n) i id lo hi hit = ground (arith, any_from-hit test n (i + 1) id)

open_dispute-hit :
    {L : Type 0} (s : State L) (id i : ℕ)
    → 0 < i
    → i ≤ s.dispute_count
    → is_open_for id (s.dispute i) ≡ true
    → has_open_dispute s id ≡ true
unfolding has_open_dispute
open_dispute-hit s id i lo hi hit =
    any_from-hit (λ j. is_open_for id (s.dispute j)) s.dispute_count 1 i (omega arith) (omega arith)
      hit

module _ {L : Type 0} (e : Env L) (claimant id counterparty : ℕ) (amount : ℤ) (expires_at : ℕ)
    (evidence : Option (List ℕ)) (s : State L) where
  abbrev raised : Result (ℕ × State L)
  raised = raise_dispute e claimant id counterparty amount expires_at evidence s

  raise_dispute-dispute :
      Ensures
        (λ _ s'. (0 < s'.dispute_count) × (is_open_for id (s'.dispute s'.dispute_count) ≡ true))
        raised
  unfolding raise_dispute hold_if_pending write_settlement
  raise_dispute-dispute = ground (arith, require_not_paused-Ensures s)

  raise_dispute_opens : Ensures (λ _ s'. has_open_dispute s' id ≡ true) raised
  raise_dispute_opens =
      Ensures-map _ _ raised
        (λ _ s' h. open_dispute-hit s' id s'.dispute_count h.0 (omega arith) h.1)
        raise_dispute-dispute

  raise_dispute-settlement :
      (a : Settlement)
      → s.settlement id ≡ some a
      → Ensures
          (λ _ s'.
            (s'.hold_expiry ≡ s.hold_expiry)
            × (s'.threshold ≡ s.threshold)
            × (s'.token_allowlist ≡ s.token_allowlist)
            × (s'.compliance_id ≡ s.compliance_id)
            × (s'.settlement id
                ≡ some (
                    if is_pending a.status
                    then record a { status = SettlementStatus.on_hold }
                    else a)))
          raised
  unfolding raise_dispute hold_if_pending write_settlement
  raise_dispute-settlement a stored = ground (arith, require_not_paused-Ensures s)

  -- After a dispute was raised on a pending settlement with no recorded hold expiry, no signer can
  -- have the settlement paid by `execute_settlement`, at any time and with any token.
  pub dispute_blocks_execution :
      (a : Settlement) (dispute_id : ℕ) (s' : State L) (e' : Env L) (signer token : ℕ)
      → s.settlement id ≡ some a
      → a.status ≡ SettlementStatus.pending
      → s.hold_expiry id ≡ none
      → raised ≡ ok (dispute_id, s')
      → (r : Unit {0} × State L) → execute_settlement e' signer id token s' ≢ ok r
  unfolding execute_settlement check_executable
  dispute_blocks_execution a dispute_id s' e' signer token stored pending permanent run r paid =
      let h = Ensures-ok _ raised dispute_id s' run (raise_dispute-settlement a stored) in
      ground
        (arith, h, require_not_paused-Ensures s', require_authorized_signer-Ensures e' signer s')

  -- A settlement whose hold has run out stays payable when a dispute is raised on it: the dispute is
  -- open, and every condition under which `execute_settlement` pays still holds.
  pub dispute_leaves_lapsed_hold-IsExecutable :
      (a : Settlement) (dispute_id : ℕ) (s' : State L) (e' : Env L) (token : ℕ)
      → s.settlement id ≡ some a
      → a.status ≡ SettlementStatus.on_hold
      → IsExecutable e' s id token a
      → raised ≡ ok (dispute_id, s')
      → (has_open_dispute s' id ≡ true)
        × (s'.settlement id ≡ some a)
        × IsExecutable e' s' id token a
  dispute_leaves_lapsed_hold-IsExecutable a dispute_id s' e' token stored held x run =
      let h = Ensures-ok _ raised dispute_id s' run (raise_dispute-settlement a stored) in
      (
        Ensures-ok _ raised dispute_id s' run raise_dispute_opens,
        ground (arith, h),
        ground (arith, h, x),
      )

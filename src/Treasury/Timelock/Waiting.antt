-- ===== src/Treasury/Timelock/Waiting.antt =====
-- The waiting time of signer changes (contracts/treasury/src/timelock.rs).
use comebackhere_contracts.Prelude.{ℕ, ◌+◌, ◌≤◌, ◌≡◌, ◌≢◌, true, false, some, arith, ◌∙◌}
use comebackhere_contracts.Host.{Env, Ensures, Ensures-ok, ok}
use comebackhere_contracts.Multisig.Types.{
  SignerChangeKind, SignerChangeProposal, SignerChangeStatus, is_pending_change,
}
use comebackhere_contracts.Multisig.Storage.{State}
use comebackhere_contracts.Treasury.Timelock.{
  propose_signer_change, execute_signer_change, cancel_signer_change, apply_change,
  current_timelock_delay,
}
use comebackhere_contracts.Treasury.Guards.Passed.{require_admin-Ensures}

module _ {L : Type 0} where
  proposed :
      (e : Env L) (admin : ℕ) (kind : SignerChangeKind) (s : State L)
      → Ensures
          (λ id s'.
            (id ≡ s.signer_change_count + 1)
            × (s'.signer ≡ s.signer)
            × (s'.threshold ≡ s.threshold)
            × (s'.timelock_delay_secs ≡ s.timelock_delay_secs)
            × (s'.signer_change id
                ≡ some (record {
                  id = id;
                  kind = kind;
                  proposed_at = e.now;
                  executable_at = e.now + current_timelock_delay s;
                  status = SignerChangeStatus.pending;
                })))
          (propose_signer_change e admin kind s)
  unfolding propose_signer_change
  proposed e admin kind s = ground (arith, require_admin-Ensures e admin s)

  execute_signer_change-Ensures :
      (e : Env L) (admin id : ℕ) (q : SignerChangeProposal) (s : State L)
      → s.signer_change id ≡ some q
      → Ensures
          (λ p s'.
            (e.signed admin ≡ true)
            × (s.admin ≡ some admin)
            × (is_pending_change q.status ≡ true)
            × (q.executable_at ≤ e.now)
            × (p ≡ record q { status = SignerChangeStatus.executed })
            × (s'.signer_change id ≡ some p))
          (execute_signer_change e admin id s)
  unfolding execute_signer_change apply_change
  execute_signer_change-Ensures e admin id q s stored =
      ground (arith, require_admin-Ensures e admin s)

  closed_change :
      (e : Env L) (admin id : ℕ) (q : SignerChangeProposal) (s : State L)
      → s.signer_change id ≡ some q
      → is_pending_change q.status ≡ false
      → (p : SignerChangeProposal) (s' : State L)
      → (execute_signer_change e admin id s ≢ ok (p, s'))
        × (cancel_signer_change e admin id s ≢ ok (p, s'))
  unfolding execute_signer_change cancel_signer_change
  closed_change e admin id q s stored closed p s' = (
    λ run. ground (arith, require_admin-Ensures e admin s),
    λ run. ground (arith, require_admin-Ensures e admin s),
  )

module _ {L : Type 0} (e : Env L) (admin id : ℕ) (kind : SignerChangeKind) (s s₁ : State L) where
  -- A change that was proposed at the time `now` of a call, with the delay that was then in force:
  -- whatever happens in between, as long as the stored proposal is the same, executing it succeeds
  -- only for the stored administrator, and at a time that is later than `now` by at least that delay.
  -- It is then marked executed, and as long as that record stays, neither another execution nor a
  -- cancellation of it succeeds.
  pub signer_change_waits :
      (e₂ e₃ : Env L) (caller other : ℕ) (s₂ s₃ s₄ s₅ : State L) (p r : SignerChangeProposal)
      → propose_signer_change e admin kind s ≡ ok (id, s₁)
      → s₂.signer_change id ≡ s₁.signer_change id
      → execute_signer_change e₂ caller id s₂ ≡ ok (p, s₃)
      → s₄.signer_change id ≡ s₃.signer_change id
      → (e.now + current_timelock_delay s ≤ e₂.now)
        × (e₂.signed caller ≡ true)
        × (s₂.admin ≡ some caller)
        × (p.kind ≡ kind)
        × (p.status ≡ SignerChangeStatus.executed)
        × (execute_signer_change e₃ other id s₄ ≢ ok (r, s₅))
        × (cancel_signer_change e₃ other id s₄ ≢ ok (r, s₅))
  signer_change_waits e₂ e₃ caller other s₂ s₃ s₄ s₅ p r made same run kept =
      let made_as = Ensures-ok _ _ id s₁ made (proposed e admin kind s) in
      let q : SignerChangeProposal = record {
        id = id;
        kind = kind;
        proposed_at = e.now;
        executable_at = e.now + current_timelock_delay s;
        status = SignerChangeStatus.pending;
      } in
      let done =
        Ensures-ok _ _ p s₃ run
          (execute_signer_change-Ensures e₂ caller id q s₂ (same ∙ made_as.4)) in
      let closed = closed_change e₃ other id p s₄ (kept ∙ done.5) (ground (arith, done)) r s₅ in
      (done.3, done.0, done.1, ground (arith, done), ground (arith, done), closed.0, closed.1)

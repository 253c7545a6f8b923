-- ===== src/Treasury/Timelock/Quorum.antt =====
-- The removal of a signer, directly (contracts/treasury/src/signers.rs) and through the timelock
-- (contracts/treasury/src/timelock.rs).
use comebackhere_contracts.Prelude.{
  ℕ, ◌-◌, ◌≤◌, ◌<◌, ◌≡◌, true, some, ◌∷◌, put, remove, without, get_or, arith,
}
use comebackhere_contracts.Errors.{error, quorum_break}
use comebackhere_contracts.Host.{Env, ok, err}
use comebackhere_contracts.Multisig.Types.{
  SignerChangeKind, SignerChangeProposal, SignerChangeStatus,
}
use comebackhere_contracts.Multisig.Storage.{State, Event}
use comebackhere_contracts.Treasury.Guards.{require_admin}
use comebackhere_contracts.Treasury.Signers.{remove_signer, saturating_weight}
use comebackhere_contracts.Treasury.Timelock.{execute_signer_change, apply_change}

module _ {L : Type 0} (e : Env L) (admin signer id : ℕ) (q : SignerChangeProposal)
    (s : State L) where
  abbrev executed_change : SignerChangeProposal
  executed_change = record q { status = SignerChangeStatus.executed }

  -- Where the other signers' weights do not reach the threshold, the administrator's direct removal
  -- of a signer fails with `QuorumBreak`, and the same removal as a due change of the timelock
  -- succeeds and leaves the threshold as it is.
  pub timelock_ignores_quorum :
      e.signed admin ≡ true
      → s.admin ≡ some admin
      → saturating_weight s.signer s.signer_list 0 - get_or (s.signer signer) 0
        < get_or s.threshold 0
      → s.signer_change id ≡ some q
      → q.kind ≡ SignerChangeKind.remove_signer signer
      → q.status ≡ SignerChangeStatus.pending
      → q.executable_at ≤ e.now
      → (remove_signer e admin signer s ≡ err (error quorum_break))
        × (execute_signer_change e admin id s
            ≡ ok (
              executed_change,
              record s {
                signer = remove signer s.signer;
                signer_list = without s.signer_list signer;
                signer_change = put id executed_change s.signer_change;
                events = Event.signer_change_executed id executed_change ∷ s.events;
              },
            ))
  unfolding remove_signer execute_signer_change apply_change require_admin
  timelock_ignores_quorum signed is_admin short stored kind pending due =
      (ground arith, ground arith)

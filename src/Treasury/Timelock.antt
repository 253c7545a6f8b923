-- ===== src/Treasury/Timelock.antt =====
-- contracts/treasury/src/timelock.rs: signer and threshold changes that wait.
pub mod Waiting
pub mod Quorum
use comebackhere_contracts.Prelude.{
  ℕ, ◌+◌, ◌^◌, Bool, true, false, not, ◌&&◌, ◌||◌, Option, none, some, List, [], ◌∷◌, get_or, put,
  remove, contains, without, push_back, ltb, leb, ◌==◌, if◌then◌else◌,
}
use comebackhere_contracts.Errors.{
  arithmetic_overflow, invalid_timelock_delay, signer_change_not_found,
  signer_change_already_finalised, signer_change_too_early, zero_threshold, threshold_unreachable,
}
use comebackhere_contracts.Host.{Env, Call, ◌>>=◌, ◌>>◌, pure, gets, modify, fail_if, or_fail}
use comebackhere_contracts.Multisig.Types.{
  SignerChangeKind, SignerChangeProposal, SignerChangeStatus, is_pending_change, set_signer,
  remove_signer, update_threshold, update_timelock_delay,
}
use comebackhere_contracts.Multisig.Storage.{State, Event}
use comebackhere_contracts.Treasury.Guards.{emit, require_admin}
use comebackhere_contracts.Treasury.Signers.{insert_signer}
use comebackhere_contracts.Treasury.Admin.{total_weight}

abbrev pub signer_change_timelock_secs : ℕ
signer_change_timelock_secs = 86400

abbrev pub min_timelock_delay_secs : ℕ
min_timelock_delay_secs = 3600

abbrev pub max_timelock_delay_secs : ℕ
max_timelock_delay_secs = 2592000

abbrev out_of_bounds : ℕ → Bool
out_of_bounds seconds = ltb seconds min_timelock_delay_secs || ltb max_timelock_delay_secs seconds

abbrev invalid_delay : SignerChangeKind → Bool
invalid_delay (update_timelock_delay seconds) = out_of_bounds seconds
invalid_delay _ = false

module _ {L : Type 0} where
  unfoldable pub current_timelock_delay : State L → ℕ
  current_timelock_delay s = get_or s.timelock_delay_secs signer_change_timelock_secs

  unfoldable pub propose_signer_change : Env L → ℕ → SignerChangeKind → Call (State L) ℕ
  unfolding current_timelock_delay
  propose_signer_change e admin kind = do
    require_admin e admin
    count ← gets (λ s. s.signer_change_count)
    let id = count + 1
    fail_if (leb (2 ^ 64) id) arithmetic_overflow
    fail_if (invalid_delay kind) invalid_timelock_delay
    delay ← gets (λ s. current_timelock_delay s)
    fail_if (leb (2 ^ 64) (e.now + delay)) arithmetic_overflow
    let proposal : SignerChangeProposal = record {
      id = id;
      kind = kind;
      proposed_at = e.now;
      executable_at = e.now + delay;
      status = SignerChangeStatus.pending;
    }
    modify (λ s. record s {
      signer_change = put id proposal s.signer_change;
      signer_change_count = id;
    })
    emit (Event.signer_change_proposed id proposal)
    pure id

  unfoldable pub apply_change : SignerChangeKind → Call (State L) (Unit {0})
  unfolding total_weight
  apply_change (set_signer signer weight) = modify (λ s. record s {
    signer = put signer weight s.signer;
    signer_list =
        if ltb 0 weight then insert_signer s.signer_list signer else without s.signer_list signer;
  })
  apply_change (remove_signer signer) = modify (λ s. record s {
    signer = remove signer s.signer;
    signer_list = without s.signer_list signer;
  })
  apply_change (update_threshold new_threshold) = do
    fail_if (new_threshold == 0) zero_threshold
    total ← total_weight
    fail_if (ltb total new_threshold) threshold_unreachable
    modify (λ s. record s { threshold = some new_threshold })
  apply_change (update_timelock_delay seconds) = do
    fail_if (out_of_bounds seconds) invalid_timelock_delay
    modify (λ s. record s { timelock_delay_secs = some seconds })

  abbrev load_change : ℕ → Call (State L) SignerChangeProposal
  load_change id = do
    found ← gets (λ s. s.signer_change id)
    proposal ← or_fail found signer_change_not_found
    fail_if (not (is_pending_change proposal.status)) signer_change_already_finalised
    pure proposal

  unfoldable pub execute_signer_change : Env L → ℕ → ℕ → Call (State L) SignerChangeProposal
  execute_signer_change e admin id = do
    require_admin e admin
    proposal ← load_change id
    fail_if (ltb e.now proposal.executable_at) signer_change_too_early
    apply_change proposal.kind
    let updated = record proposal { status = SignerChangeStatus.executed }
    modify (λ s. record s { signer_change = put id updated s.signer_change })
    emit (Event.signer_change_executed id updated)
    pure updated

  unfoldable pub cancel_signer_change : Env L → ℕ → ℕ → Call (State L) SignerChangeProposal
  cancel_signer_change e admin id = do
    require_admin e admin
    proposal ← load_change id
    let updated = record proposal { status = SignerChangeStatus.cancelled }
    modify (λ s. record s { signer_change = put id updated s.signer_change })
    emit (Event.signer_change_cancelled id updated)
    pure updated

-- ===== src/Tests/Settlements.antt =====
-- The theorems on settlements, at concrete calls.
use comebackhere_contracts.Prelude.{
  ℕ, ◌≡◌, refl, true, false, some, List, [], ◌∷◌, arith, inl, inr, Distinct, put, contains, ◌<◌,
  ◌≤◌, ◌^◌, assign, ◌≢◌,
}
use comebackhere_contracts.Prelude.Int.{pos, ◌<ℤ◌, ◌+ℤ◌}
use comebackhere_contracts.Host.{Env, Ensures, ok, err}
use comebackhere_contracts.Errors.{error, execution_deadline_exceeded}
use comebackhere_contracts.Multisig.Types.{Settlement, SettlementStatus, MaybeAddress}
use comebackhere_contracts.Multisig.Storage.{State, Event}
use comebackhere_contracts.Multisig.{
  signer_weight, require_authorized_signer, record_approval, meets_threshold,
}
use comebackhere_contracts.Treasury.Guards.{
  initialize, write_settlement, require_not_paused, require_compliance_allowed,
}
use comebackhere_contracts.Treasury.Proposals.{propose, require_allowed_for_treasury}
use comebackhere_contracts.Treasury.Execution.{
  execute_settlement, check_executable, batch_execute_settlements, partially_execute_settlement,
  check_partial,
}
use comebackhere_contracts.Treasury.Lifecycle.{Continues}
use comebackhere_contracts.Treasury.Machine.{Op, run, step, call, deployed}
use comebackhere_contracts.Treasury.Machine.Histories.{run_final, run_terms, run_sound}
use comebackhere_contracts.Treasury.Payments.{IsActiveSigner, IsExecutable, paid, paid_state}
use comebackhere_contracts.Treasury.Payments.Whole.{
  execute_settlement_pays, execute_settlement_succeeds,
}
use comebackhere_contracts.Treasury.Payments.Batch.{
  batch_ignores_deadline, batch_leaves_index_stale,
}
use comebackhere_contracts.Treasury.PendingIndex.{stored_pending}
use comebackhere_contracts.Treasury.Machine.Indexing.{run_indexed}
use comebackhere_contracts.Treasury.Machine.Once.{
  execute_settlement_pays_once, partial_payment_is_the_last,
}
use comebackhere_contracts.Tests.{world, opened, payable, holding}

abbrev late_calls : List (Env ℕ × Op)
late_calls =
    (world 20, Op.execute_settlement 5 1 3)
    ∷ (world 30, Op.force_cancel_settlement 1 1)
    ∷ (world 40, Op.propose 5 7 (pos 9) MaybeAddress.none 0)
    ∷ []

run_final_example : (run late_calls (holding (paid payable))).settlement 1 ≡ some (paid payable)
unfolding deployed
run_final_example =
    run_final late_calls (holding (paid payable)) 1 (paid payable)
      (omega arith, refl, omega arith, (refl, tt), omega arith) refl refl

run_terms_example :
    (b : Settlement) × ((run late_calls (holding payable)).settlement 1 ≡ some b)
    × Continues payable b
unfolding deployed
run_terms_example =
    run_terms late_calls (holding payable) 1 payable
      (omega arith, refl, omega arith, (refl, tt), omega arith) refl

abbrev one_proposal : List (Env ℕ × Op)
one_proposal = (world 10, Op.propose 5 7 (pos 100) MaybeAddress.none 50) ∷ []

run_sound_example :
    (1 ≤ (run one_proposal opened).settlement_count)
    × (payable.id ≡ 1)
    × (pos 0 <ℤ payable.amount)
    × Distinct payable.approvals
    × (payable.approval_weight < 2 ^ 32)
unfolding initialize deployed run step call propose require_not_paused require_authorized_signer
    require_allowed_for_treasury record_approval signer_weight write_settlement
run_sound_example = run_sound (world 1) 1 2 ((5, 2) ∷ []) 0 one_proposal opened 1 payable refl refl

payable-IsExecutable : IsExecutable (world 20) (holding payable) 1 3 payable
unfolding deployed
payable-IsExecutable = record {
  unheld = inl refl;
  quorum = (omega arith, omega arith);
  timely = inr (omega arith);
  foreign = λ same. absurd (omega arith);
  listed = inl refl;
  cleared = tt;
}

execute_settlement_pays_example :
    (a : Settlement) × (ledger : ℕ) × IsActiveSigner (world 20) (holding payable) 5
    × ((holding payable).settlement 1 ≡ some a)
    × IsExecutable (world 20) (holding payable) 1 3 a
    × (some 1 ≡ some ledger)
    × (paid_state 1 payable 1 (holding payable) ≡ paid_state 1 a ledger (holding payable))
unfolding deployed execute_settlement check_executable require_not_paused require_authorized_signer
    require_compliance_allowed meets_threshold signer_weight write_settlement
execute_settlement_pays_example =
    execute_settlement_pays (world 20) 5 1 3 (holding payable)
      (paid_state 1 payable 1 (holding payable)) refl

execute_settlement_succeeds_example :
    execute_settlement (world 20) 5 1 3 (holding payable)
    ≡ ok (tt, paid_state 1 payable 1 (holding payable))
unfolding deployed signer_weight
execute_settlement_succeeds_example =
    execute_settlement_succeeds (world 20) 5 1 3 (holding payable) payable 1
      (refl, refl, omega arith) refl payable-IsExecutable refl

batch_ignores_deadline_example :
    (execute_settlement (world 60) 5 1 3 (holding payable)
      ≡ err (error execution_deadline_exceeded))
    × (batch_execute_settlements (world 60) 5 (1 ∷ []) 3 (holding payable)
        ≡ ok (
          paid payable ∷ [],
          record (holding payable) {
            settlement = put 1 (paid payable) (holding payable).settlement;
            events = Event.settlement_executed 1 (paid payable) ∷ (holding payable).events;
            ledger = 1;
          },
        ))
unfolding deployed signer_weight
batch_ignores_deadline_example =
    batch_ignores_deadline (world 60) 5 1 3 (holding payable) payable 1 (refl, refl, omega arith)
      refl refl (omega arith, omega arith) (omega arith) (omega arith)
      (λ same. absurd (omega arith)) (inl refl) refl

batch_leaves_index_stale_example :
    (s' : State ℕ) × (batch_execute_settlements (world 60) 5 (1 ∷ []) 3 (holding payable)
      ≡ ok (paid payable ∷ [], s'))
    × (contains s'.pending_settlement_index 1 ≡ true)
    × (stored_pending (s'.settlement 1) ≡ false)
unfolding deployed signer_weight
batch_leaves_index_stale_example =
    batch_leaves_index_stale (world 60) 5 1 3 (holding payable) payable 1 (refl, refl, omega arith)
      refl refl (omega arith, omega arith) (λ same. absurd (omega arith)) (inl refl) refl refl

abbrev after_payment : State ℕ
unfolding write_settlement
after_payment = paid_state 1 payable 1 (holding payable)

execute_settlement_pays_once_example :
    (execute_settlement (world 45) 5 1 3 (run late_calls after_payment) ≢ ok (tt, after_payment))
    × (partially_execute_settlement (world 45) 5 1 (pos 30) 3 (run late_calls after_payment)
        ≢ ok (tt, after_payment))
    × Ensures
        (λ paid s'. (paid ≡ []) × (s' ≡ run late_calls after_payment))
        (batch_execute_settlements (world 45) 5 (1 ∷ []) 3 (run late_calls after_payment))
unfolding deployed execute_settlement check_executable require_not_paused require_authorized_signer
    require_compliance_allowed meets_threshold signer_weight write_settlement
execute_settlement_pays_once_example =
    execute_settlement_pays_once (world 20) 5 1 3 (holding payable) after_payment late_calls
      (world 45) 5 3 (pos 30) after_payment
      (omega arith, refl, omega arith, (refl, tt), omega arith) refl

abbrev after_part : State ℕ
unfolding write_settlement
after_part =
    record (write_settlement 1 (record payable { status = SettlementStatus.partially_executed })
      (holding payable)) {
        partial_executed_total = assign 1 (pos 30) (holding payable).partial_executed_total;
        events =
            Event.settlement_partial_executed 1
              (record payable { status = SettlementStatus.partially_executed })
            ∷ (holding payable).events;
        ledger = 1;
      }

partial_payment_is_the_last_example :
    (execute_settlement (world 45) 5 1 3 (run late_calls after_part) ≢ ok (tt, after_part))
    × (partially_execute_settlement (world 45) 5 1 (pos 30) 3 (run late_calls after_part)
        ≢ ok (tt, after_part))
    × Ensures
        (λ paid s'. (paid ≡ []) × (s' ≡ run late_calls after_part))
        (batch_execute_settlements (world 45) 5 (1 ∷ []) 3 (run late_calls after_part))
unfolding deployed partially_execute_settlement check_partial require_not_paused
    require_authorized_signer meets_threshold signer_weight write_settlement ◌+ℤ◌
partial_payment_is_the_last_example =
    partial_payment_is_the_last (world 20) 5 1 3 (holding payable) after_part late_calls (world 45)
      5 3 (pos 30) after_part (pos 30) (omega arith, refl, omega arith, (refl, tt), omega arith)
      refl

abbrev proposal_and_cancellation : List (Env ℕ × Op)
proposal_and_cancellation =
    (world 10, Op.propose 5 7 (pos 100) MaybeAddress.none 50)
    ∷ (world 20, Op.propose 5 7 (pos 9) MaybeAddress.none 0)
    ∷ (world 30, Op.cancel_settlement 5 1)
    ∷ []

run_indexed_example :
    contains (run proposal_and_cancellation opened).pending_settlement_index 2
    ≡ stored_pending ((run proposal_and_cancellation opened).settlement 2)
unfolding initialize deployed
run_indexed_example =
    run_indexed (world 1) 1 2 ((5, 2) ∷ []) 0 proposal_and_cancellation opened 2 refl
      (refl, (refl, (refl, tt)))

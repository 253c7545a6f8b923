-- ===== src/Tests/Accounts.antt =====
-- The theorems on deposits, signers, the administrator, the views and the arithmetic, at concrete
-- calls.
use comebackhere_contracts.Prelude.{
  ℕ, ◌+◌, ◌<◌, ◌≤◌, ◌≡◌, ◌≢◌, ◌⊎◌, refl, true, false, none, some, [], ◌∷◌, arith, put, assign,
  remove, without, take, drop, contains,
}
use comebackhere_contracts.Prelude.Int.{pos, ◌+ℤ◌, ◌-ℤ◌, ◌<ℤ◌, ◌≤ℤ◌}
use comebackhere_contracts.Errors.{error, quorum_break}
use comebackhere_contracts.Host.{Ensures, ok, err}
use comebackhere_contracts.Math.{is_valid_bps, apply_bps, split_bps}
use comebackhere_contracts.Math.Split.{split_bps_exact, split_bps_parts}
use comebackhere_contracts.Multisig.{signer_weight, record_approval, revoke_approval}
use comebackhere_contracts.Multisig.Approvals.{revoke_approval-record_approval}
use comebackhere_contracts.Multisig.Types.{
  SignerChangeKind, SignerChangeProposal, SignerChangeStatus,
}
use comebackhere_contracts.Multisig.Storage.{State, Event}
use comebackhere_contracts.Treasury.Guards.{require_admin}
use comebackhere_contracts.Treasury.Machine.{deployed}
use comebackhere_contracts.Treasury.Deposits.{emergency_withdraw, withdraw}
use comebackhere_contracts.Treasury.Deposits.Amounts.{withdraw_debits, withdraw_within_limit}
use comebackhere_contracts.Treasury.Deposits.Emergency.{emergency_withdraw_unanimous}
use comebackhere_contracts.Treasury.Signers.{remove_signer}
use comebackhere_contracts.Treasury.Timelock.{
  propose_signer_change, execute_signer_change, cancel_signer_change, apply_change,
  current_timelock_delay,
}
use comebackhere_contracts.Treasury.Timelock.Waiting.{signer_change_waits}
use comebackhere_contracts.Treasury.Timelock.Quorum.{timelock_ignores_quorum}
use comebackhere_contracts.Treasury.Admin.{transfer_admin, accept_admin}
use comebackhere_contracts.Treasury.Admin.Handover.{admin_handover, admin_handover_succeeds}
use comebackhere_contracts.Treasury.Views.{
  get_pending_settlements, get_pending_settlements_page, get_settlements_by_merchant,
}
use comebackhere_contracts.Treasury.Views.Pages.{stored_under, pages}
use comebackhere_contracts.Tests.{world, opened, payable, holding}

abbrev removal : SignerChangeStatus → SignerChangeProposal
removal status = record {
  id = 1;
  kind = SignerChangeKind.remove_signer 5;
  proposed_at = 10;
  executable_at = 86410;
  status = status;
}

abbrev removal_proposed : State ℕ
unfolding deployed
removal_proposed = record opened {
  signer_change = put 1 (removal SignerChangeStatus.pending) (λ _. none);
  signer_change_count = 1;
  events = Event.signer_change_proposed 1 (removal SignerChangeStatus.pending) ∷ opened.events;
}

abbrev removal_done : State ℕ
removal_done = record removal_proposed {
  signer = remove 5 removal_proposed.signer;
  signer_list = without removal_proposed.signer_list 5;
  signer_change = put 1 (removal SignerChangeStatus.executed) removal_proposed.signer_change;
  events =
      Event.signer_change_executed 1 (removal SignerChangeStatus.executed)
      ∷ removal_proposed.events;
}

signer_change_waits_example :
    (10 + current_timelock_delay opened ≤ 86410)
    × (true ≡ true)
    × (removal_proposed.admin ≡ some 1)
    × (SignerChangeKind.remove_signer 5 ≡ SignerChangeKind.remove_signer 5)
    × (SignerChangeStatus.executed ≡ SignerChangeStatus.executed)
    × (execute_signer_change (world 90000) 1 1 removal_done
        ≢ ok (removal SignerChangeStatus.executed, removal_done))
    × (cancel_signer_change (world 90000) 1 1 removal_done
        ≢ ok (removal SignerChangeStatus.executed, removal_done))
unfolding deployed propose_signer_change execute_signer_change apply_change require_admin
    current_timelock_delay
signer_change_waits_example =
    signer_change_waits (world 10) 1 1 (SignerChangeKind.remove_signer 5) opened removal_proposed
      (world 86410) (world 90000) 1 1 removal_proposed removal_done removal_done removal_done
      (removal SignerChangeStatus.executed) (removal SignerChangeStatus.executed) refl refl refl
      refl

timelock_ignores_quorum_example :
    (remove_signer (world 86410) 1 5 removal_proposed ≡ err (error quorum_break))
    × (execute_signer_change (world 86410) 1 1 removal_proposed
        ≡ ok (removal SignerChangeStatus.executed, removal_done))
unfolding deployed
timelock_ignores_quorum_example =
    timelock_ignores_quorum (world 86410) 1 5 1 (removal SignerChangeStatus.pending)
      removal_proposed refl refl (omega arith) refl refl refl (omega arith)

abbrev nominated : State ℕ
unfolding deployed
nominated = record opened {
  pending_admin = some (9, 110);
  events = Event.admin_transfer_proposed 9 110 ∷ opened.events;
}

abbrev handed_over : State ℕ
unfolding deployed
handed_over = record nominated {
  admin = some 9;
  pending_admin = none;
  events = Event.admin_transferred 9 ∷ nominated.events;
}

admin_handover_example :
    (◌≡◌ {A = ℕ} 9 9)
    × (true ≡ true)
    × (50 < 10 + 100)
    × (handed_over.admin ≡ some 9)
    × (handed_over.pending_admin ≡ none)
unfolding deployed transfer_admin accept_admin require_admin
admin_handover_example =
    admin_handover (world 10) 1 9 100 opened nominated (world 50) 9 nominated refl refl

admin_handover_succeeds_example : accept_admin (world 50) 9 nominated ≡ ok (tt, handed_over)
unfolding deployed transfer_admin require_admin
admin_handover_succeeds_example =
    admin_handover_succeeds (world 10) 1 9 100 opened nominated (world 50) nominated refl refl refl
      (omega arith) (omega arith)

-- holder 4 has 70 of token 3, and may withdraw 60 in 1000 seconds
abbrev funded : State ℕ
unfolding deployed
funded = record opened {
  balance = assign 4 (assign 3 (pos 70) (λ _. pos 0)) (λ _ _. pos 0);
  token_total = assign 3 (pos 70) (λ _. pos 0);
  withdrawal_limit_per_window = pos 60;
  withdrawal_window_secs = 1000;
}

withdraw_debits_example :
    Ensures
      (λ _ s'.
        (funded.paused ≡ false)
        × (true ≡ true)
        × (pos 0 <ℤ pos 30)
        × (pos 30 ≤ℤ funded.balance 4 3)
        × (s'.balance
            ≡ assign 4 (assign 3 (funded.balance 4 3 -ℤ pos 30) (funded.balance 4)) funded.balance)
        × (s'.token_total ≡ assign 3 (funded.token_total 3 -ℤ pos 30) funded.token_total))
      (withdraw (world 10) 4 3 (pos 30) funded)
withdraw_debits_example = withdraw_debits (world 10) 4 3 (pos 30) funded

withdraw_within_limit_example :
    Ensures
      (λ _ s'.
        (s'.withdrawn_in_window 4 ≤ℤ funded.withdrawal_limit_per_window)
        × (((10 < funded.withdrawal_window_start 4 + 1000)
              × (s'.withdrawn_in_window 4 ≡ funded.withdrawn_in_window 4 +ℤ pos 30)
              × (s'.withdrawal_window_start 4 ≡ funded.withdrawal_window_start 4))
            ⊎ (((◌≡◌ {A = ℕ} 1000 0) ⊎ (funded.withdrawal_window_start 4 + 1000 ≤ 10))
                × (s'.withdrawn_in_window 4 ≡ pos 30)
                × (s'.withdrawal_window_start 4 ≡ 10))))
      (withdraw (world 10) 4 3 (pos 30) funded)
unfolding deployed
withdraw_within_limit_example = withdraw_within_limit (world 10) 4 3 (pos 30) funded (omega arith)

revoke_approval-record_approval_example :
    let seen : State ℕ = record opened {
      signer_last_active = put 5 20 opened.signer_last_active;
    } in
    (record_approval (world 20) (1 ∷ []) 1 5 opened ≡ ok ((1 ∷ 5 ∷ [], 3), seen))
    × (record_approval (world 20) (1 ∷ 5 ∷ []) 3 5 seen
        ≡ ok (
          (1 ∷ 5 ∷ [], 3),
          record seen { signer_last_active = put 5 20 seen.signer_last_active },
        ))
    × (revoke_approval seen (1 ∷ 5 ∷ []) 3 5 ≡ some (1 ∷ [], 1))
unfolding deployed signer_weight
revoke_approval-record_approval_example =
    revoke_approval-record_approval (world 20) (1 ∷ []) 1 5 opened refl (omega arith)

split_bps_exact_example : pos 33 +ℤ pos 68 ≡ pos 101
unfolding split_bps apply_bps ◌-ℤ◌
split_bps_exact_example = split_bps_exact (pos 101) 3333 (pos 33) (pos 68) refl

split_bps_parts_example : (split_bps (pos 101) 3333 ≡ some (pos 33, pos 68)) × (33 ≤ 101)
unfolding is_valid_bps
split_bps_parts_example = split_bps_parts 101 3333 refl (omega arith) (omega arith)

pages_example :
    (get_pending_settlements (holding payable)
      ≡ stored_under (holding payable).settlement (holding payable).pending_settlement_index)
    × (get_pending_settlements_page (holding payable) 0 1
        ≡ take 1 (
            stored_under
              (holding payable).settlement
              (drop 0 (holding payable).pending_settlement_index)))
    × (get_settlements_by_merchant (holding payable) 7 0 1
        ≡ take 1 (
            stored_under
              (holding payable).settlement
              (drop 0 ((holding payable).merchant_settlements 7))))
pages_example = pages (holding payable) 7 0 1

-- paused, with the signers 1 and 5
abbrev paused : State ℕ
unfolding deployed
paused = record opened { paused = true }

emergency_withdraw_unanimous_example :
    Ensures
      (λ _ _. (paused.paused ≡ true) × (contains (5 ∷ 1 ∷ []) 5 ≡ true) × (true ≡ true))
      (emergency_withdraw (world 10) (5 ∷ 1 ∷ []) 3 9 paused)
unfolding deployed signer_weight
emergency_withdraw_unanimous_example =
    emergency_withdraw_unanimous (world 10) (5 ∷ 1 ∷ []) paused 5 3 9 refl (omega arith)

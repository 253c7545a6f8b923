-- ===== src/Tests/Disputes.antt =====
-- The theorems on disputes, at concrete calls.
use comebackhere_contracts.Prelude.{
  ℕ, ◌≡◌, ◌≢◌, refl, true, false, none, some, [], ◌∷◌, arith, inl, inr, put, assign,
}
use comebackhere_contracts.Prelude.Int.{pos}
use comebackhere_contracts.Host.{ok}
use comebackhere_contracts.Multisig.Types.{Settlement, SettlementStatus, DisputeStatus, Dispute}
use comebackhere_contracts.Multisig.Storage.{State, Event}
use comebackhere_contracts.Treasury.Guards.{write_settlement, require_not_paused}
use comebackhere_contracts.Treasury.Execution.{execute_settlement}
use comebackhere_contracts.Treasury.Disputes.{raise_dispute, hold_if_pending, has_open_dispute}
use comebackhere_contracts.Treasury.Payments.{IsExecutable}
use comebackhere_contracts.Treasury.Payments.Disputed.{
  dispute_blocks_execution, dispute_leaves_lapsed_hold-IsExecutable,
}
use comebackhere_contracts.Treasury.Machine.{deployed}
use comebackhere_contracts.Tests.{world, payable, holding}

abbrev held : Settlement
held = record payable { status = SettlementStatus.on_hold }

abbrev claim : Dispute
claim = record {
  id = 1;
  settlement_id = 1;
  claimant = 7;
  counterparty = 8;
  amount = pos 100;
  status = DisputeStatus.raised;
  resolution_approvals = [];
  resolution_weight = 0;
  resolution_for_claimant = false;
  dispute_expires_at = 99;
  claimant_share_bps = 0;
  evidence_hash = none;
  resolution_memo = none;
}

abbrev disputed : State ℕ → State ℕ
disputed s = record s {
  dispute_count = 1;
  dispute = put 1 claim s.dispute;
  settlement_disputes = assign 1 (1 ∷ []) s.settlement_disputes;
  events = Event.dispute_raised 1 claim ∷ s.events;
}

abbrev blocked : State ℕ
unfolding write_settlement
blocked = disputed (write_settlement 1 held (holding payable))

dispute_blocks_execution_example : execute_settlement (world 20) 5 1 3 blocked ≢ ok (tt, blocked)
unfolding deployed raise_dispute hold_if_pending require_not_paused write_settlement
dispute_blocks_execution_example =
    dispute_blocks_execution (world 15) 7 1 8 (pos 100) 99 none (holding payable) payable 1 blocked
      (world 20) 5 3 refl refl refl refl (tt, blocked)

-- held until 12
abbrev lapsed : State ℕ
lapsed = record (holding held) { hold_expiry = put 1 12 (λ _. none) }

lapsed-IsExecutable : IsExecutable (world 20) lapsed 1 3 held
unfolding deployed
lapsed-IsExecutable = record {
  unheld = inr (refl, omega arith);
  quorum = (omega arith, omega arith);
  timely = inr (omega arith);
  foreign = λ same. absurd (omega arith);
  listed = inl refl;
  cleared = tt;
}

dispute_leaves_lapsed_hold-IsExecutable_example :
    (has_open_dispute (disputed lapsed) 1 ≡ true)
    × ((disputed lapsed).settlement 1 ≡ some held)
    × IsExecutable (world 20) (disputed lapsed) 1 3 held
unfolding deployed raise_dispute hold_if_pending require_not_paused
dispute_leaves_lapsed_hold-IsExecutable_example =
    dispute_leaves_lapsed_hold-IsExecutable (world 15) 7 1 8 (pos 100) 99 none lapsed held 1
      (disputed lapsed) (world 20) 3 refl refl lapsed-IsExecutable refl

-- ===== src/Treasury/Disputes.antt =====
-- contracts/treasury/src/disputes.rs: raising, resolving, voting on and expiring disputes.
use comebackhere_contracts.Prelude.{
  ℕ, zero, suc, ◌+◌, ◌^◌, Bool, true, false, not, ◌&&◌, Option, none, some, List, [], put, assign,
  length, contains, push_back, ltb, leb, ◌==◌, if◌then◌else◌,
}
use comebackhere_contracts.Prelude.Int.{ℤ, pos, leb_ℤ, ltb_ℤ, checked_sub}
use comebackhere_contracts.Errors.{
  invalid_amount, arithmetic_overflow, dispute_not_found, dispute_already_resolved,
  dispute_not_expired, label_too_long, invalid_split_ratio, duplicate_vote,
  resolution_direction_mismatch, threshold_not_configured,
}
use comebackhere_contracts.Host.{
  Env, Call, ◌>>=◌, ◌>>◌, pure, gets, modify, fail_if, or_fail, or_panic, require_auth,
}
use comebackhere_contracts.Math.{is_valid_bps, apply_bps}
use comebackhere_contracts.Multisig.{require_authorized_signer, record_approval, meets_threshold}
use comebackhere_contracts.Multisig.Types.{
  Settlement, SettlementStatus, SettlementHoldReason, Dispute, DisputeStatus, is_pending,
  is_on_hold, is_raised,
}
use comebackhere_contracts.Multisig.Storage.{State, Event}
use comebackhere_contracts.Treasury.Guards.{
  emit, transfer, require_admin, require_not_paused, write_settlement,
}

abbrev pub max_resolution_memo_len : ℕ
max_resolution_memo_len = 256

abbrev memo_too_long : Option (List ℕ) → Bool
memo_too_long none = false
memo_too_long (some memo) = ltb max_resolution_memo_len (length memo)

-- The loop `while i <= count` from `id` with as many rounds as are left; it stops at the first hit.
unfoldable pub any_from : (ℕ → Bool) → ℕ → ℕ → Bool
any_from test zero id = false
any_from test (suc rounds) id =
    let rest = any_from test rounds (id + 1) in if test id then true else rest

abbrev pub is_open_for : ℕ → Option Dispute → Bool
is_open_for id none = false
is_open_for id (some d) = d.settlement_id == id && is_raised d.status

abbrev pub by_direction : Bool → DisputeStatus
by_direction true = DisputeStatus.resolved_claimant
by_direction false = DisputeStatus.resolved_counterparty

-- `a != b`
abbrev differ : Bool → Bool → Bool
differ true b = not b
differ false b = b

abbrev released : Settlement → Settlement
released settlement = record settlement {
  status = SettlementStatus.pending;
  hold_reason = SettlementHoldReason.none;
}

abbrev pub split_dispute : ℕ → Option (List ℕ) → Dispute → Dispute
split_dispute claimant_bps memo d = record d {
  status = DisputeStatus.resolved_split;
  claimant_share_bps = claimant_bps;
  resolution_memo = memo;
}

module _ {L : Type 0} where
  abbrev validate_resolution_memo : Option (List ℕ) → Call (State L) (Unit {0})
  validate_resolution_memo memo = fail_if (memo_too_long memo) label_too_long

  unfoldable pub has_open_dispute : State L → ℕ → Bool
  unfolding any_from
  has_open_dispute s id = any_from (λ i. is_open_for id (s.dispute i)) s.dispute_count 1

  unfoldable pub hold_if_pending : ℕ → Option Settlement → Call (State L) (Unit {0})
  hold_if_pending id none = pure tt
  hold_if_pending id (some settlement) =
      if is_pending settlement.status
      then modify (write_settlement id (record settlement { status = SettlementStatus.on_hold }))
      else pure tt

  unfoldable pub release_found : ℕ → Option Settlement → Bool → Call (State L) (Unit {0})
  release_found id none disputed = pure tt
  release_found id (some settlement) disputed =
      if is_on_hold settlement.status && not disputed
      then modify (write_settlement id (released settlement))
      else pure tt

  unfoldable pub release_settlement_hold_if_no_open_disputes : ℕ → Call (State L) (Unit {0})
  release_settlement_hold_if_no_open_disputes id = do
    found ← gets (λ s. s.settlement id)
    disputed ← gets (λ s. has_open_dispute s id)
    release_found id found disputed

  abbrev store_dispute : ℕ → Dispute → State L → State L
  store_dispute id d s = record s { dispute = put id d s.dispute }

  unfoldable pub raise_dispute : Env L → ℕ → ℕ → ℕ → ℤ → ℕ → Option (List ℕ) → Call (State L) ℕ
  raise_dispute e claimant settlement_id counterparty amount expires_at evidence = do
    require_not_paused
    require_auth e claimant
    fail_if (leb_ℤ amount (pos 0)) invalid_amount
    found ← gets (λ s. s.settlement settlement_id)
    hold_if_pending settlement_id found
    count ← gets (λ s. s.dispute_count)
    let id = count + 1
    fail_if (leb (2 ^ 64) id) arithmetic_overflow
    let raised : Dispute = record {
      id = id;
      settlement_id = settlement_id;
      claimant = claimant;
      counterparty = counterparty;
      amount = amount;
      status = DisputeStatus.raised;
      resolution_approvals = [];
      resolution_weight = 0;
      resolution_for_claimant = false;
      dispute_expires_at = expires_at;
      claimant_share_bps = 0;
      evidence_hash = evidence;
      resolution_memo = none;
    }
    modify (store_dispute id raised)
    modify (λ s. record s {
      dispute_count = id;
      settlement_disputes =
          assign settlement_id (push_back (s.settlement_disputes settlement_id) id)
            s.settlement_disputes;
    })
    emit (Event.dispute_raised id raised)
    pure id

  abbrev load_dispute : ℕ → Call (State L) Dispute
  load_dispute id = do
    found ← gets (λ s. s.dispute id)
    d ← or_fail found dispute_not_found
    fail_if (not (is_raised d.status)) dispute_already_resolved
    pure d

  -- The end of the three entrypoints that close a dispute.
  unfoldable pub close_dispute : ℕ → Dispute → Event → Call (State L) (Unit {0})
  close_dispute id closed event = do
    modify (store_dispute id closed)
    emit event
    release_settlement_hold_if_no_open_disputes closed.settlement_id

  unfoldable pub expire_dispute : Env L → ℕ → ℕ → Call (State L) (Unit {0})
  expire_dispute e admin id = do
    require_admin e admin
    d ← load_dispute id
    fail_if (ltb e.now d.dispute_expires_at) dispute_not_expired
    let updated = record d { status = DisputeStatus.expired }
    close_dispute id updated (Event.dispute_expired id updated)

  unfoldable pub resolve_dispute :
      Env L → ℕ → ℕ → Bool → Option (List ℕ) → Call (State L) (Unit {0})
  resolve_dispute e admin id in_favor_of_claimant memo = do
    require_admin e admin
    require_not_paused
    validate_resolution_memo memo
    d ← load_dispute id
    let updated = record d { status = by_direction in_favor_of_claimant; resolution_memo = memo }
    close_dispute id updated (Event.dispute_resolved id updated)

  abbrev pay_if_positive : Env L → ℕ → ℕ → ℤ → Call (State L) (Unit {0})
  pay_if_positive e token to amount =
      if ltb_ℤ (pos 0) amount then transfer e token e.self to amount else pure tt

  -- The payouts of `resolve_dispute_split`.
  unfoldable pub pay_split : Env L → ℕ → ℕ → Dispute → Call (State L) (Unit {0})
  pay_split e token claimant_bps d = do
    claimant_amount ← or_fail (apply_bps d.amount claimant_bps) arithmetic_overflow
    counterparty_amount ← or_panic (checked_sub d.amount claimant_amount)
    pay_if_positive e token d.claimant claimant_amount
    pay_if_positive e token d.counterparty counterparty_amount

  unfoldable pub settle_split :
      Env L → ℕ → ℕ → ℕ → Option (List ℕ) → Dispute → Call (State L) (Unit {0})
  settle_split e id claimant_bps token memo d = do
    pay_split e token claimant_bps d
    let updated = split_dispute claimant_bps memo d
    close_dispute id updated (Event.dispute_resolved_split id updated)

  unfoldable pub resolve_dispute_split :
      Env L → ℕ → ℕ → ℕ → ℕ → Option (List ℕ) → Call (State L) (Unit {0})
  resolve_dispute_split e admin id claimant_bps token memo = do
    require_admin e admin
    require_not_paused
    fail_if (not (is_valid_bps claimant_bps)) invalid_split_ratio
    validate_resolution_memo memo
    d ← load_dispute id
    settle_split e id claimant_bps token memo d

  unfoldable pub vote_dispute_resolution : Env L → ℕ → ℕ → Bool → Call (State L) (Unit {0})
  vote_dispute_resolution e signer id in_favor_of_claimant = do
    require_not_paused
    require_authorized_signer e signer
    d ← load_dispute id
    fail_if (contains d.resolution_approvals signer) duplicate_vote
    let direction =
        if d.resolution_weight == 0 then in_favor_of_claimant else d.resolution_for_claimant
    fail_if (differ direction in_favor_of_claimant) resolution_direction_mismatch
    voted ← record_approval e d.resolution_approvals d.resolution_weight signer
    configured ← gets (λ s. s.threshold)
    threshold ← or_fail configured threshold_not_configured
    let updated = record d {
      resolution_approvals = voted.0;
      resolution_weight = voted.1;
      resolution_for_claimant = direction;
      status = if meets_threshold voted.1 threshold then by_direction direction else d.status;
    }
    modify (store_dispute id updated)
    emit (Event.dispute_resolution_voted id updated)

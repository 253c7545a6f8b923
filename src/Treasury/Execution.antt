-- ===== src/Treasury/Execution.antt =====
-- contracts/treasury/src/settlements.rs: paying a settlement out, whole, in a batch or in part.
use comebackhere_contracts.Prelude.{
  ℕ, Bool, false, not, ◌&&◌, ◌||◌, Option, none, some, List, [], ◌∷◌, get_or, put, assign, length,
  is_empty, contains, ltb, leb, ◌==◌, if◌then◌else◌,
}
use comebackhere_contracts.Prelude.Int.{ℤ, pos, leb_ℤ, ltb_ℤ, checked_add}
use comebackhere_contracts.Errors.{
  settlement_not_found, settlement_on_hold, already_executed, threshold_not_configured,
  threshold_not_met, execution_deadline_exceeded, invalid_token_contract, token_not_allowed,
  invalid_amount, arithmetic_overflow,
}
use comebackhere_contracts.Host.{
  Env, Call, ◌>>=◌, ◌>>◌, pure, gets, modify, fail_if, panic_if, or_fail, or_panic,
}
use comebackhere_contracts.Multisig.{require_authorized_signer, meets_threshold}
use comebackhere_contracts.Multisig.Types.{Settlement, SettlementStatus, is_pending, is_on_hold}
use comebackhere_contracts.Multisig.Storage.{State, Event}
use comebackhere_contracts.Treasury.Guards.{
  emit, transfer, require_not_paused, require_compliance_allowed, write_settlement, load_settlement,
  for_each_settlement,
}
use comebackhere_contracts.Treasury.Proposals.{max_batch_size}

-- A hold with an expiry that has been reached; one with no expiry does not lapse.
abbrev pub hold_lapsed : ℕ → Option ℕ → Bool
hold_lapsed now none = false
hold_lapsed now (some expires_at) = leb expires_at now

abbrev pub token_allowed : List ℕ → ℕ → Bool
token_allowed allowlist token = is_empty allowlist || contains allowlist token

module _ {L : Type 0} where
  abbrev pub payout_address : State L → ℕ → ℕ
  payout_address s merchant = get_or (s.merchant_payout_address merchant) merchant

  -- The tests of `execute_settlement` on the settlement it has read, in order.
  unfoldable pub check_executable : Env L → ℕ → ℕ → Settlement → Call (State L) (Unit {0})
  unfolding require_compliance_allowed
  check_executable e id token settlement = do
    expiry ← gets (λ s. s.hold_expiry id)
    fail_if (is_on_hold settlement.status && not (hold_lapsed e.now expiry)) settlement_on_hold
    fail_if (not (is_pending settlement.status || is_on_hold settlement.status)) already_executed
    configured ← gets (λ s. s.threshold)
    threshold ← or_fail configured threshold_not_configured
    fail_if (threshold == 0) threshold_not_configured
    fail_if (not (meets_threshold settlement.approval_weight threshold)) threshold_not_met
    fail_if (ltb 0 settlement.execution_deadline && ltb settlement.execution_deadline e.now)
        execution_deadline_exceeded
    fail_if (token == e.self) invalid_token_contract
    allowlist ← gets (λ s. s.token_allowlist)
    fail_if (not (token_allowed allowlist token)) token_not_allowed
    require_compliance_allowed e settlement.merchant_address settlement.amount

  unfoldable pub execute_settlement : Env L → ℕ → ℕ → ℕ → Call (State L) (Unit {0})
  execute_settlement e signer id token = do
    require_not_paused
    require_authorized_signer e signer
    settlement ← load_settlement id settlement_not_found
    check_executable e id token settlement
    payout ← gets (λ s. payout_address s settlement.merchant_address)
    transfer e token e.self payout settlement.amount
    let paid = record settlement { status = SettlementStatus.executed }
    modify (write_settlement id paid)
    emit (Event.settlement_executed id paid)

  -- The body of the loop of `batch_execute_settlements` on a payable settlement. It stores the
  -- settlement itself and leaves the pending index and the hold's expiry as they are.
  unfoldable pub execute_found : Env L → ℕ → ℕ → Settlement → Call (State L) (List Settlement)
  execute_found e token id settlement = do
    payout ← gets (λ s. payout_address s settlement.merchant_address)
    transfer e token e.self payout settlement.amount
    let paid = record settlement { status = SettlementStatus.executed }
    modify (λ s. record s { settlement = put id paid s.settlement })
    emit (Event.settlement_executed id paid)
    pure (paid ∷ [])

  unfoldable pub execute_one :
      Env L → ℕ → ℕ → ℕ → Option Settlement → Call (State L) (List Settlement)
  execute_one e token threshold id none = pure []
  execute_one e token threshold id (some settlement) =
      if is_pending settlement.status && meets_threshold settlement.approval_weight threshold
      then execute_found e token id settlement
      else pure []

  unfoldable pub batch_execute_settlements :
      Env L → ℕ → List ℕ → ℕ → Call (State L) (List Settlement)
  batch_execute_settlements e signer ids token = do
    require_not_paused
    require_authorized_signer e signer
    panic_if (ltb max_batch_size (length ids))
    configured ← gets (λ s. s.threshold)
    threshold ← or_panic configured
    panic_if (threshold == 0)
    panic_if (token == e.self)
    allowlist ← gets (λ s. s.token_allowlist)
    panic_if (not (token_allowed allowlist token))
    for_each_settlement (execute_one e token threshold) ids

  -- The tests of `partially_execute_settlement`; the new cumulative total is returned.
  unfoldable pub check_partial : Env L → ℕ → ℤ → ℕ → Settlement → Call (State L) ℤ
  check_partial e id amount token settlement = do
    fail_if (not (is_pending settlement.status)) already_executed
    fail_if (leb_ℤ amount (pos 0) || leb_ℤ settlement.amount amount) invalid_amount
    configured ← gets (λ s. s.threshold)
    threshold ← or_fail configured threshold_not_configured
    fail_if (threshold == 0) threshold_not_configured
    fail_if (not (meets_threshold settlement.approval_weight threshold)) threshold_not_met
    fail_if (token == e.self) invalid_token_contract
    sum ← gets (λ s. checked_add (s.partial_executed_total id) amount)
    total ← or_fail sum arithmetic_overflow
    fail_if (ltb_ℤ settlement.amount total) invalid_amount
    pure total

  unfoldable pub partially_execute_settlement : Env L → ℕ → ℕ → ℤ → ℕ → Call (State L) (Unit {0})
  partially_execute_settlement e signer id amount token = do
    require_not_paused
    require_authorized_signer e signer
    settlement ← load_settlement id settlement_not_found
    total ← check_partial e id amount token settlement
    modify (λ s. record s { partial_executed_total = assign id total s.partial_executed_total })
    transfer e token e.self settlement.merchant_address amount
    let paid = record settlement { status = SettlementStatus.partially_executed }
    modify (write_settlement id paid)
    emit (Event.settlement_partial_executed id paid)

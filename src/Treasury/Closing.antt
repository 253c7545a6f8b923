-- ===== src/Treasury/Closing.antt =====
-- contracts/treasury/src/settlements.rs: cancelling and expiring settlements.
use comebackhere_contracts.Prelude.{
  ℕ, ◌+◌, ◌^◌, not, ◌||◌, Option, none, some, List, [], ◌∷◌, get_or, leb, if◌then◌else◌,
}
use comebackhere_contracts.Errors.{
  settlement_not_found, settlement_not_cancellable, force_cancel_not_allowed, already_executed,
  ttl_not_elapsed,
}
use comebackhere_contracts.Host.{Env, Call, ◌>>=◌, ◌>>◌, pure, gets, modify, fail_if, panic_if}
use comebackhere_contracts.Multisig.{require_authorized_signer}
use comebackhere_contracts.Multisig.Types.{Settlement, SettlementStatus, is_pending, is_on_hold}
use comebackhere_contracts.Multisig.Storage.{State, Event}
use comebackhere_contracts.Treasury.Guards.{
  default_settlement_expiry, emit, require_admin, require_not_paused, write_settlement,
  load_settlement, for_each_settlement,
}

module _ {L : Type 0} where
  unfoldable pub cancel_settlement : Env L → ℕ → ℕ → Call (State L) (Unit {0})
  cancel_settlement e signer id = do
    require_not_paused
    require_authorized_signer e signer
    settlement ← load_settlement id settlement_not_found
    fail_if (not (is_pending settlement.status)) settlement_not_cancellable
    let updated = record settlement { status = SettlementStatus.cancelled }
    modify (write_settlement id updated)
    emit (Event.settlement_cancelled id updated)

  -- The body of the loop of `batch_cancel_settlements`.
  unfoldable pub cancel_one : ℕ → Option Settlement → Call (State L) (List ℕ)
  cancel_one id none = pure []
  cancel_one id (some settlement) =
      if is_pending settlement.status
      then (do
        let updated = record settlement { status = SettlementStatus.cancelled }
        modify (write_settlement id updated)
        emit (Event.settlement_cancelled id updated)
        pure (id ∷ []))
      else pure []

  unfoldable pub batch_cancel_settlements : Env L → ℕ → List ℕ → Call (State L) (List ℕ)
  batch_cancel_settlements e admin ids = do
    require_admin e admin
    for_each_settlement cancel_one ids

  unfoldable pub force_cancel_settlement : Env L → ℕ → ℕ → Call (State L) (Unit {0})
  force_cancel_settlement e admin id = do
    require_admin e admin
    settlement ← load_settlement id settlement_not_found
    fail_if (not (is_pending settlement.status || is_on_hold settlement.status))
        force_cancel_not_allowed
    let updated = record settlement { status = SettlementStatus.cancelled }
    modify (write_settlement id updated)
    emit (Event.settlement_force_cancelled id admin updated)

  unfoldable pub expire_settlement : Env L → ℕ → ℕ → Call (State L) (Unit {0})
  expire_settlement e admin id = do
    require_admin e admin
    settlement ← load_settlement id settlement_not_found
    fail_if (not (is_pending settlement.status)) already_executed
    secs ← gets (λ s. get_or s.settlement_expiry_secs default_settlement_expiry)
    panic_if (leb (2 ^ 64) (settlement.proposed_at + secs))
    fail_if (leb e.now (settlement.proposed_at + secs)) ttl_not_elapsed
    let updated = record settlement { status = SettlementStatus.expired }
    modify (write_settlement id updated)
    emit (Event.settlement_expired id updated)

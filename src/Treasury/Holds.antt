-- ===== src/Treasury/Holds.antt =====
-- contracts/treasury/src/holds.rs: placing a settlement on hold and releasing it.
use comebackhere_contracts.Prelude.{
  ℕ, Bool, true, not, ◌&&◌, ◌||◌, Option, none, some, put, remove, ltb, if◌then◌else◌,
}
use comebackhere_contracts.Errors.{
  settlement_not_found, already_on_hold, already_executed, not_on_hold,
}
use comebackhere_contracts.Host.{Env, Call, ◌>>=◌, ◌>>◌, pure, gets, modify, fail_if}
use comebackhere_contracts.Multisig.Types.{
  SettlementStatus, SettlementHoldReason, is_pending, is_on_hold,
}
use comebackhere_contracts.Multisig.Storage.{State, Event}
use comebackhere_contracts.Treasury.Guards.{emit, require_admin, write_settlement, load_settlement}

-- The clock against the recorded expiry; with none recorded the hold is permanent.
abbrev pub is_hold_active : ℕ → Option ℕ → Bool
is_hold_active now (some expires_at) = ltb now expires_at
is_hold_active now none = true

module _ {L : Type 0} where
  abbrev pub store_hold_expiry : ℕ → Option ℕ → State L → State L
  store_hold_expiry id (some at) s = record s { hold_expiry = put id at s.hold_expiry }
  store_hold_expiry id none s = record s { hold_expiry = remove id s.hold_expiry }

  unfoldable pub hold_settlement :
      Env L → ℕ → ℕ → SettlementHoldReason → Option ℕ → Call (State L) (Unit {0})
  hold_settlement e admin id reason expires_at = do
    require_admin e admin
    settlement ← load_settlement id settlement_not_found
    expiry ← gets (λ s. s.hold_expiry id)
    fail_if (is_on_hold settlement.status && is_hold_active e.now expiry) already_on_hold
    fail_if (not (is_pending settlement.status || is_on_hold settlement.status)) already_executed
    let held = record settlement { status = SettlementStatus.on_hold; hold_reason = reason }
    modify (write_settlement id held)
    modify (store_hold_expiry id expires_at)
    emit (Event.settlement_held id reason expires_at)

  unfoldable pub release_hold : Env L → ℕ → ℕ → Call (State L) (Unit {0})
  release_hold e admin id = do
    require_admin e admin
    settlement ← load_settlement id settlement_not_found
    fail_if (not (is_on_hold settlement.status)) not_on_hold
    let released = record settlement {
      status = SettlementStatus.pending;
      hold_reason = SettlementHoldReason.none;
    }
    modify (write_settlement id released)
    modify (λ s. record s { hold_expiry = remove id s.hold_expiry })
    emit (Event.settlement_released id released)

  unfoldable pub get_hold_reason : Env L → ℕ → Call (State L) SettlementHoldReason
  get_hold_reason e id = do
    settlement ← load_settlement id settlement_not_found
    expiry ← gets (λ s. s.hold_expiry id)
    pure (
        if is_on_hold settlement.status && not (is_hold_active e.now expiry)
        then SettlementHoldReason.none
        else settlement.hold_reason)

  unfoldable pub get_hold_expiry : ℕ → Call (State L) (Option ℕ)
  get_hold_expiry id = do load_settlement id settlement_not_found; gets (λ s. s.hold_expiry id)

-- ===== src/Compliance/Listing.antt =====
-- Allowing, blocking and clearing one address or a batch (contracts/compliance/src/lib.rs).
pub mod Overrides
use comebackhere_contracts.Prelude.{
  ℕ, ◌-◌, Bool, true, false, not, Option, none, some, List, [], ◌∷◌, put, remove, assign, length,
  ltb, ◌==◌, if◌then◌else◌,
}
use comebackhere_contracts.Prelude.Int.{saturating_add}
use comebackhere_contracts.Errors.{compliance_error}
use comebackhere_contracts.Errors.Compliance.{ComplianceError}
use comebackhere_contracts.Host.{Env, Call, ok, err, ◌>>=◌, ◌>>◌, pure, gets, modify}
use comebackhere_contracts.Compliance.Types.{AddressState, BlockReason}
use comebackhere_contracts.Compliance.Storage.{State, Event}
use comebackhere_contracts.Compliance.Guards.{
  max_batch_size, fail_if, emit, is_admin, require_admin, require_admin_or_operator,
  require_not_paused, check_bulk_allow_cooldown, check_bulk_block_cooldown, record_block_placer,
  append_status_history, track_address,
}

-- One more allowed address, unless it was allowed before.
abbrev pub counted : Bool → ℕ → ℕ
counted true count = count
counted false count = saturating_add count 1

abbrev pub uncounted : Bool → ℕ → ℕ
uncounted true count = count - 1
uncounted false count = count

-- Allowed with no expiry.
unfoldable pub mark_allowed : ℕ → State → State
mark_allowed address s = record s {
  allowed = assign address true s.allowed;
  allowed_until = remove address s.allowed_until;
}

abbrev store_reason : ℕ → Option BlockReason → State → State
store_reason address none s = s
store_reason address (some r) s = record s { block_reason = put address r s.block_reason }

-- The placer of an active block; the administrator where none was recorded.
abbrev placer_of : Bool → Option ℕ → Option ℕ → Option ℕ
placer_of false placer admin = none
placer_of true (some placer) admin = some placer
placer_of true none admin = admin

unfoldable pub block_placer : State → ℕ → Option ℕ
block_placer s address = placer_of (s.blocked address) (s.blocked_by address) s.admin

abbrev must_be_placer : ℕ → Option ℕ → Call State (Unit {0})
must_be_placer caller none s = err (compliance_error ComplianceError.unauthorized)
must_be_placer caller (some placer) s =
    fail_if (not (placer == caller)) ComplianceError.operator_cannot_clear_admin_block s

unfoldable pub require_operator_placed_block : ℕ → ℕ → Call State (Unit {0})
require_operator_placed_block caller address = do
  placer ← gets (λ s. block_placer s address)
  must_be_placer caller placer

abbrev unless_admin : Bool → ℕ → ℕ → Call State (Unit {0})
unless_admin true caller address s = ok (tt, s)
unless_admin false caller address s = require_operator_placed_block caller address s

-- What `clear_address` resets; both counts follow what the flags were before.
unfoldable pub cleared : ℕ → State → State
cleared address s = record s {
  blocked = assign address false s.blocked;
  blocked_until = remove address s.blocked_until;
  block_reason = remove address s.block_reason;
  blocked_by = remove address s.blocked_by;
  allowed = assign address true s.allowed;
  allowed_until = remove address s.allowed_until;
  tier = assign address 0 s.tier;
  block_count = uncounted (s.blocked address) s.block_count;
  allow_count = counted (s.allowed address) s.allow_count;
}

module _ {L : Type 0} (e : Env L) where
  -- What the single and the batch entrypoint do with one address.
  unfoldable pub allow_one : ℕ → ℕ → Call State (Unit {0})
  allow_one admin address = do
    was_allowed ← gets (λ s. s.allowed address)
    modify (mark_allowed address)
    modify (λ s. record s { allow_count = counted was_allowed s.allow_count })
    modify (append_status_history e address AddressState.allowed admin)
    track_address address
    emit (Event.address_allowed address)

  unfoldable pub allow_address : ℕ → ℕ → Call State (Unit {0})
  unfolding allow_one
  allow_address admin address = do
    require_admin e admin
    require_not_paused
    allow_one admin address

  unfoldable pub allow_each : ℕ → List ℕ → Call State (Unit {0})
  allow_each admin [] = pure tt
  allow_each admin (address ∷ rest) = allow_one admin address >> allow_each admin rest

  unfoldable pub bulk_allow_addresses : ℕ → List ℕ → Call State (Unit {0})
  bulk_allow_addresses admin addresses = do
    require_admin e admin
    require_not_paused
    check_bulk_allow_cooldown e admin
    fail_if (ltb max_batch_size (length addresses)) ComplianceError.batch_too_large
    allow_each admin addresses

  unfoldable pub allow_address_with_tier : ℕ → ℕ → ℕ → Call State (Unit {0})
  allow_address_with_tier admin address tier = do
    require_admin e admin
    require_not_paused
    modify (mark_allowed address)
    modify (λ s. record s { tier = assign address tier s.tier })
    modify (append_status_history e address AddressState.allowed admin)
    track_address address
    emit (Event.address_allowed address)

  unfoldable pub allow_address_until : ℕ → ℕ → ℕ → Call State (Unit {0})
  allow_address_until admin address expires_at = do
    require_admin e admin
    require_not_paused
    modify (λ s. record s {
      allowed = assign address true s.allowed;
      allowed_until = put address expires_at s.allowed_until;
    })
    modify (append_status_history e address AddressState.allowed admin)
    track_address address
    emit (Event.address_allowed_until address expires_at)

  unfoldable pub block_address : ℕ → ℕ → Option BlockReason → Call State (Unit {0})
  block_address caller address reason = do
    require_admin_or_operator e caller
    modify (λ s. record s { blocked = assign address true s.blocked })
    modify (record_block_placer address caller)
    modify (store_reason address reason)
    modify (append_status_history e address AddressState.blocked caller)
    track_address address
    emit (Event.address_blocked address)

  unfoldable pub block_address_until : ℕ → ℕ → ℕ → Option BlockReason → Call State (Unit {0})
  block_address_until caller address unblock_at reason = do
    require_admin_or_operator e caller
    modify (λ s. record s {
      blocked = assign address true s.blocked;
      blocked_until = put address unblock_at s.blocked_until;
    })
    modify (record_block_placer address caller)
    modify (store_reason address reason)
    modify (append_status_history e address AddressState.blocked caller)
    track_address address
    emit (Event.address_blocked_until address unblock_at)

  unfoldable pub block_one : ℕ → ℕ → Call State (Unit {0})
  block_one admin address = do
    modify (λ s. record s { blocked = assign address true s.blocked })
    modify (record_block_placer address admin)
    modify (append_status_history e address AddressState.blocked admin)
    track_address address
    emit (Event.address_blocked address)

  unfoldable pub block_each : ℕ → List ℕ → Call State (Unit {0})
  block_each admin [] = pure tt
  block_each admin (address ∷ rest) = block_one admin address >> block_each admin rest

  unfoldable pub bulk_block_addresses : ℕ → List ℕ → Call State (Unit {0})
  bulk_block_addresses admin addresses = do
    require_admin e admin
    check_bulk_block_cooldown e admin
    fail_if (ltb max_batch_size (length addresses)) ComplianceError.batch_too_large
    block_each admin addresses

  unfoldable pub clear_address : ℕ → ℕ → Call State (Unit {0})
  clear_address caller address = do
    require_admin_or_operator e caller
    by_admin ← gets (λ s. is_admin s caller)
    unless_admin by_admin caller address
    modify (cleared address)
    modify (append_status_history e address AddressState.allowed caller)
    track_address address
    emit (Event.address_cleared address)

  unfoldable pub revoke_allow : ℕ → ℕ → Call State (Unit {0})
  revoke_allow admin address = do
    require_admin e admin
    require_not_paused
    modify (λ s. record s {
      allowed = assign address false s.allowed;
      allowed_until = remove address s.allowed_until;
    })
    modify (append_status_history e address AddressState.blocked admin)
    track_address address
    emit (Event.address_revoked address)

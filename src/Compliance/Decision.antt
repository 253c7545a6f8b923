-- ===== src/Compliance/Decision.antt =====
-- The reads of contracts/compliance/src/lib.rs that decide on an address, one or many.
pub mod Precedence
use comebackhere_contracts.Prelude.{
  ℕ, Bool, true, false, not, ◌&&◌, Option, none, some, List, [], ◌∷◌, length, push_back, leb, ltb,
  if◌then◌else◌,
}
use comebackhere_contracts.Prelude.Int.{ℤ, leb_ℤ}
use comebackhere_contracts.Errors.Compliance.{ComplianceError}
use comebackhere_contracts.Host.{Env, Call, ◌>>=◌, ◌>>◌, pure, gets}
use comebackhere_contracts.Compliance.Types.{AddressState, AddressStatus}
use comebackhere_contracts.Compliance.Storage.{State}
use comebackhere_contracts.Compliance.Guards.{max_batch_size, fail_if, require_admin_or_operator}

-- `matches!(expiry, Some(t) if now >= t)`
abbrev pub has_passed : ℕ → Option ℕ → Bool
has_passed now none = false
has_passed now (some t) = leb t now

unfoldable pub is_allowed_at : State → ℕ → ℕ → Bool
is_allowed_at s address now =
    if not (s.allowed address)
    then false
    else if s.blocked address && not (has_passed now (s.blocked_until address))
    then false
    else not (has_passed now (s.allowed_until address))

unfoldable pub is_allowed : {L : Type 0} → Env L → State → ℕ → Bool
unfolding is_allowed_at
is_allowed e s address = is_allowed_at s address e.now

abbrev within_limit : ℤ → Option ℤ → Bool
within_limit amount none = true
within_limit amount (some limit) = leb_ℤ amount limit

unfoldable pub is_allowed_for_amount : {L : Type 0} → Env L → State → ℕ → ℤ → Bool
is_allowed_for_amount e s address amount =
    if not (is_allowed_at s address e.now)
    then false
    else within_limit amount (s.tier_limit (s.tier address))

unfoldable pub address_status_at : State → ℕ → ℕ → AddressStatus
address_status_at s address now = record {
  allowed = s.allowed address;
  blocked = s.blocked address;
  expires_at = s.allowed_until address;
  tier = s.tier address;
  is_currently_allowed = is_allowed_at s address now;
}

-- The loops that push one result for each address.
unfoldable pub check_each : State → ℕ → List ℕ → List Bool → List Bool
check_each s now [] results = results
check_each s now (address ∷ rest) results =
    check_each s now rest (push_back results (is_allowed_at s address now))

unfoldable pub status_each : State → ℕ → List ℕ → List AddressStatus → List AddressStatus
status_each s now [] results = results
status_each s now (address ∷ rest) results =
    status_each s now rest (push_back results (address_status_at s address now))

module _ {L : Type 0} (e : Env L) where
  unfoldable pub bulk_check_addresses : List ℕ → Call State (List Bool)
  bulk_check_addresses addresses = do
    fail_if (ltb max_batch_size (length addresses)) ComplianceError.batch_too_large
    gets (λ s. check_each s e.now addresses [])

  unfoldable pub bulk_get_address_status : List ℕ → Call State (List AddressStatus)
  bulk_get_address_status addresses = do
    fail_if (ltb max_batch_size (length addresses)) ComplianceError.batch_too_large
    gets (λ s. status_each s e.now addresses [])

  unfoldable pub address_state : State → ℕ → AddressState
  address_state s address =
      if s.blocked address
      then AddressState.blocked
      else if not (s.allowed address)
      then AddressState.blocked
      else if has_passed e.now (s.allowed_until address)
      then AddressState.expired
      else AddressState.allowed

  unfoldable pub address_status : ℕ → ℕ → Call State AddressState
  unfolding address_state
  address_status caller address = do
    require_admin_or_operator e caller
    gets (λ s. address_state s address)

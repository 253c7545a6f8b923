-- ===== src/Compliance/Roles.antt =====
-- Initialization, roles, pausing, tiers and the blocklist root (contracts/compliance/src/lib.rs).
use comebackhere_contracts.Prelude.{
  ℕ, ◌-◌, Bool, true, false, not, ◌&&◌, ◌||◌, Option, none, some, List, [], ◌∷◌, get_or, put,
  contains, without, push_back, length, leb, ◌==◌, if◌then◌else◌,
}
use comebackhere_contracts.Prelude.Int.{ℤ}
use comebackhere_contracts.Errors.Compliance.{ComplianceError}
use comebackhere_contracts.Host.{Env, Call, ok, ◌>>=◌, ◌>>◌, pure, gets, modify, require_auth}
use comebackhere_contracts.Compliance.Storage.{State, Event}
use comebackhere_contracts.Compliance.Guards.{fail_if, or_fail, emit, require_admin}

abbrev pub max_operators : ℕ
max_operators = 10

abbrev pub current_schema_version : ℕ
current_schema_version = 2

abbrev is_present : Option ℕ → Bool
is_present none = false
is_present (some a) = true

-- `is_ascii_uppercase() || is_ascii_digit()`
abbrev pub is_code_byte : ℕ → Bool
is_code_byte b = (leb 65 b && leb b 90) || (leb 48 b && leb b 57)

abbrev pub all_code_bytes : List ℕ → Bool
all_code_bytes [] = true
all_code_bytes (b ∷ rest) = is_code_byte b && all_code_bytes rest

abbrev set_code : ℕ → List ℕ → (ℕ → Option (List ℕ)) → ℕ → Option (List ℕ)
set_code address code codes other = if address == other then some code else codes other

abbrev migrate_from : ℕ → Call State ℕ
migrate_from from = do
  fail_if (not (from == current_schema_version - 1)) ComplianceError.unexpected_schema_version
  modify (λ s. record s { schema_version = some current_schema_version })
  emit (Event.schema_migrated from current_schema_version)
  pure current_schema_version

abbrev unless_current : Bool → ℕ → Call State ℕ
unless_current true from s = ok (from, s)
unless_current false from s = migrate_from from s

abbrev unless_member : Bool → ℕ → Call State (Unit {0})
unless_member true operator s = ok (tt, s)
unless_member false operator s =
    (fail_if (leb max_operators (length s.operators)) ComplianceError.operator_set_full
        >> modify (λ t. record t { operators = push_back t.operators operator })
        >> emit (Event.operator_added operator))
      s

abbrev if_member : Bool → ℕ → Call State (Unit {0})
if_member false operator s = ok (tt, s)
if_member true operator s =
    (modify (λ t. record t { operators = without t.operators operator })
        >> emit (Event.operator_removed operator))
      s

-- The symbol `none`, which `pause` records.
abbrev pub no_reason : List ℕ
no_reason = 110 ∷ 111 ∷ 110 ∷ 101 ∷ []

unfoldable pub get_schema_version : State → ℕ
get_schema_version s = get_or s.schema_version 1

module _ {L : Type 0} (e : Env L) where
  unfoldable pub initialize : ℕ → Call State (Unit {0})
  initialize admin = do
    present ← gets (λ s. is_present s.admin)
    fail_if present ComplianceError.already_initialized
    require_auth e admin
    modify (λ s. record s {
      admin = some admin;
      paused = false;
      schema_version = some current_schema_version;
    })

  unfoldable pub set_tier_limit : ℕ → ℕ → ℤ → Call State (Unit {0})
  set_tier_limit admin tier limit = do
    require_admin e admin
    modify (λ s. record s { tier_limit = put tier limit s.tier_limit })
    emit (Event.tier_limit_set tier limit)

  unfoldable pub set_jurisdiction : ℕ → ℕ → List ℕ → Call State (Unit {0})
  set_jurisdiction admin address code = do
    require_admin e admin
    fail_if (not (leb 2 (length code) && leb (length code) 3))
        ComplianceError.invalid_jurisdiction_code
    fail_if (not (all_code_bytes code)) ComplianceError.invalid_jurisdiction_code
    modify (λ s. record s { jurisdiction = set_code address code s.jurisdiction })
    emit (Event.jurisdiction_set address code)

  unfoldable pub migrate : ℕ → Call State ℕ
  migrate admin = do
    require_admin e admin
    from ← gets get_schema_version
    unless_current (from == current_schema_version) from

  unfoldable pub transfer_admin : ℕ → ℕ → Call State (Unit {0})
  transfer_admin admin new_admin = do
    require_admin e admin
    modify (λ s. record s { pending_admin = some new_admin })
    emit (Event.admin_transfer_initiated new_admin)

  unfoldable pub cancel_admin_transfer : ℕ → Call State (Unit {0})
  cancel_admin_transfer admin = do
    require_admin e admin
    nominated ← gets (λ s. s.pending_admin)
    pending ← or_fail nominated ComplianceError.no_pending_admin
    modify (λ s. record s { pending_admin = none })
    emit (Event.admin_transfer_cancelled pending)

  unfoldable pub accept_admin : ℕ → Call State (Unit {0})
  accept_admin new_admin = do
    require_auth e new_admin
    nominated ← gets (λ s. s.pending_admin)
    pending ← or_fail nominated ComplianceError.no_pending_admin
    fail_if (not (pending == new_admin)) ComplianceError.unauthorized
    modify (λ s. record s { admin = some new_admin; pending_admin = none })
    emit (Event.admin_transferred new_admin)

  unfoldable pub pause_with_reason : ℕ → List ℕ → Call State (Unit {0})
  pause_with_reason admin reason = do
    require_admin e admin
    modify (λ s. record s { paused = true; pause_reason = some reason })
    emit (Event.compliance_paused admin reason)

  unfoldable pub pause : ℕ → Call State (Unit {0})
  unfolding pause_with_reason
  pause admin = pause_with_reason admin no_reason

  unfoldable pub unpause : ℕ → Call State (Unit {0})
  unpause admin = do
    require_admin e admin
    modify (λ s. record s { paused = false; pause_reason = none })
    emit (Event.compliance_unpaused admin)

  unfoldable pub set_blocklist_root : ℕ → List ℕ → Call State (Unit {0})
  set_blocklist_root admin root = do
    require_admin e admin
    modify (λ s. record s { blocklist_root = some root })
    emit (Event.blocklist_root_set root)

  unfoldable pub set_operator : ℕ → ℕ → Call State (Unit {0})
  set_operator admin operator = do
    require_admin e admin
    modify (λ s. record s { operator = some operator })
    emit (Event.operator_set operator)

  unfoldable pub add_operator : ℕ → ℕ → Call State (Unit {0})
  add_operator admin operator = do
    require_admin e admin
    member ← gets (λ s. contains s.operators operator)
    unless_member member operator

  unfoldable pub remove_operator : ℕ → ℕ → Call State (Unit {0})
  remove_operator admin operator = do
    require_admin e admin
    member ← gets (λ s. contains s.operators operator)
    if_member member operator

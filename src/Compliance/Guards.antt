-- ===== src/Compliance/Guards.antt =====
-- The guards and the bookkeeping that the entrypoints of contracts/compliance/src/lib.rs share.
use comebackhere_contracts.Prelude.{
  ℕ, ◌+◌, Bool, true, false, not, ◌||◌, Option, none, some, List, [], ◌∷◌, contains, put, assign,
  length, push_back, leb, ltb, ◌==◌, if◌then◌else◌, ◌/◌, ◌++◌, zero, suc,
}
use comebackhere_contracts.Prelude.Int.{saturating_add}
use comebackhere_contracts.Errors.{compliance_error}
use comebackhere_contracts.Errors.Compliance.{ComplianceError}
use comebackhere_contracts.Host.{Env, Call, ok, err, ◌>>=◌, ◌>>◌, gets, modify, require_auth}
use comebackhere_contracts.Compliance.Types.{AddressState, StatusHistoryEntry}
use comebackhere_contracts.Compliance.Storage.{State, Event}

abbrev pub max_tracked_addresses : ℕ
max_tracked_addresses = 2000

abbrev pub addr_index_page_size : ℕ
addr_index_page_size = 25

abbrev pub max_batch_size : ℕ
max_batch_size = 50

abbrev pub bulk_op_cooldown_secs : ℕ
bulk_op_cooldown_secs = 60

abbrev pub max_status_history : ℕ
max_status_history = 10

-- `if b { return Err(e) }`
abbrev pub fail_if : Bool → ComplianceError → Call State (Unit {0})
fail_if true e s = err (compliance_error e)
fail_if false e s = ok (tt, s)

-- `ok_or(e)?`
abbrev pub or_fail : {A : Type 0} → Option A → ComplianceError → Call State A
or_fail none e s = err (compliance_error e)
or_fail (some a) e s = ok (a, s)

abbrev pub emit : Event → Call State (Unit {0})
emit event = modify (λ s. record s { events = event ∷ s.events })

-- `stored == Some(a)`
abbrev pub holds : Option ℕ → ℕ → Bool
holds none a = false
holds (some b) a = b == a

unfoldable pub is_admin : State → ℕ → Bool
is_admin s caller = holds s.admin caller

module _ {L : Type 0} (e : Env L) where
  unfoldable pub require_admin : ℕ → Call State (Unit {0})
  require_admin admin = do
    require_auth e admin
    matches ← gets (λ s. holds s.admin admin)
    fail_if (not matches) ComplianceError.unauthorized

  -- The administrator, a member of the operator set, or the single operator of older deployments.
  unfoldable pub require_admin_or_operator : ℕ → Call State (Unit {0})
  require_admin_or_operator caller = do
    require_auth e caller
    matches ←
        gets (λ s. holds s.admin caller || contains s.operators caller || holds s.operator caller)
    fail_if (not matches) ComplianceError.unauthorized

unfoldable pub require_not_paused : Call State (Unit {0})
require_not_paused = do fail_if (← gets (λ s. s.paused)) ComplianceError.contract_paused

-- whether the caller's last bulk call was less than the cooldown ago
abbrev pub cooling_down : ℕ → Option ℕ → Bool
cooling_down now none = false
cooling_down now (some last) = ltb now (saturating_add last bulk_op_cooldown_secs)

unfoldable pub check_bulk_allow_cooldown : {L : Type 0} → Env L → ℕ → Call State (Unit {0})
check_bulk_allow_cooldown e admin = do
  last ← gets (λ s. s.last_bulk_allow admin)
  fail_if (cooling_down e.now last) ComplianceError.bulk_operation_cooldown
  modify (λ s. record s { last_bulk_allow = put admin e.now s.last_bulk_allow })

unfoldable pub check_bulk_block_cooldown : {L : Type 0} → Env L → ℕ → Call State (Unit {0})
check_bulk_block_cooldown e admin = do
  last ← gets (λ s. s.last_bulk_block admin)
  fail_if (cooling_down e.now last) ComplianceError.bulk_operation_cooldown
  modify (λ s. record s { last_bulk_block = put admin e.now s.last_bulk_block })

unfoldable pub record_block_placer : ℕ → ℕ → State → State
record_block_placer address placer s = record s { blocked_by = put address placer s.blocked_by }

-- `while history.len() >= MAX_STATUS_HISTORY { history.pop_front(); }`
unfoldable pub popped : List StatusHistoryEntry → List StatusHistoryEntry
popped [] = []
popped (entry ∷ rest) =
    let shorter = popped rest in
    if leb max_status_history (length (entry ∷ rest)) then shorter else entry ∷ rest

unfoldable pub append_status_history : {L : Type 0} → Env L → ℕ → AddressState → ℕ → State → State
append_status_history e address status actor s = record s {
  status_history =
      assign address
        (push_back (popped (s.status_history address))
          (record { status = status; timestamp = e.now; actor = actor }))
        s.status_history;
}

-- The address takes the slot `count`: the end of page `count / 25`.
unfoldable pub add_tracked : ℕ → State → State
add_tracked address s =
    let page = s.addr_index_count / addr_index_page_size in
    record s {
      addr_index_page = assign page (push_back (s.addr_index_page page) address) s.addr_index_page;
      addr_tracked = assign address true s.addr_tracked;
      addr_index_count = s.addr_index_count + 1;
    }

abbrev track_new : Bool → ℕ → Call State (Unit {0})
track_new true address s = ok (tt, s)
track_new false address s =
    (fail_if (leb max_tracked_addresses s.addr_index_count) ComplianceError.address_index_full
        >> modify (add_tracked address))
      s

unfoldable pub track_address : ℕ → Call State (Unit {0})
track_address address = do tracked ← gets (λ s. s.addr_tracked address); track_new tracked address

-- The loop that concatenates the pages, from page `p` with as many pages as are left.
unfoldable pub collect_pages : (ℕ → List ℕ) → ℕ → ℕ → List ℕ → List ℕ
collect_pages pages zero p all = all
collect_pages pages (suc left) p all = collect_pages pages left (p + 1) (all ++ pages p)

-- `count.div_ceil(ADDR_INDEX_PAGE_SIZE)`
abbrev pub page_count : ℕ → ℕ
page_count count = (count + 24) / addr_index_page_size

unfoldable pub address_index : State → List ℕ
address_index s = collect_pages s.addr_index_page (page_count s.addr_index_count) 0 []

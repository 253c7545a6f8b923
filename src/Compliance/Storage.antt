-- ===== src/Compliance/Storage.antt =====
-- The storage of the compliance contract: one field for each `DataKey` of
-- contracts/compliance/src/lib.rs that is read or written. A key that is always read with the same
-- default holds that default while it is absent; the other keys are `Option` or `Map`. Symbols and
-- bytes are lists of numbers.
use comebackhere_contracts.Prelude.{ℕ, Bool, Option, List, Map}
use comebackhere_contracts.Prelude.Int.{ℤ}
use comebackhere_contracts.Compliance.Types.{StatusHistoryEntry, BlockReason}

-- The published events, with their data.
pub data Event : Type 0 where
  address_allowed address_blocked address_cleared address_revoked : ℕ → Event
  address_allow_expired : ℕ → Event
  address_allowed_until address_blocked_until : ℕ → ℕ → Event
  tier_limit_set : ℕ → ℤ → Event
  jurisdiction_set : ℕ → List ℕ → Event
  schema_migrated : ℕ → ℕ → Event
  admin_transfer_initiated admin_transfer_cancelled admin_transferred : ℕ → Event
  compliance_paused : ℕ → List ℕ → Event
  compliance_unpaused operator_set operator_added operator_removed : ℕ → Event
  blocklist_root_set : List ℕ → Event

pub record State : Type 0 where
  pub admin : Option ℕ
  pub pending_admin : Option ℕ
  pub operator : Option ℕ
  pub allowed : ℕ → Bool
  pub blocked : ℕ → Bool
  pub allowed_until : Map ℕ
  pub blocked_until : Map ℕ
  pub block_reason : Map BlockReason
  pub schema_version : Option ℕ
  pub paused : Bool
  pub allow_count : ℕ
  pub block_count : ℕ
  pub tier : ℕ → ℕ
  pub jurisdiction : ℕ → Option (List ℕ)
  pub last_bulk_allow : Map ℕ
  pub last_bulk_block : Map ℕ
  pub addr_tracked : ℕ → Bool
  -- page `n` of the index
  pub addr_index_page : ℕ → List ℕ
  pub addr_index_count : ℕ
  pub tier_limit : Map ℤ
  pub status_history : ℕ → List StatusHistoryEntry
  pub pause_reason : Option (List ℕ)
  pub blocklist_root : Option (List ℕ)
  pub blocked_by : Map ℕ
  pub operators : List ℕ
  -- what was published, the newest event first
  pub events : List Event

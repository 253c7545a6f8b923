-- ===== src/Compliance/Types.antt =====
-- The types of contracts/compliance/src/lib.rs.
use comebackhere_contracts.Prelude.{ℕ, Bool, true, false, Option}

pub data AddressState : Type 0 where
  allowed blocked expired : AddressState

pub record AddressStatus : Type 0 where
  pub allowed : Bool
  pub blocked : Bool
  pub expires_at : Option ℕ
  pub tier : ℕ
  pub is_currently_allowed : Bool

pub record StatusHistoryEntry : Type 0 where
  pub status : AddressState
  pub timestamp : ℕ
  pub actor : ℕ

pub data BlockReason : Type 0 where
  sanctions fraud manual_review court_order other : BlockReason

-- the derived equality
abbrev pub same_state : AddressState → AddressState → Bool
same_state AddressState.allowed AddressState.allowed = true
same_state AddressState.blocked AddressState.blocked = true
same_state AddressState.expired AddressState.expired = true
same_state _ _ = false

-- ===== src/Workflow/Storage.antt =====
-- The storage of the settlement workflow contract (contracts/settlement-workflow/src/lib.rs): one
-- field for each `DataKey` that is read or written, and what its calls of other contracts rely on.
-- `paused` holds the default `false` while the key is absent. No code reads or writes the keys
-- `ExecutedSettlements` and `AlreadyPaused`.
use comebackhere_contracts.Prelude.{ℕ, Bool, Option, List}
use comebackhere_contracts.Prelude.Int.{ℤ}

-- The published events, with their data.
pub data Event : Type 0 where
  -- administrator, compliance contract, treasury contract
  workflow_initialized : ℕ → ℕ → ℕ → Event
  admin_transfer_initiated admin_transferred : ℕ → Event
  settlement_workflow_paused settlement_workflow_unpaused : ℕ → Event
  -- settlement, merchant, token contract, amount
  settlement_workflow_executed : ℕ → ℕ → ℕ → ℤ → Event
  -- how many were requested, how many were executed
  workflow_batch_completed : ℕ → ℕ → Event
  emergency_pause_configured emergency_pause_completed : ℕ → List ℕ → Event
  emergency_pause_resumed : List ℕ → Event

-- `W` is the state of all the other contracts. The host forbids them to call back into the workflow
-- while it runs, so they change nothing else.
pub record State (W : Type 0) : Type 0 where
  pub compliance_id : Option ℕ
  pub treasury_id : Option ℕ
  pub emergency_pause_admin : Option ℕ
  pub emergency_pause_targets : Option (List ℕ)
  pub emergency_paused_at : Option ℕ
  pub admin : Option ℕ
  pub pending_admin : Option ℕ
  pub paused : Bool
  pub world : W
  -- what was published, the newest event first
  pub events : List Event

-- `ComplianceClient`, `TreasuryOnlyClient` and `PausableContractClient`: the calls of the contract
-- at an address. `none` is a call that fails, and then changes nothing.
pub record Contracts (W : Type 0) : Type 0 where
  -- compliance contract, merchant
  pub is_allowed : ℕ → ℕ → W → Option Bool
  -- treasury contract, signer, settlement, token contract
  pub execute_settlement : ℕ → ℕ → ℕ → ℕ → W → Option W
  -- treasury contract, settlement: the field `amount` of what `get_settlement` returns
  pub settlement_amount : ℕ → ℕ → W → Option ℤ
  -- paused contract, its administrator
  pub pause : ℕ → ℕ → W → Option W
  pub unpause : ℕ → ℕ → W → Option W

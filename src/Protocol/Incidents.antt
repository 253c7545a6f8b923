-- ===== src/Protocol/Incidents.antt =====
-- The emergency pause on the treasury and the compliance contract.
use comebackhere_contracts.Prelude.{
  ℕ, ◌≡◌, true, false, not, ◌&&◌, ◌||◌, some, ◌==◌, arith, List, contains,
}
use comebackhere_contracts.Host.{Env, ok, err, succeeds}
use comebackhere_contracts.Compliance.Guards as ComplianceGuards
use comebackhere_contracts.Compliance.Roles
use comebackhere_contracts.Treasury.Guards as TreasuryGuards
use comebackhere_contracts.Treasury.Admin
use comebackhere_contracts.Workflow.Storage.{State}
use comebackhere_contracts.Errors.{TreasuryError, error}
use comebackhere_contracts.Treasury.Execution.{execute_settlement}
use comebackhere_contracts.Compliance.Listing.{allow_address}
use comebackhere_contracts.Workflow.Emergency.{emergency_pause_all}
use comebackhere_contracts.Workflow.Emergency.Incident.{emergency_pause_all_pauses}
use comebackhere_contracts.Protocol.{Addresses, Protocol, contracts, is_paused}

module _ {L : Type 0} (e : Env L) (at : Addresses) where
  pub contracts-pausing :
      (t a : ℕ) (w v : Protocol L)
      → (contracts e at).pause t a w ≡ some v
      → (u : ℕ) → is_paused at u v ≡ (t == u || is_paused at u w)
  unfolding Admin.pause Roles.pause Roles.pause_with_reason ComplianceGuards.require_admin
      TreasuryGuards.require_admin
  contracts-pausing t a w v h u = ground (arith, h)

  pub contracts-unpausing :
      (t a : ℕ) (w v : Protocol L)
      → (contracts e at).unpause t a w ≡ some v
      → (u : ℕ) → is_paused at u v ≡ (not (t == u) && is_paused at u w)
  unfolding Admin.unpause Roles.unpause ComplianceGuards.require_admin TreasuryGuards.require_admin
  contracts-unpausing t a w v h u = ground (arith, h)

  -- After a successful emergency pause that covers the treasury contract, every call of its
  -- `execute_settlement` fails with `ContractPaused`, whoever calls it and when; and if it covers
  -- the compliance contract, no call of its `allow_address` succeeds.
  pub emergency_stops_payments :
      (admin : ℕ) (paused : List ℕ) (s stopped : State (Protocol L))
      → (at.treasury ≡ at.compliance → ⊥)
      → emergency_pause_all e (contracts e at) admin s ≡ ok (paused, stopped)
      → contains paused at.treasury ≡ true
      → contains paused at.compliance ≡ true
      → (later : Env L) (caller id token address : ℕ)
      → (execute_settlement later caller id token stopped.world.treasury
          ≡ err (error TreasuryError.contract_paused))
        × (succeeds (allow_address later caller address stopped.world.compliance) ≡ false)
  unfolding execute_settlement allow_address TreasuryGuards.require_not_paused
      ComplianceGuards.require_admin ComplianceGuards.require_not_paused
  emergency_stops_payments admin paused s stopped apart run t k later caller id token address =
      ground (
        arith,
        run,
        t,
        k,
        apart,
        emergency_pause_all_pauses e (contracts e at) (is_paused at) contracts-pausing at.treasury
            admin s,
        emergency_pause_all_pauses e (contracts e at) (is_paused at) contracts-pausing at.compliance
            admin s,
      )

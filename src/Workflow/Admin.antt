-- ===== src/Workflow/Admin.antt =====
-- The constructor, the administrator's handover and the circuit breaker of
-- contracts/settlement-workflow/src/lib.rs.
use comebackhere_contracts.Prelude.{ℕ, true, false, not, none, some, [], ◌==◌}
use comebackhere_contracts.Errors.{TreasuryError}
use comebackhere_contracts.Host.{
  Env, Call, ◌>>=◌, ◌>>◌, gets, modify, require_auth, fail_if, or_fail,
}
use comebackhere_contracts.Workflow.Storage.{State, Event}
use comebackhere_contracts.Workflow.Guards.{emit, require_admin}

-- The storage before the constructor runs.
unfoldable pub undeployed : {W : Type 0} → W → State W
undeployed w = record {
  compliance_id = none;
  treasury_id = none;
  emergency_pause_admin = none;
  emergency_pause_targets = none;
  emergency_paused_at = none;
  admin = none;
  pending_admin = none;
  paused = false;
  world = w;
  events = [];
}

module _ {W L : Type 0} (e : Env L) where
  -- `__constructor`, which the host runs once, when the contract is deployed.
  unfoldable pub constructed : ℕ → ℕ → ℕ → Call (State W) (Unit {0})
  constructed admin compliance treasury = do
    require_auth e admin
    modify (λ s. record s { admin = some admin })
    modify (λ s. record s { compliance_id = some compliance })
    modify (λ s. record s { treasury_id = some treasury })
    emit (Event.workflow_initialized admin compliance treasury)

  unfoldable pub transfer_admin : ℕ → ℕ → Call (State W) (Unit {0})
  transfer_admin admin new_admin = do
    require_admin e admin
    modify (λ s. record s { pending_admin = some new_admin })
    emit (Event.admin_transfer_initiated new_admin)

  unfoldable pub accept_admin : ℕ → Call (State W) (Unit {0})
  accept_admin new_admin = do
    require_auth e new_admin
    stored ← gets (λ s. s.pending_admin)
    pending ← or_fail stored TreasuryError.no_pending_admin
    fail_if (not (pending == new_admin)) TreasuryError.unauthorized
    modify (λ s. record s { admin = some new_admin })
    modify (λ s. record s { pending_admin = none })
    emit (Event.admin_transferred new_admin)

  unfoldable pub pause : ℕ → Call (State W) (Unit {0})
  pause admin = do
    require_admin e admin
    modify (λ s. record s { paused = true })
    emit (Event.settlement_workflow_paused admin)

  unfoldable pub unpause : ℕ → Call (State W) (Unit {0})
  unpause admin = do
    require_admin e admin
    modify (λ s. record s { paused = false })
    emit (Event.settlement_workflow_unpaused admin)

unfoldable pub get_admin : {W : Type 0} → Call (State W) ℕ
get_admin = do stored ← gets (λ s. s.admin); or_fail stored TreasuryError.unauthorized

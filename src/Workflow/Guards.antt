-- ===== src/Workflow/Guards.antt =====
-- The guards of contracts/settlement-workflow/src/lib.rs.
use comebackhere_contracts.Prelude.{ℕ, Bool, true, false, not, Option, none, some, List, ◌∷◌, ◌==◌}
use comebackhere_contracts.Errors.{TreasuryError, workflow_error}
use comebackhere_contracts.Errors.Workflow.{WorkflowError}
use comebackhere_contracts.Host.{
  Env, Call, ok, err, ◌>>=◌, ◌>>◌, gets, modify, require_auth, fail_if, or_panic,
}
use comebackhere_contracts.Workflow.Storage.{State, Event, Contracts}

abbrev pub max_pause_targets : ℕ
max_pause_targets = 8

-- `stored == Some(a)`
abbrev pub holds : Option ℕ → ℕ → Bool
holds none a = false
holds (some b) a = b == a

module _ {S : Type 0} where
  -- `if b { return Err(e) }`
  abbrev pub refuse_if : Bool → WorkflowError → Call S (Unit {0})
  refuse_if true e s = err (workflow_error e)
  refuse_if false e s = ok (tt, s)

  -- `ok_or(e)?`
  abbrev pub or_refuse : {A : Type 0} → Option A → WorkflowError → Call S A
  or_refuse none e s = err (workflow_error e)
  or_refuse (some a) e s = ok (a, s)

module _ {W : Type 0} where
  abbrev pub emit : Event → Call (State W) (Unit {0})
  emit event = modify (λ s. record s { events = event ∷ s.events })

  unfoldable pub compliance_id : Call (State W) ℕ
  compliance_id = do
    configured ← gets (λ s. s.compliance_id)
    or_refuse configured WorkflowError.not_configured

  unfoldable pub treasury_id : Call (State W) ℕ
  treasury_id = do
    configured ← gets (λ s. s.treasury_id)
    or_refuse configured WorkflowError.not_configured

  unfoldable pub require_not_paused : Call (State W) (Unit {0})
  require_not_paused = do fail_if (← gets (λ s. s.paused)) TreasuryError.contract_paused

  unfoldable pub require_admin : {L : Type 0} → Env L → ℕ → Call (State W) (Unit {0})
  require_admin e admin = do
    require_auth e admin
    matches ← gets (λ s. holds s.admin admin)
    fail_if (not matches) TreasuryError.unauthorized

  -- `ComplianceClient::require_allowed_for_treasury`
  unfoldable pub require_allowed_for_treasury : Contracts W → ℕ → ℕ → Call (State W) (Unit {0})
  require_allowed_for_treasury c compliance merchant = do
    answer ← gets (λ s. c.is_allowed compliance merchant s.world)
    allowed ← or_panic answer
    fail_if (not allowed) TreasuryError.compliance_check_failed

  unfoldable pub require_pause_admin : ℕ → Call (State W) (Unit {0})
  require_pause_admin admin = do
    stored ← gets (λ s. s.emergency_pause_admin)
    configured ← or_refuse stored WorkflowError.not_configured
    refuse_if (not (configured == admin)) WorkflowError.unauthorized

  unfoldable pub pause_targets : Call (State W) (List ℕ)
  pause_targets = do
    stored ← gets (λ s. s.emergency_pause_targets)
    or_refuse stored WorkflowError.not_configured

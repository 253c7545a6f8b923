-- ===== src/Workflow/Emergency.antt =====
-- The emergency pause of contracts/settlement-workflow/src/lib.rs: its configuration, and the sweeps
-- that pause and resume the configured contracts.
pub mod Sweeps
pub mod Targets
pub mod Incident
use comebackhere_contracts.Prelude.{
  ℕ, Bool, true, false, not, ◌&&◌, Option, none, some, List, [], ◌∷◌, contains, length, is_empty,
  push_back, ltb, ◌==◌,
}
use comebackhere_contracts.Prelude.Int.{saturating_add}
use comebackhere_contracts.Errors.Workflow.{WorkflowError}
use comebackhere_contracts.Host.{Env, Call, ◌>>=◌, ◌>>◌, pure, gets, modify, require_auth}
use comebackhere_contracts.Workflow.Storage.{State, Event, Contracts}
use comebackhere_contracts.Workflow.Guards.{
  max_pause_targets, emit, refuse_if, or_refuse, require_pause_admin, pause_targets,
}

abbrev pub is_some : {A : Type 0} → Option A → Bool
is_some none = false
is_some (some a) = true

-- `list.iter().rev()`
abbrev pub reversed : List ℕ → List ℕ
reversed [] = []
reversed (x ∷ xs) = push_back (reversed xs) x

-- `min_delay_secs > 0` and too little time has passed
abbrev pub is_early : ℕ → ℕ → ℕ → Bool
is_early now paused_at min_delay_secs =
    ltb 0 min_delay_secs && ltb now (saturating_add paused_at min_delay_secs)

module _ {W : Type 0} where
  -- The loop of `validate_pause_targets`: this contract's address, and the targets seen so far.
  unfoldable pub validate_each : ℕ → List ℕ → List ℕ → Call (State W) (Unit {0})
  validate_each self_address [] seen = pure tt
  validate_each self_address (target ∷ rest) seen =
      refuse_if (target == self_address) WorkflowError.self_pause_target
      >> refuse_if (contains seen target) WorkflowError.duplicate_pause_target
      >> validate_each self_address rest (push_back seen target)

  unfoldable pub validate_pause_targets : {L : Type 0} → Env L → List ℕ → Call (State W) (Unit {0})
  validate_pause_targets e targets = do
    refuse_if (is_empty targets) WorkflowError.no_pause_targets
    refuse_if (ltb max_pause_targets (length targets)) WorkflowError.too_many_pause_targets
    validate_each e.self targets []

module _ {W L : Type 0} (e : Env L) where
  unfoldable pub initialize_emergency_pause : ℕ → List ℕ → Call (State W) (Unit {0})
  initialize_emergency_pause admin targets = do
    require_auth e admin
    active ← gets (λ s. is_some s.emergency_paused_at)
    refuse_if active WorkflowError.emergency_pause_active
    validate_pause_targets e targets
    modify (λ s. record s { emergency_pause_admin = some admin })
    modify (λ s. record s { emergency_pause_targets = some targets })
    emit (Event.emergency_pause_configured admin targets)

module _ {W L : Type 0} (e : Env L) (c : Contracts W) where
  -- The loops of the two sweeps; each returns the contracts it has reached.
  unfoldable pub pause_each : List ℕ → List ℕ → Call (State W) (List ℕ)
  pause_each [] paused = pure paused
  pause_each (target ∷ rest) paused =
      gets (λ s. c.pause target e.self s.world)
      >>= (λ result. or_refuse result WorkflowError.pause_target_failed)
      >>= (λ after. modify (λ s. record s { world = after }))
      >> pause_each rest (push_back paused target)

  unfoldable pub unpause_each : List ℕ → List ℕ → Call (State W) (List ℕ)
  unpause_each [] resumed = pure resumed
  unpause_each (target ∷ rest) resumed =
      gets (λ s. c.unpause target e.self s.world)
      >>= (λ result. or_refuse result WorkflowError.unpause_target_failed)
      >>= (λ after. modify (λ s. record s { world = after }))
      >> unpause_each rest (push_back resumed target)

  unfoldable pub emergency_pause_all : ℕ → Call (State W) (List ℕ)
  emergency_pause_all admin = do
    require_auth e admin
    require_pause_admin admin
    targets ← pause_targets
    paused ← pause_each targets []
    modify (λ s. record s { emergency_paused_at = some e.now })
    emit (Event.emergency_pause_completed admin paused)
    pure paused

  unfoldable pub resume_all : ℕ → ℕ → Call (State W) (List ℕ)
  resume_all admin min_delay_secs = do
    require_auth e admin
    require_pause_admin admin
    stored ← gets (λ s. s.emergency_paused_at)
    paused_at ← or_refuse stored WorkflowError.not_emergency_paused
    refuse_if (is_early e.now paused_at min_delay_secs) WorkflowError.resume_too_early
    targets ← pause_targets
    resumed ← unpause_each (reversed targets) []
    modify (λ s. record s { emergency_paused_at = none })
    emit (Event.emergency_pause_resumed resumed)
    pure resumed

-- ===== src/Workflow/Emergency/Sweeps.antt =====
-- What the sweeps of the emergency pause do to the other contracts
-- (contracts/settlement-workflow/src/lib.rs).
use mathlib.Core.List.{append-nil}
use comebackhere_contracts.Prelude.{
  ℕ, ◌≡◌, true, false, Option, none, some, List, [], ◌∷◌, ◌++◌, push_back, arith, append-push_back,
  Option-cases, inl, inr,
}
use comebackhere_contracts.Errors.{workflow_error}
use comebackhere_contracts.Errors.Workflow.{WorkflowError}
use comebackhere_contracts.Host.{Env, Result, ok, err}
use comebackhere_contracts.Workflow.Storage.{State, Event, Contracts}
use comebackhere_contracts.Workflow.Guards.{require_pause_admin, pause_targets}
use comebackhere_contracts.Workflow.Emergency.{
  reversed, is_early, pause_each, unpause_each, emergency_pause_all, resume_all,
}

-- The calls of one sweep in a row: all of them succeed, or there is no result.
-- `one` is the call of one contract.
abbrev pub sweep : {W : Type 0} → (ℕ → W → Option W) → List ℕ → W → Option W
sweep one [] w = some w
sweep one (target ∷ rest) w = elim (one target w) [ none ↦ none | some v ↦ sweep one rest v ]

abbrev pub swept :
    {W A : Type 0} → Option W → WorkflowError → A → (W → State W) → Result (A × State W)
swept none e a f = err (workflow_error e)
swept (some v) e a f = ok (a, f v)

module _ {W L : Type 0} (e : Env L) (c : Contracts W) where
  pub pause_each-sweep :
      (targets paused : List ℕ) (s : State W)
      → pause_each e c targets paused s
        ≡ swept
            (sweep (λ t w. c.pause t e.self w) targets s.world)
            WorkflowError.pause_target_failed
            (paused ++ targets)
            (λ v. record s { world = v })
  unfolding pause_each
  pause_each-sweep [] paused s = ground (arith, append-nil paused)
  pause_each-sweep (target ∷ rest) paused s = elim (Option-cases (c.pause target e.self s.world)) [
    | inl h ↦ ground (arith, h)
    | inr (v, h) ↦ ground (
      arith,
      h,
      append-push_back paused target rest,
      pause_each-sweep rest (push_back paused target) (record s { world = v }),
    )
  ]

  pub unpause_each-sweep :
      (targets resumed : List ℕ) (s : State W)
      → unpause_each e c targets resumed s
        ≡ swept
            (sweep (λ t w. c.unpause t e.self w) targets s.world)
            WorkflowError.unpause_target_failed
            (resumed ++ targets)
            (λ v. record s { world = v })
  unfolding unpause_each
  unpause_each-sweep [] resumed s = ground (arith, append-nil resumed)
  unpause_each-sweep (target ∷ rest) resumed s =
      elim (Option-cases (c.unpause target e.self s.world)) [
        | inl h ↦ ground (arith, h)
        | inr (v, h) ↦ ground (
          arith,
          h,
          append-push_back resumed target rest,
          unpause_each-sweep rest (push_back resumed target) (record s { world = v }),
        )
      ]

  -- The sweep is the calls in a row, or nothing.
  pub emergency_pause_all_or_nothing :
      (admin : ℕ) (targets : List ℕ) (s : State W)
      → e.signed admin ≡ true
      → s.emergency_pause_admin ≡ some admin
      → s.emergency_pause_targets ≡ some targets
      → emergency_pause_all e c admin s
        ≡ swept
            (sweep (λ t w. c.pause t e.self w) targets s.world)
            WorkflowError.pause_target_failed
            targets
            (λ v. record s {
              world = v;
              emergency_paused_at = some e.now;
              events = Event.emergency_pause_completed admin targets ∷ s.events;
            })
  unfolding emergency_pause_all require_pause_admin pause_targets
  emergency_pause_all_or_nothing admin targets s signed known configured =
      ground (arith, pause_each-sweep targets [] s)

  pub resume_all_or_nothing :
      (admin min_delay_secs paused_at : ℕ) (targets : List ℕ) (s : State W)
      → e.signed admin ≡ true
      → s.emergency_pause_admin ≡ some admin
      → s.emergency_pause_targets ≡ some targets
      → s.emergency_paused_at ≡ some paused_at
      → is_early e.now paused_at min_delay_secs ≡ false
      → resume_all e c admin min_delay_secs s
        ≡ swept
            (sweep (λ t w. c.unpause t e.self w) (reversed targets) s.world)
            WorkflowError.unpause_target_failed
            (reversed targets)
            (λ v. record s {
              world = v;
              emergency_paused_at = none;
              events = Event.emergency_pause_resumed (reversed targets) ∷ s.events;
            })
  unfolding resume_all require_pause_admin pause_targets
  resume_all_or_nothing admin min_delay_secs paused_at targets s signed known configured active
        late =
      ground (arith, unpause_each-sweep (reversed targets) [] s)

-- ===== src/Workflow/Machine/Invariant.antt =====
-- What every reachable state of the settlement workflow satisfies
-- (contracts/settlement-workflow/src/lib.rs).
use comebackhere_contracts.Prelude.{
  ℕ, ◌≡◌, Bool, true, not, ◌||◌, Option, none, some, List, arith, Option-cases, inl, inr, [], ◌∷◌,
  push_back,
}
use comebackhere_contracts.Host.{Env, Ensures}
use comebackhere_contracts.Workflow.Storage.{State, Event, Contracts}
use comebackhere_contracts.Workflow.Guards.{
  compliance_id, treasury_id, require_not_paused, require_admin, require_allowed_for_treasury,
  require_pause_admin, pause_targets,
}
use comebackhere_contracts.Workflow.Admin
use comebackhere_contracts.Workflow.Gate
use comebackhere_contracts.Workflow.Emergency
use comebackhere_contracts.Workflow.Emergency.{is_some, reversed, is_early}
use comebackhere_contracts.Workflow.Emergency.Targets.{is_sweepable, validate_pause_targets-Ensures}
use comebackhere_contracts.Workflow.Emergency.Sweeps.{sweep, pause_each-sweep, unpause_each-sweep}
use comebackhere_contracts.Workflow.Machine.{Op, call, left}

abbrev pub sweepable_if_set : ℕ → Option (List ℕ) → Bool
sweepable_if_set self_address none = true
sweepable_if_set self_address (some targets) = is_sweepable self_address targets

-- The pinned contracts stay, there is an administrator, the configured contracts can be swept, and
-- while an emergency pause is active it has an administrator and contracts to resume.
pub record IsSound {W : Type 0} (self_address compliance treasury : ℕ) (s : State W) : Type 0 where
  pub pinned : s.compliance_id ≡ some compliance
  pub trusted : s.treasury_id ≡ some treasury
  pub administered : is_some s.admin ≡ true
  pub sweepable : sweepable_if_set self_address s.emergency_pause_targets ≡ true
  pub configured : is_some s.emergency_pause_targets ≡ is_some s.emergency_pause_admin
  pub resumable : (not (is_some s.emergency_paused_at) || is_some s.emergency_pause_admin) ≡ true

-- What the loops of the calls leave alone.
pub record SameStorage {W : Type 0} (s t : State W) : Type 0 where
  pub compliance : t.compliance_id ≡ s.compliance_id
  pub treasury : t.treasury_id ≡ s.treasury_id
  pub admin : t.admin ≡ s.admin
  pub pause_admin : t.emergency_pause_admin ≡ s.emergency_pause_admin
  pub targets : t.emergency_pause_targets ≡ s.emergency_pause_targets
  pub paused_at : t.emergency_paused_at ≡ s.emergency_paused_at

module _ {W L : Type 0} (e : Env L) (c : Contracts W) where
  settle_each-same :
      (treasury token merchant : ℕ) (ids executed : List ℕ) (s : State W)
      → Ensures
          (λ all after. SameStorage s after)
          (Gate.settle_each e c treasury token merchant ids executed s)
  unfolding Gate.settle_each Gate.settle_tried
  settle_each-same treasury token merchant [] executed s = ground arith
  settle_each-same treasury token merchant (id ∷ rest) executed s =
      elim (Option-cases (c.execute_settlement treasury e.self id token s.world)) [
        | inl h ↦ ground (arith, h, settle_each-same treasury token merchant rest executed s)
        | inr (v, h) ↦ elim (Option-cases (c.settlement_amount treasury id v)) [
          | inl g ↦ ground (arith, h, g)
          | inr (amount, g) ↦ ground (
            arith,
            h,
            g,
            settle_each-same treasury token merchant rest (push_back executed id) (record s {
              world = v;
              events = Event.settlement_workflow_executed id merchant token amount ∷ s.events;
            }),
          )
        ]
      ]

  module _ (compliance treasury : ℕ) (s : State W) (h : IsSound e.self compliance treasury s) where
    transfer_admin-IsSound :
        (admin new_admin : ℕ)
        → Ensures
            (λ done after. IsSound e.self compliance treasury after)
            (Admin.transfer_admin e admin new_admin s)
    unfolding Admin.transfer_admin require_admin
    transfer_admin-IsSound admin new_admin = ground (arith, h)

    accept_admin-IsSound :
        (new_admin : ℕ)
        → Ensures
            (λ done after. IsSound e.self compliance treasury after)
            (Admin.accept_admin e new_admin s)
    unfolding Admin.accept_admin
    accept_admin-IsSound new_admin = ground (arith, h)

    pause-IsSound :
        (admin : ℕ)
        → Ensures (λ done after. IsSound e.self compliance treasury after) (Admin.pause e admin s)
    unfolding Admin.pause require_admin
    pause-IsSound admin = ground (arith, h)

    unpause-IsSound :
        (admin : ℕ)
        → Ensures (λ done after. IsSound e.self compliance treasury after) (Admin.unpause e admin s)
    unfolding Admin.unpause require_admin
    unpause-IsSound admin = ground (arith, h)

    execute_with_compliance-IsSound :
        (id token merchant : ℕ)
        → Ensures
            (λ done after. IsSound e.self compliance treasury after)
            (Gate.execute_with_compliance e c id token merchant s)
    unfolding Gate.execute_with_compliance require_not_paused compliance_id treasury_id
        require_allowed_for_treasury
    execute_with_compliance-IsSound id token merchant = ground (arith, h)

    execute_with_compliance_batch-IsSound :
        (ids : List ℕ) (token merchant : ℕ)
        → Ensures
            (λ executed after. IsSound e.self compliance treasury after)
            (Gate.execute_with_compliance_batch e c ids token merchant s)
    unfolding Gate.execute_with_compliance_batch require_not_paused compliance_id treasury_id
        require_allowed_for_treasury
    execute_with_compliance_batch-IsSound ids token merchant =
        ground (arith, h, settle_each-same treasury token merchant ids [] s)

    initialize_emergency_pause-IsSound :
        (admin : ℕ) (targets : List ℕ)
        → Ensures
            (λ done after. IsSound e.self compliance treasury after)
            (Emergency.initialize_emergency_pause e admin targets s)
    unfolding Emergency.initialize_emergency_pause
    initialize_emergency_pause-IsSound admin targets =
        ground (arith, h, validate_pause_targets-Ensures e targets s)

    emergency_pause_all-IsSound :
        (admin : ℕ)
        → Ensures
            (λ paused after. IsSound e.self compliance treasury after)
            (Emergency.emergency_pause_all e c admin s)
    unfolding Emergency.emergency_pause_all require_pause_admin pause_targets
    emergency_pause_all-IsSound admin = elim (Option-cases s.emergency_pause_targets) [
      | inl x ↦ ground (arith, x)
      | inr (ts, x) ↦ elim (Option-cases (sweep (λ t w. c.pause t e.self w) ts s.world)) [
        | inl y ↦ ground (arith, x, y, pause_each-sweep e c ts [] s)
        | inr (v, y) ↦ ground (arith, x, y, h, pause_each-sweep e c ts [] s)
      ]
    ]

    resume_all-IsSound :
        (admin min_delay_secs : ℕ)
        → Ensures
            (λ resumed after. IsSound e.self compliance treasury after)
            (Emergency.resume_all e c admin min_delay_secs s)
    unfolding Emergency.resume_all require_pause_admin pause_targets
    resume_all-IsSound admin min_delay_secs = elim (Option-cases s.emergency_pause_targets) [
      | inl x ↦ ground (arith, x)
      | inr (ts, x) ↦
          elim (Option-cases (sweep (λ t w. c.unpause t e.self w) (reversed ts) s.world)) [
            | inl y ↦ ground (arith, x, y, unpause_each-sweep e c (reversed ts) [] s)
            | inr (v, y) ↦ ground (arith, x, y, h, unpause_each-sweep e c (reversed ts) [] s)
          ]
    ]

    -- Every call keeps the invariant, failed calls included.
    pub left-IsSound : (op : Op) → IsSound e.self compliance treasury (left s (call e c op s))
    unfolding call
    left-IsSound (Op.transfer_admin admin new_admin) =
        ground (arith, h, transfer_admin-IsSound admin new_admin)
    left-IsSound (Op.accept_admin new_admin) = ground (arith, h, accept_admin-IsSound new_admin)
    left-IsSound (Op.pause admin) = ground (arith, h, pause-IsSound admin)
    left-IsSound (Op.unpause admin) = ground (arith, h, unpause-IsSound admin)
    left-IsSound (Op.execute_with_compliance id token merchant) =
        ground (arith, h, execute_with_compliance-IsSound id token merchant)
    left-IsSound (Op.execute_with_compliance_batch ids token merchant) =
        ground (arith, h, execute_with_compliance_batch-IsSound ids token merchant)
    left-IsSound (Op.initialize_emergency_pause admin targets) =
        ground (arith, h, initialize_emergency_pause-IsSound admin targets)
    left-IsSound (Op.emergency_pause_all admin) =
        ground (arith, h, emergency_pause_all-IsSound admin)
    left-IsSound (Op.resume_all admin min_delay_secs) =
        ground (arith, h, resume_all-IsSound admin min_delay_secs)

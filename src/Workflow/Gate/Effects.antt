-- ===== src/Workflow/Gate/Effects.antt =====
-- What the gated settlement lets through, and what a batch executes
-- (contracts/settlement-workflow/src/lib.rs).
use mathlib.Core.List.{append-nil}
use comebackhere_contracts.Prelude.{
  ℕ, ◌≡◌, refl, true, false, Option, none, some, List, [], ◌∷◌, ◌++◌, length, push_back, arith,
  if◌then◌else◌, append-push_back, Option-cases, inl, inr,
}
use comebackhere_contracts.Errors.{TreasuryError, error}
use comebackhere_contracts.Host.{Env, Result, ok, err, Ensures, succeeds}
use comebackhere_contracts.Workflow.Storage.{State, Event, Contracts}
use comebackhere_contracts.Workflow.Guards.{
  compliance_id, treasury_id, require_not_paused, require_allowed_for_treasury,
}
use comebackhere_contracts.Workflow.Emergency.{is_some}
use comebackhere_contracts.Workflow.Gate.{
  execute_with_compliance, settle_tried, settle_each, execute_with_compliance_batch,
}

-- The ids for which the call succeeds, one after the other, and the state that they leave.
abbrev pub settled : {W : Type 0} → (ℕ → W → Option W) → List ℕ → W → List ℕ × W
settled one [] w = ([], w)
settled one (id ∷ rest) w = elim (one id w) [
  | none ↦ settled one rest w
  | some v ↦ (id ∷ (settled one rest v).0, (settled one rest v).1)
]

-- `Option::and_then`
abbrev pub and_then : {A B : Type 0} → Option A → (A → Option B) → Option B
and_then none f = none
and_then (some a) f = f a

abbrev pub newest : List Event → Option Event
newest [] = none
newest (event ∷ events) = some event

abbrev pub world_left : {W A : Type 0} → Result (A × State W) → Option W
world_left (ok r) = some r.1.world
world_left (err f) = none

module _ {W L : Type 0} (e : Env L) (c : Contracts W) where
  -- If a gated settlement succeeds, the workflow was not paused, the pinned compliance contract
  -- allowed the merchant, the other contracts are as one execution in the pinned treasury
  -- contract leaves them, with the workflow as the signer, and the one new event has the amount
  -- that the treasury then stores.
  pub gate_passes_only_allowed :
      (id token merchant : ℕ) (s : State W)
      → Ensures
          (λ done after.
            (s.paused ≡ false)
            × (and_then s.compliance_id (λ k. c.is_allowed k merchant s.world) ≡ some true)
            × (and_then s.treasury_id (λ k. c.execute_settlement k e.self id token s.world)
                ≡ some after.world)
            × (and_then s.treasury_id (λ k.
                  and_then (c.settlement_amount k id after.world) (λ amount.
                    some (Event.settlement_workflow_executed id merchant token amount ∷ s.events)))
                ≡ some after.events))
          (execute_with_compliance e c id token merchant s)
  unfolding execute_with_compliance require_not_paused compliance_id treasury_id
      require_allowed_for_treasury
  gate_passes_only_allowed id token merchant s = ground arith

  -- The pinned treasury contract is called in the same way, with the same outcome, for any two
  -- merchants that compliance allows: which of them the call names has no effect on what is paid.
  pub gate_ignores_settlement_merchant :
      (id token merchant other compliance : ℕ) (s : State W)
      → s.compliance_id ≡ some compliance
      → c.is_allowed compliance merchant s.world ≡ some true
      → c.is_allowed compliance other s.world ≡ some true
      → world_left (execute_with_compliance e c id token merchant s)
        ≡ world_left (execute_with_compliance e c id token other s)
  unfolding execute_with_compliance require_not_paused compliance_id treasury_id
      require_allowed_for_treasury
  gate_ignores_settlement_merchant id token merchant other compliance s pinned h g =
      ground (arith, pinned, h, g)

  -- For an address that the pinned compliance contract does not allow, the single settlement and
  -- the batch fail with the same error: that of the pause while the workflow is paused, that of
  -- the compliance check otherwise.
  pub gate_refusals :
      (id : ℕ) (ids : List ℕ) (token merchant compliance : ℕ) (s : State W)
      → s.compliance_id ≡ some compliance
      → c.is_allowed compliance merchant s.world ≡ some false
      → let refusal = error (
          if s.paused
          then TreasuryError.contract_paused
          else TreasuryError.compliance_check_failed) in
        (execute_with_compliance e c id token merchant s ≡ err refusal)
        × (execute_with_compliance_batch e c ids token merchant s ≡ err refusal)
  unfolding execute_with_compliance execute_with_compliance_batch require_not_paused compliance_id
      treasury_id require_allowed_for_treasury
  gate_refusals id ids token merchant compliance s pinned refused = ground arith

  abbrev pub settling : ℕ → ℕ → ℕ → W → Option W
  settling treasury token id w = c.execute_settlement treasury e.self id token w

  settle_each-settled :
      (treasury token merchant : ℕ) (ids executed : List ℕ) (s : State W)
      → Ensures
          (λ all after.
            (all ≡ executed ++ (settled (settling treasury token) ids s.world).0)
            × (after.world ≡ (settled (settling treasury token) ids s.world).1))
          (settle_each e c treasury token merchant ids executed s)
  unfolding settle_each settle_tried
  settle_each-settled treasury token merchant [] executed s = ground (arith, append-nil executed)
  settle_each-settled treasury token merchant (id ∷ rest) executed s =
      elim (Option-cases (c.execute_settlement treasury e.self id token s.world)) [
        | inl h ↦ ground (arith, h, settle_each-settled treasury token merchant rest executed s)
        | inr (v, h) ↦ elim (Option-cases (c.settlement_amount treasury id v)) [
          | inl g ↦ ground (arith, h, g)
          | inr (amount, g) ↦ ground (
            arith,
            h,
            g,
            append-push_back executed id (settled (settling treasury token) rest v).0,
            settle_each-settled treasury token merchant rest (push_back executed id) (record s {
              world = v;
              events = Event.settlement_workflow_executed id merchant token amount ∷ s.events;
            }),
          )
        ]
      ]

  -- A batch that succeeds has executed, in the order given, every settlement for which the pinned
  -- treasury contract's execution succeeds when its turn comes, and skipped the others; it returns
  -- the executed ones, and the last event counts both.
  pub batch_executes_settled :
      (ids : List ℕ) (token merchant treasury : ℕ) (s : State W)
      → s.treasury_id ≡ some treasury
      → Ensures
          (λ executed after.
            (executed ≡ (settled (settling treasury token) ids s.world).0)
            × (after.world ≡ (settled (settling treasury token) ids s.world).1)
            × (newest after.events
                ≡ some (Event.workflow_batch_completed (length ids) (length executed))))
          (execute_with_compliance_batch e c ids token merchant s)
  unfolding execute_with_compliance_batch require_not_paused compliance_id treasury_id
      require_allowed_for_treasury
  batch_executes_settled ids token merchant treasury s pinned =
      ground (arith, settle_each-settled treasury token merchant ids [] s)

  module _
      (readable : (treasury signer id token : ℕ) (w v : W)
        → c.execute_settlement treasury signer id token w ≡ some v
        → is_some (c.settlement_amount treasury id v) ≡ true) where
    settle_each-succeeds :
        (treasury token merchant : ℕ) (ids executed : List ℕ) (s : State W)
        → succeeds (settle_each e c treasury token merchant ids executed s) ≡ true
    unfolding settle_each settle_tried
    settle_each-succeeds treasury token merchant [] executed s = refl
    settle_each-succeeds treasury token merchant (id ∷ rest) executed s =
        elim (Option-cases (c.execute_settlement treasury e.self id token s.world)) [
          | inl h ↦ ground (arith, h, settle_each-succeeds treasury token merchant rest executed s)
          | inr (v, h) ↦ elim (Option-cases (c.settlement_amount treasury id v)) [
            | inl g ↦ ground (arith, g, readable treasury e.self id token s.world v h)
            | inr (amount, g) ↦ ground (
              arith,
              h,
              g,
              settle_each-succeeds treasury token merchant rest (push_back executed id) (record s {
                world = v;
                events = Event.settlement_workflow_executed id merchant token amount ∷ s.events;
              }),
            )
          ]
        ]

    -- If the amount of an executed settlement can be read, a batch for an allowed merchant succeeds
    -- while the workflow is not paused, whichever of its settlements the treasury contract refuses.
    pub batch_never_aborts :
        (ids : List ℕ) (token merchant compliance treasury : ℕ) (s : State W)
        → s.paused ≡ false
        → s.compliance_id ≡ some compliance
        → s.treasury_id ≡ some treasury
        → c.is_allowed compliance merchant s.world ≡ some true
        → succeeds (execute_with_compliance_batch e c ids token merchant s) ≡ true
    unfolding execute_with_compliance_batch require_not_paused compliance_id treasury_id
        require_allowed_for_treasury
    batch_never_aborts ids token merchant compliance treasury s live pinned trusted allowed =
        ground (arith, settle_each-succeeds treasury token merchant ids [] s)

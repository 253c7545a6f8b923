-- ===== src/Workflow/Gate.antt =====
-- The gated settlement of contracts/settlement-workflow/src/lib.rs: `execute_with_compliance` and
-- `execute_with_compliance_batch`.
pub mod Effects
use comebackhere_contracts.Prelude.{
  ℕ, Bool, true, false, Option, none, some, List, [], ◌∷◌, length, push_back,
}
use comebackhere_contracts.Prelude.Int.{ℤ}
use comebackhere_contracts.Host.{Env, Call, ok, ◌>>=◌, ◌>>◌, pure, gets, modify, or_panic}
use comebackhere_contracts.Workflow.Storage.{State, Event, Contracts}
use comebackhere_contracts.Workflow.Guards.{
  emit, compliance_id, treasury_id, require_not_paused, require_allowed_for_treasury,
}

module _ {W L : Type 0} (e : Env L) (c : Contracts W) where
  unfoldable pub execute_with_compliance : ℕ → ℕ → ℕ → Call (State W) (Unit {0})
  execute_with_compliance settlement_id token_contract merchant = do
    require_not_paused
    compliance ← compliance_id
    require_allowed_for_treasury c compliance merchant
    treasury ← treasury_id
    result ← gets (λ s. c.execute_settlement treasury e.self settlement_id token_contract s.world)
    after ← or_panic result
    modify (λ s. record s { world = after })
    found ← gets (λ s. c.settlement_amount treasury settlement_id s.world)
    amount ← or_panic found
    emit (Event.settlement_workflow_executed settlement_id merchant token_contract amount)

  -- One turn of the batch's loop: what `try_execute_settlement` returned, and the ids so far.
  unfoldable pub settle_tried : ℕ → ℕ → ℕ → ℕ → List ℕ → Option W → Call (State W) (List ℕ)
  settle_tried treasury token_contract merchant id executed none s = ok (executed, s)
  settle_tried treasury token_contract merchant id executed (some after) s =
      (modify (λ s. record s { world = after })
          >> gets (λ s. c.settlement_amount treasury id s.world)
          >>= or_panic
          >>= λ amount.
              emit (Event.settlement_workflow_executed id merchant token_contract amount)
              >> pure (push_back executed id))
        s

  unfoldable pub settle_each : ℕ → ℕ → ℕ → List ℕ → List ℕ → Call (State W) (List ℕ)
  settle_each treasury token_contract merchant [] executed = pure executed
  settle_each treasury token_contract merchant (id ∷ rest) executed =
      gets (λ s. c.execute_settlement treasury e.self id token_contract s.world)
      >>= (λ result. settle_tried treasury token_contract merchant id executed result)
      >>= (λ so_far. settle_each treasury token_contract merchant rest so_far)

  unfoldable pub execute_with_compliance_batch : List ℕ → ℕ → ℕ → Call (State W) (List ℕ)
  execute_with_compliance_batch settlement_ids token_contract merchant = do
    require_not_paused
    compliance ← compliance_id
    require_allowed_for_treasury c compliance merchant
    treasury ← treasury_id
    executed ← settle_each treasury token_contract merchant settlement_ids []
    emit (Event.workflow_batch_completed (length settlement_ids) (length executed))
    pure executed

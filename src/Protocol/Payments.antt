-- ===== src/Protocol/Payments.antt =====
-- What a gated settlement pays, and to whom.
use comebackhere_contracts.Prelude.{ℕ, ◌≡◌, true, some, arith}
use comebackhere_contracts.Host.{Env, ok}
use comebackhere_contracts.Multisig.Types.{Settlement}
use comebackhere_contracts.Compliance.Decision.{is_allowed, is_allowed_for_amount}
use comebackhere_contracts.Treasury.Execution.{execute_settlement}
use comebackhere_contracts.Treasury.Guards.{write_settlement}
use comebackhere_contracts.Treasury.Payments.{paid, IsCleared}
use comebackhere_contracts.Treasury.Payments.Whole.{execute_settlement_pays}
use comebackhere_contracts.Workflow.Storage.{State}
use comebackhere_contracts.Workflow.Gate.{execute_with_compliance}
use comebackhere_contracts.Workflow.Gate.Effects.{gate_passes_only_allowed}
use comebackhere_contracts.Workflow.Emergency.{is_some}
use comebackhere_contracts.Protocol.{Addresses, Protocol, within, contracts}

module _ {L : Type 0} (e : Env L) (at : Addresses) where
  executed_by :
      (treasury signer id token : ℕ) (w v : Protocol L)
      → (contracts e at).execute_settlement treasury signer id token w ≡ some v
      → (treasury ≡ at.treasury)
        × (execute_settlement (within e at at.treasury w.compliance) signer id token w.treasury
            ≡ ok (tt, v.treasury))
  executed_by treasury signer id token w v h = ground (arith, h)

  executed_settlement :
      (treasury signer id token : ℕ) (w v : Protocol L)
      → (contracts e at).execute_settlement treasury signer id token w ≡ some v
      → (a : Settlement) × (treasury ≡ at.treasury)
        × (w.treasury.settlement id ≡ some a)
        × IsCleared (within e at at.treasury w.compliance) w.treasury a
        × (v.treasury.settlement id ≡ some (paid a))
  unfolding write_settlement
  executed_settlement treasury signer id token w v h =
      let run = executed_by treasury signer id token w v h in
      let x =
        execute_settlement_pays (within e at at.treasury w.compliance) signer id token w.treasury
          v.treasury run.1 in
      (x.0, run.0, x.3, x.4.cleared, ground (arith, x.6))

  -- In the treasury's model, the amount of an executed settlement can be read.
  pub contracts-readable :
      (treasury signer id token : ℕ) (w v : Protocol L)
      → (contracts e at).execute_settlement treasury signer id token w ≡ some v
      → is_some ((contracts e at).settlement_amount treasury id v) ≡ true
  contracts-readable treasury signer id token w v h =
      let x = executed_settlement treasury signer id token w v h in ground (arith, x.1, x.4)

  allowed_in_world :
      (id token merchant : ℕ) (s after : State (Protocol L))
      → s.compliance_id ≡ some at.compliance
      → execute_with_compliance e (contracts e at) id token merchant s ≡ ok (tt, after)
      → is_allowed e s.world.compliance merchant ≡ true
  allowed_in_world id token merchant s after pinned run =
      ground (arith, pinned, run, gate_passes_only_allowed e (contracts e at) id token merchant s)

  executed_in_world :
      (id token merchant : ℕ) (s after : State (Protocol L))
      → s.treasury_id ≡ some at.treasury
      → execute_with_compliance e (contracts e at) id token merchant s ≡ ok (tt, after)
      → (contracts e at).execute_settlement at.treasury e.self id token s.world ≡ some after.world
  executed_in_world id token merchant s after trusted run =
      ground (arith, trusted, run, gate_passes_only_allowed e (contracts e at) id token merchant s)

  -- With both contracts pinned by the workflow, and the compliance contract by the treasury: if a
  -- gated settlement succeeds, compliance allowed the merchant named in the call, the settlement was
  -- stored, compliance allowed that settlement's own merchant for its amount, and it is stored as
  -- executed.
  pub gated_payment :
      (id token merchant : ℕ) (s after : State (Protocol L))
      → s.compliance_id ≡ some at.compliance
      → s.treasury_id ≡ some at.treasury
      → s.world.treasury.compliance_id ≡ some at.compliance
      → execute_with_compliance e (contracts e at) id token merchant s ≡ ok (tt, after)
      → (is_allowed e s.world.compliance merchant ≡ true)
        × ((a : Settlement) × (s.world.treasury.settlement id ≡ some a)
            × (is_allowed_for_amount e s.world.compliance a.merchant_address a.amount ≡ true)
            × (after.world.treasury.settlement id ≡ some (paid a)))
  gated_payment id token merchant s after pinned trusted own run =
      let x =
        executed_settlement at.treasury e.self id token s.world after.world
          (executed_in_world id token merchant s after trusted run) in
      (
        allowed_in_world id token merchant s after pinned run,
        (x.0, x.2, ground (arith, own, x.3), x.4),
      )

-- ===== src/Tests/Workflows.antt =====
-- The theorems on the settlement workflow and on the three contracts together, at concrete calls.
use comebackhere_contracts.Prelude.{
  ℕ, ◌≡◌, refl, true, false, not, ◌&&◌, none, some, [], ◌∷◌, length, contains, arith, put,
}
use comebackhere_contracts.Errors.{TreasuryError, error}
use comebackhere_contracts.Host.{Result, Ensures, ok, err, succeeds}
use comebackhere_contracts.Multisig.Types.{Settlement}
use comebackhere_contracts.Compliance.Decision.{is_allowed, is_allowed_at, is_allowed_for_amount}
use comebackhere_contracts.Compliance.Listing.{allow_address}
use comebackhere_contracts.Treasury.Execution.{execute_settlement}
use comebackhere_contracts.Treasury.Payments.{paid}
use comebackhere_contracts.Workflow.Storage.{State, Event, Contracts}
use comebackhere_contracts.Workflow.Admin.{constructed, undeployed}
use comebackhere_contracts.Workflow.Gate.{execute_with_compliance, execute_with_compliance_batch}
use comebackhere_contracts.Workflow.Gate.Effects.{
  settled, settling, newest, world_left, gate_refusals, batch_executes_settled, batch_never_aborts,
  gate_ignores_settlement_merchant,
}
use comebackhere_contracts.Workflow.Emergency.{
  reversed, validate_pause_targets, initialize_emergency_pause, emergency_pause_all, resume_all,
}
use comebackhere_contracts.Workflow.Emergency.Incident.{resume_all_lifts_earlier_pause}
use comebackhere_contracts.Workflow.Machine.{Op, call, left, Reachable}
use comebackhere_contracts.Workflow.Machine.Invariant.{IsSound}
use comebackhere_contracts.Workflow.Machine.Reached.{reachable-IsSound}
use comebackhere_contracts.Protocol.{Addresses, Protocol, contracts, is_paused}
use comebackhere_contracts.Protocol.Payments.{contracts-readable, gated_payment}
use comebackhere_contracts.Protocol.Incidents.{
  contracts-pausing, contracts-unpausing, emergency_stops_payments,
}
use comebackhere_contracts.Tests.{world, payable, holding}
use comebackhere_contracts.Tests.Listings.{register}

abbrev addresses : Addresses
addresses = record { workflow = 0; compliance = 20; treasury = 30 }

abbrev others : Contracts (Protocol ℕ)
others = contracts (world 20) addresses

-- The workflow is the administrator of both contracts, and a signer of the treasury.
abbrev protocol : Protocol ℕ
protocol = record {
  compliance = record register { admin = some 0 };
  treasury = record (holding payable) {
    admin = some 0;
    compliance_id = some 20;
    signer = put 0 2 (λ _. none);
  };
}

abbrev configured : State (Protocol ℕ)
unfolding undeployed
configured = record (undeployed protocol) {
  compliance_id = some 20;
  treasury_id = some 30;
  admin = some 1;
  emergency_pause_admin = some 1;
  emergency_pause_targets = some (20 ∷ 30 ∷ []);
}

abbrev reached :
    {A : Type 0} → State (Protocol ℕ) → Result (A × State (Protocol ℕ)) → State (Protocol ℕ)
reached s (ok r) = r.1
reached s (err f) = s

gate_refusals_example :
    (execute_with_compliance (world 20) others 1 3 9 configured
      ≡ err (error TreasuryError.compliance_check_failed))
    × (execute_with_compliance_batch (world 20) others (1 ∷ 4 ∷ []) 3 9 configured
        ≡ err (error TreasuryError.compliance_check_failed))
unfolding undeployed is_allowed is_allowed_at
gate_refusals_example = gate_refusals (world 20) others 1 (1 ∷ 4 ∷ []) 3 9 20 configured refl refl

batch_executes_settled_example :
    Ensures
      (λ executed after.
        (executed ≡ (settled (settling (world 20) others 30 3) (1 ∷ 4 ∷ []) protocol).0)
        × (after.world ≡ (settled (settling (world 20) others 30 3) (1 ∷ 4 ∷ []) protocol).1)
        × (newest after.events ≡ some (Event.workflow_batch_completed 2 (length executed))))
      (execute_with_compliance_batch (world 20) others (1 ∷ 4 ∷ []) 3 7 configured)
unfolding undeployed
batch_executes_settled_example =
    batch_executes_settled (world 20) others (1 ∷ 4 ∷ []) 3 7 30 configured refl

batch_never_aborts_example :
    succeeds (execute_with_compliance_batch (world 20) others (1 ∷ 4 ∷ []) 3 7 configured) ≡ true
unfolding undeployed is_allowed is_allowed_at
batch_never_aborts_example =
    batch_never_aborts (world 20) others (contracts-readable (world 20) addresses) (1 ∷ 4 ∷ []) 3 7
      20 30 configured refl refl refl refl

abbrev stopped : State (Protocol ℕ)
stopped = reached configured (emergency_pause_all (world 20) others 1 configured)

-- The treasury is paused already.
abbrev paused_before : State (Protocol ℕ)
paused_before = record configured {
  world = record protocol { treasury = record protocol.treasury { paused = true } };
}

abbrev stopped_again : State (Protocol ℕ)
stopped_again = reached paused_before (emergency_pause_all (world 20) others 1 paused_before)

abbrev resumed : State (Protocol ℕ)
resumed = reached stopped_again (resume_all (world 90) others 1 60 stopped_again)

resume_all_lifts_earlier_pause_example :
    (is_paused addresses 30 stopped_again.world ≡ true)
    × (contains (30 ∷ 20 ∷ []) 30 ≡ true)
    × (is_paused addresses 30 resumed.world ≡ false)
    × (30 ∷ 20 ∷ [] ≡ reversed (20 ∷ 30 ∷ []))
    × (resumed.emergency_paused_at ≡ none)
    × ((u : ℕ)
        → is_paused addresses u resumed.world
          ≡ (not (contains (20 ∷ 30 ∷ []) u) && is_paused addresses u paused_before.world))
unfolding emergency_pause_all comebackhere_contracts.Workflow.Guards.require_pause_admin configured
    comebackhere_contracts.Workflow.Guards.pause_targets
    comebackhere_contracts.Workflow.Emergency.pause_each
    comebackhere_contracts.Compliance.Roles.pause
    comebackhere_contracts.Compliance.Guards.require_admin
    comebackhere_contracts.Treasury.Admin.pause comebackhere_contracts.Treasury.Guards.require_admin
    resume_all comebackhere_contracts.Workflow.Emergency.unpause_each
    comebackhere_contracts.Treasury.Admin.unpause comebackhere_contracts.Compliance.Roles.unpause
resume_all_lifts_earlier_pause_example =
    resume_all_lifts_earlier_pause (world 20) (world 90) others (is_paused addresses)
      (contracts-pausing (world 20) addresses) (contracts-unpausing (world 20) addresses) 1 1 60
      (20 ∷ 30 ∷ []) (30 ∷ 20 ∷ []) paused_before stopped_again resumed 30 refl refl refl refl

emergency_stops_payments_example :
    (execute_settlement (world 90) 5 1 3 stopped.world.treasury
      ≡ err (error TreasuryError.contract_paused))
    × (succeeds (allow_address (world 90) 5 9 stopped.world.compliance) ≡ false)
unfolding emergency_pause_all comebackhere_contracts.Workflow.Guards.require_pause_admin configured
    comebackhere_contracts.Workflow.Guards.pause_targets
    comebackhere_contracts.Workflow.Emergency.pause_each
    comebackhere_contracts.Compliance.Roles.pause
    comebackhere_contracts.Compliance.Guards.require_admin
    comebackhere_contracts.Treasury.Admin.pause comebackhere_contracts.Treasury.Guards.require_admin
emergency_stops_payments_example =
    emergency_stops_payments (world 20) addresses 1 (20 ∷ 30 ∷ []) configured stopped
      (λ h. omega (arith, h)) refl refl refl (world 90) 5 1 3 9

abbrev gated : State (Protocol ℕ)
gated = reached configured (execute_with_compliance (world 20) others 1 3 7 configured)

gated_payment_example :
    (is_allowed (world 20) protocol.compliance 7 ≡ true)
    × ((a : Settlement) × (protocol.treasury.settlement 1 ≡ some a)
        × (is_allowed_for_amount (world 20) protocol.compliance a.merchant_address a.amount ≡ true)
        × (gated.world.treasury.settlement 1 ≡ some (paid a)))
unfolding configured execute_with_compliance
    comebackhere_contracts.Workflow.Guards.require_not_paused
    comebackhere_contracts.Workflow.Guards.compliance_id
    comebackhere_contracts.Workflow.Guards.require_allowed_for_treasury is_allowed
    comebackhere_contracts.Workflow.Guards.treasury_id execute_settlement
    comebackhere_contracts.Treasury.Guards.require_not_paused holding
    comebackhere_contracts.Multisig.require_authorized_signer
    comebackhere_contracts.Treasury.Execution.check_executable
    comebackhere_contracts.Multisig.meets_threshold is_allowed_for_amount
    comebackhere_contracts.Treasury.Guards.write_settlement
gated_payment_example =
    gated_payment (world 20) addresses 1 3 7 configured gated refl refl refl refl

abbrev first_state : State (Protocol ℕ)
first_state = reached (undeployed protocol) (constructed (world 10) 1 20 30 (undeployed protocol))

reachable-IsSound_example : IsSound 0 20 30 (
    left first_state
      (call (world 20) others (Op.initialize_emergency_pause 1 (30 ∷ [])) first_state))
unfolding constructed
reachable-IsSound_example =
    reachable-IsSound others 0 20 30
      (left first_state
        (call (world 20) others (Op.initialize_emergency_pause 1 (30 ∷ [])) first_state))
      (Reachable.called (world 20) (Op.initialize_emergency_pause 1 (30 ∷ [])) first_state
        (Reachable.deployed (world 10) 1 protocol first_state refl) refl)

gate_ignores_settlement_merchant_example :
    world_left (execute_with_compliance (world 20) others 1 3 7 configured)
    ≡ world_left (execute_with_compliance (world 20) others 1 3 8 configured)
unfolding undeployed is_allowed is_allowed_at
gate_ignores_settlement_merchant_example =
    gate_ignores_settlement_merchant (world 20) others 1 3 7 8 20 configured refl refl refl

-- ===== src/Protocol.antt =====
-- The workflow, treasury and compliance contracts together: the calls that
-- contracts/settlement-workflow/src/lib.rs makes are those of the other two contracts' models.
pub mod Payments
pub mod Incidents
use comebackhere_contracts.Prelude.{
  ℕ, Bool, true, false, ◌&&◌, ◌||◌, Option, none, some, ◌==◌, if◌then◌else◌,
}
use comebackhere_contracts.Prelude.Int.{ℤ}
use comebackhere_contracts.Host.{Env, Result, ok, err}
use comebackhere_contracts.Multisig.Types.{Settlement}
use comebackhere_contracts.Compliance.Decision
use comebackhere_contracts.Compliance.Roles
use comebackhere_contracts.Treasury.Admin
use comebackhere_contracts.Treasury.Execution
use comebackhere_contracts.Workflow.Storage.{Contracts}
use comebackhere_contracts.Compliance.Storage as ComplianceStorage
use comebackhere_contracts.Multisig.Storage as TreasuryStorage

-- Where the three contracts are deployed.
pub record Addresses : Type 0 where
  pub workflow : ℕ
  pub compliance : ℕ
  pub treasury : ℕ

-- The storage of the two contracts that the workflow calls.
pub record Protocol (L : Type 0) : Type 0 where
  pub compliance : ComplianceStorage.State
  pub treasury : TreasuryStorage.State L

-- What a contract that the workflow calls sees: the host takes the caller's own address as signed.
abbrev pub within : {L : Type 0} → Env L → Addresses → ℕ → ComplianceStorage.State → Env L
within e at here answers = record e {
  self = here;
  signed = λ a. at.workflow == a || e.signed a;
  is_allowed =
      λ k a. if k == at.compliance then Decision.is_allowed e answers a else e.is_allowed k a;
  is_allowed_for_amount = λ k a amount.
      if k == at.compliance
      then Decision.is_allowed_for_amount e answers a amount
      else e.is_allowed_for_amount k a amount;
}

abbrev stored_amount : Option Settlement → Option ℤ
stored_amount none = none
stored_amount (some a) = some a.amount

module _ {L : Type 0} where
  abbrev treasury_after :
      {A : Type 0} → Protocol L → Result (A × TreasuryStorage.State L) → Option (Protocol L)
  treasury_after w (ok r) = some (record w { treasury = r.1 })
  treasury_after w (err f) = none

  abbrev compliance_after :
      {A : Type 0} → Protocol L → Result (A × ComplianceStorage.State) → Option (Protocol L)
  compliance_after w (ok r) = some (record w { compliance = r.1 })
  compliance_after w (err f) = none

  -- The calls at the two addresses; at any other there is no contract.
  abbrev pub contracts : Env L → Addresses → Contracts (Protocol L)
  contracts e at = record {
    is_allowed =
        λ k a w. if k == at.compliance then some (Decision.is_allowed e w.compliance a) else none;
    execute_settlement = λ k signer id token w.
        if k == at.treasury
        then treasury_after w (
            Execution.execute_settlement (within e at at.treasury w.compliance) signer id token
              w.treasury)
        else none;
    settlement_amount =
        λ k id w. if k == at.treasury then stored_amount (w.treasury.settlement id) else none;
    pause = λ k admin w.
        if k == at.treasury
        then treasury_after w (Admin.pause (within e at at.treasury w.compliance) admin w.treasury)
        else if k == at.compliance
        then compliance_after w
            (Roles.pause (within e at at.compliance w.compliance) admin w.compliance)
        else none;
    unpause = λ k admin w.
        if k == at.treasury
        then treasury_after w
            (Admin.unpause (within e at at.treasury w.compliance) admin w.treasury)
        else if k == at.compliance
        then compliance_after w
            (Roles.unpause (within e at at.compliance w.compliance) admin w.compliance)
        else none;
  }

  -- what the contract at an address answers to `is_paused`
  abbrev pub is_paused : Addresses → ℕ → Protocol L → Bool
  is_paused at k w =
      if k == at.treasury
      then w.treasury.paused
      else if k == at.compliance
      then w.compliance.paused
      else false

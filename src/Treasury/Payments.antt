-- ===== src/Treasury/Payments.antt =====
-- When `execute_settlement` (contracts/treasury/src/settlements.rs) pays, and what it pays: a
-- description by conditions that does not follow the order of the code's tests.
pub mod Whole
pub mod Batch
pub mod Disputed
use comebackhere_contracts.Prelude.{
  ℕ, ◌≤◌, ◌<◌, ◌≡◌, ◌≢◌, ◌⊎◌, Bool, true, false, Option, none, some, List, [], ◌∷◌, contains,
}
use comebackhere_contracts.Host.{Env}
use comebackhere_contracts.Multisig.{signer_weight}
use comebackhere_contracts.Multisig.Types.{Settlement, SettlementStatus}
use comebackhere_contracts.Multisig.Storage.{State, Event}
use comebackhere_contracts.Treasury.Guards.{write_settlement}

-- an expiry that is recorded and has been reached
abbrev pub IsReached : ℕ → Option ℕ → Type 0
IsReached now none = ⊥
IsReached now (some t) = t ≤ now

-- a threshold that is set, is not zero, and is met
abbrev pub IsMet : ℕ → Option ℕ → Type 0
IsMet weight none = ⊥
IsMet weight (some t) = (0 < t) × (t ≤ weight)

-- what the pinned compliance contract, if there is one, says
abbrev pub IsClearedBy : (ℕ → Bool) → Option ℕ → Type 0
IsClearedBy allowed none = Unit
IsClearedBy allowed (some c) = allowed c ≡ true

module _ {L : Type 0} (e : Env L) (s : State L) where
  -- The caller is a signer of the call and of the treasury, which is not paused.
  abbrev pub IsActiveSigner : ℕ → Type 0
  IsActiveSigner signer =
      (s.paused ≡ false) × (e.signed signer ≡ true) × (0 < signer_weight s signer)

  -- a hold that has run out, or none
  abbrev pub IsUnheld : ℕ → Settlement → Type 0
  IsUnheld id a =
      (a.status ≡ SettlementStatus.pending)
      ⊎ ((a.status ≡ SettlementStatus.on_hold) × IsReached e.now (s.hold_expiry id))

  abbrev pub HasQuorum : Settlement → Type 0
  HasQuorum a = IsMet a.approval_weight s.threshold

  abbrev pub IsTimely : Settlement → Type 0
  IsTimely a = (a.execution_deadline ≡ 0) ⊎ (e.now ≤ a.execution_deadline)

  abbrev pub IsListed : ℕ → Type 0
  IsListed token = (s.token_allowlist ≡ []) ⊎ (contains s.token_allowlist token ≡ true)

  abbrev pub IsCleared : Settlement → Type 0
  IsCleared a =
      IsClearedBy (λ c. e.is_allowed_for_amount c a.merchant_address a.amount) s.compliance_id

  pub record IsExecutable (id token : ℕ) (a : Settlement) : Type 0 where
    pub unheld : IsUnheld id a
    pub quorum : HasQuorum a
    pub timely : IsTimely a
    pub foreign : token ≢ e.self
    pub listed : IsListed token
    pub cleared : IsCleared a

abbrev pub paid : Settlement → Settlement
paid a = record a { status = SettlementStatus.executed }

-- The storage after the payment, with the state of the token contracts.
abbrev pub paid_state : {L : Type 0} → ℕ → Settlement → L → State L → State L
paid_state id a ledger s = record (write_settlement id (paid a) s) {
  events = Event.settlement_executed id (paid a) ∷ s.events;
  ledger = ledger;
}

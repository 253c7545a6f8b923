-- ===== src/Tests.antt =====
-- A small treasury with concrete numbers, on which the theorems are applied.
pub mod Settlements
pub mod Disputes
pub mod Accounts
pub mod Listings
pub mod Workflows
pub mod Invoices
use comebackhere_contracts.Prelude.{
  ℕ, ◌+◌, true, false, Option, none, some, List, [], ◌∷◌, Map, ◌==◌, if◌then◌else◌, put,
}
use comebackhere_contracts.Prelude.Int.{ℤ, pos}
use comebackhere_contracts.Host.{Env}
use comebackhere_contracts.Multisig.Types.{
  Settlement, SettlementStatus, SettlementHoldReason, MaybeAddress,
}
use comebackhere_contracts.Multisig.Storage.{State, Event}
use comebackhere_contracts.Treasury.Machine.{deployed}

-- Everybody signs, everybody is allowed, and the token contracts count the transfers.
abbrev pub world : ℕ → Env ℕ
world now = record {
  now = now;
  self = 0;
  signed = λ _. true;
  token_balance = λ _ _ _. pos 0;
  token_transfer = λ _ _ _ _ transfers. some (transfers + 1);
  is_allowed = λ _ _. true;
  is_allowed_for_amount = λ _ _ _. true;
}

-- Administrator 1, threshold 2, signer 5 of weight 2; nothing was called yet.
abbrev pub opened : State ℕ
unfolding deployed
opened = record (deployed 0) {
  admin = some 1;
  threshold = some 2;
  settlement_expiry_secs = some 604800;
  signer = put 5 2 (put 1 1 (λ _. none));
  signer_list = 1 ∷ 5 ∷ [];
  events = Event.treasury_initialized 1 ∷ [];
}

abbrev pub payable : Settlement
payable = record {
  id = 1;
  merchant_address = 7;
  amount = pos 100;
  approvals = 5 ∷ [];
  approval_weight = 2;
  status = SettlementStatus.pending;
  hold_reason = SettlementHoldReason.none;
  proposed_at = 10;
  execution_deadline = 50;
  token = MaybeAddress.none;
}

-- with one stored settlement
abbrev pub holding : Settlement → State ℕ
unfolding deployed
holding a = record opened {
  settlement_count = 1;
  settlement = put 1 a (λ _. none);
  pending_settlement_index = 1 ∷ [];
}

-- ===== src/Treasury/Guards.antt =====
-- contracts/treasury/src/lib.rs: the guards that the entrypoints share, the one writer of
-- settlements, and `initialize`.
pub mod Passed
use comebackhere_contracts.Prelude.{
  ℕ, Bool, true, false, not, ◌&&◌, Option, none, some, List, [], ◌∷◌, ◌++◌, put, remove, Map,
  contains, without, push_back, ltb, ◌==◌, if◌then◌else◌,
}
use comebackhere_contracts.Prelude.Int.{ℤ}
use comebackhere_contracts.Errors.{
  TreasuryError, already_initialized, zero_threshold, unauthorized, contract_paused,
  compliance_check_failed,
}
use comebackhere_contracts.Host.{
  Env, Call, ◌>>=◌, ◌>>◌, pure, gets, modify, fail_if, or_fail, or_panic, require_auth,
}
use comebackhere_contracts.Multisig.Types.{Settlement, SettlementStatus, is_pending}
use comebackhere_contracts.Multisig.Storage.{State, Event}

abbrev pub max_allowed_tokens : ℕ
max_allowed_tokens = 20

abbrev pub default_settlement_expiry : ℕ
default_settlement_expiry = 604800

-- the states in which `write_settlement` drops a hold's expiry
abbrev pub is_final : SettlementStatus → Bool
is_final SettlementStatus.executed = true
is_final SettlementStatus.cancelled = true
is_final SettlementStatus.expired = true
is_final _ = false

-- `stored.as_ref() == Some(admin)`
abbrev is_admin : Option ℕ → ℕ → Bool
is_admin none a = false
is_admin (some b) a = b == a

abbrev add_signer : List ℕ → ℕ × ℕ → List ℕ
add_signer list (signer, weight) =
    if ltb 0 weight && not (contains list signer) then push_back list signer else list

-- the pending index after a settlement was written
abbrev pub reindexed : List ℕ → ℕ → Bool → List ℕ
reindexed index id pending =
    if pending
    then (if contains index id then index else push_back index id)
    else (if contains index id then without index id else index)

-- The loop of `initialize` over `(signer, weight)`.
abbrev register_all : List (ℕ × ℕ) → Map ℕ → Map ℕ
register_all [] weights = weights
register_all ((signer, weight) ∷ rest) weights = register_all rest (put signer weight weights)

abbrev list_all : List (ℕ × ℕ) → List ℕ → List ℕ
list_all [] list = list
list_all (entry ∷ rest) list = list_all rest (add_signer list entry)

module _ {L : Type 0} where
  abbrev pub emit : Event → Call (State L) (Unit {0})
  emit event = modify (λ s. record s { events = event ∷ s.events })

  -- `token_client.transfer(from, to, amount)`
  abbrev pub transfer : Env L → ℕ → ℕ → ℕ → ℤ → Call (State L) (Unit {0})
  transfer e token from to amount = do
    ledger ← gets (λ s. e.token_transfer token from to amount s.ledger)
    after ← or_panic ledger
    modify (λ s. record s { ledger = after })

  unfoldable pub require_admin : Env L → ℕ → Call (State L) (Unit {0})
  require_admin e admin = do
    require_auth e admin
    matches ← gets (λ s. is_admin s.admin admin)
    fail_if (not matches) unauthorized

  unfoldable pub require_not_paused : Call (State L) (Unit {0})
  require_not_paused = do fail_if (← gets (λ s. s.paused)) contract_paused

  abbrev allowed_for_amount : Env L → Option ℕ → ℕ → ℤ → Bool
  allowed_for_amount e none recipient amount = true
  allowed_for_amount e (some id) recipient amount = e.is_allowed_for_amount id recipient amount

  unfoldable pub require_compliance_allowed : Env L → ℕ → ℤ → Call (State L) (Unit {0})
  require_compliance_allowed e recipient amount = do
    allowed ← gets (λ s. allowed_for_amount e s.compliance_id recipient amount)
    fail_if (not allowed) compliance_check_failed

  abbrev pub clear_hold_state : ℕ → State L → State L
  clear_hold_state id s = record s { hold_expiry = remove id s.hold_expiry }

  unfoldable pub write_settlement : ℕ → Settlement → State L → State L
  write_settlement id settlement s = record s {
    settlement = put id settlement s.settlement;
    hold_expiry = if is_final settlement.status then remove id s.hold_expiry else s.hold_expiry;
    pending_settlement_index =
        reindexed s.pending_settlement_index id (is_pending settlement.status);
  }

  abbrev pub load_settlement : ℕ → TreasuryError → Call (State L) Settlement
  load_settlement id e = do found ← gets (λ s. s.settlement id); or_fail found e

  -- `for id in ids.iter() { if let Some(settlement) = ... }`: the loop of the batch entrypoints,
  -- which gathers what its body pushes. A missing id is handed to the body as `none`.
  unfoldable pub for_each_settlement :
      {A : Type 0}
      → (ℕ → Option Settlement → Call (State L) (List A))
      → List ℕ
      → Call (State L) (List A)
  for_each_settlement body [] = pure []
  for_each_settlement body (id ∷ ids) = do
    found ← gets (λ s. s.settlement id)
    pushed ← body id found
    rest ← for_each_settlement body ids
    pure (pushed ++ rest)

  unfoldable pub initialize : Env L → ℕ → ℕ → List (ℕ × ℕ) → Call (State L) (Unit {0})
  initialize e admin threshold signers = do
    present ← gets (λ s. s.admin)
    fail_if (elim present [ none ↦ false | some _ ↦ true ]) already_initialized
    fail_if (threshold == 0) zero_threshold
    require_auth e admin
    modify (λ s. record s {
      admin = some admin;
      threshold = some threshold;
      settlement_count = 0;
      paused = false;
      dispute_count = 0;
      settlement_expiry_secs = some default_settlement_expiry;
      signer = register_all signers (put admin 1 s.signer);
      signer_list = list_all signers (push_back [] admin);
    })
    emit (Event.treasury_initialized admin)

-- ===== src/Treasury/Proposals.antt =====
-- contracts/treasury/src/settlements.rs: proposing a settlement, and collecting and withdrawing
-- the signers' approvals.
use comebackhere_contracts.Prelude.{
  ℕ, ◌+◌, ◌^◌, Bool, true, not, ◌&&◌, ◌||◌, Option, none, some, List, [], ◌∷◌, assign, length, drop,
  contains, push_back, ltb, leb, if◌then◌else◌,
}
use comebackhere_contracts.Prelude.Int.{ℤ, pos, leb_ℤ, ltb_ℤ, checked_add}
use comebackhere_contracts.Errors.{
  invalid_amount, compliance_check_failed, arithmetic_overflow, settlement_not_found,
  already_executed, approval_not_found, batch_too_large, weight_overflow,
}
use comebackhere_contracts.Host.{
  Env, Call, ◌>>=◌, ◌>>◌, pure, gets, modify, fail_if, or_fail, or_panic,
}
use comebackhere_contracts.Multisig.{
  signer_weight, require_authorized_signer, record_approval,
  revoke_approval as revoke_signer_approval,
}
use comebackhere_contracts.Multisig.Types.{
  Settlement, SettlementStatus, SettlementHoldReason, MaybeAddress, is_pending,
}
use comebackhere_contracts.Multisig.Storage.{State, Event}
use comebackhere_contracts.Treasury.Guards.{
  emit, require_not_paused, write_settlement, load_settlement, for_each_settlement,
}

abbrev pub max_batch_size : ℕ
max_batch_size = 50

abbrev pub max_merchant_settlements : ℕ
max_merchant_settlements = 50

unfoldable pub push_merchant_settlement : List ℕ → ℕ → List ℕ
push_merchant_settlement ids id =
    if leb max_merchant_settlements (length ids)
    then push_back (drop 1 ids) id
    else push_back ids id

module _ {L : Type 0} where
  abbrev merchant_allowed : Env L → Option ℕ → ℕ → Bool
  merchant_allowed e none merchant = true
  merchant_allowed e (some id) merchant = e.is_allowed id merchant

  -- `ComplianceClient::require_allowed_for_treasury`, where a compliance contract is pinned
  unfoldable pub require_allowed_for_treasury : Env L → ℕ → Call (State L) (Unit {0})
  require_allowed_for_treasury e merchant = do
    allowed ← gets (λ s. merchant_allowed e s.compliance_id merchant)
    fail_if (not allowed) compliance_check_failed

  unfoldable pub propose : Env L → ℕ → ℕ → ℤ → MaybeAddress → ℕ → Call (State L) ℕ
  propose e signer merchant amount token deadline = do
    require_not_paused
    require_authorized_signer e signer
    fail_if (leb_ℤ amount (pos 0)) invalid_amount
    require_allowed_for_treasury e merchant
    count ← gets (λ s. s.settlement_count)
    let id = count + 1
    fail_if (leb (2 ^ 64) id) arithmetic_overflow
    approved ← record_approval e [] 0 signer
    let settlement : Settlement = record {
      id = id;
      merchant_address = merchant;
      amount = amount;
      approvals = approved.0;
      approval_weight = approved.1;
      status = SettlementStatus.pending;
      hold_reason = SettlementHoldReason.none;
      proposed_at = e.now;
      execution_deadline = deadline;
      token = token;
    }
    modify (write_settlement id settlement)
    modify (λ s. record s {
      settlement_count = id;
      merchant_settlements =
          assign merchant (push_merchant_settlement (s.merchant_settlements merchant) id)
            s.merchant_settlements;
    })
    emit (Event.settlement_proposed id settlement)
    pure id

  unfoldable pub propose_settlement : Env L → ℕ → ℕ → ℤ → ℕ → Call (State L) ℕ
  propose_settlement e signer merchant amount deadline =
      propose e signer merchant amount MaybeAddress.none deadline

  unfoldable pub propose_settlement_with_token : Env L → ℕ → ℕ → ℤ → MaybeAddress → Call (State L) ℕ
  propose_settlement_with_token e signer merchant amount token =
      propose e signer merchant amount token 0

  unfoldable pub approve_settlement : Env L → ℕ → ℕ → Call (State L) Settlement
  approve_settlement e signer id = do
    require_not_paused
    require_authorized_signer e signer
    settlement ← load_settlement id settlement_not_found
    fail_if (not (is_pending settlement.status)) already_executed
    approved ← record_approval e settlement.approvals settlement.approval_weight signer
    let updated = record settlement { approvals = approved.0; approval_weight = approved.1 }
    modify (write_settlement id updated)
    emit (Event.settlement_approved id updated)
    pure updated

  unfoldable pub revoke_approval : Env L → ℕ → ℕ → Call (State L) Settlement
  revoke_approval e signer id = do
    require_not_paused
    require_authorized_signer e signer
    settlement ← load_settlement id settlement_not_found
    fail_if (not (is_pending settlement.status)) already_executed
    revoked ←
        gets (λ s. revoke_signer_approval s settlement.approvals settlement.approval_weight signer)
    left ← or_fail revoked approval_not_found
    let updated = record settlement { approvals = left.0; approval_weight = left.1 }
    modify (write_settlement id updated)
    emit (Event.settlement_approval_revoked id signer updated)
    pure updated

  -- The body of the loop of `batch_approve_settlements` on an id that is found.
  unfoldable pub approve_found : ℕ → ℕ → ℕ → Settlement → Call (State L) (List Settlement)
  approve_found signer weight id settlement = do
    fail_if
        (not (contains settlement.approvals signer)
          && leb (2 ^ 32) (settlement.approval_weight + weight))
        weight_overflow
    let updated = if contains settlement.approvals signer then settlement else record settlement {
      approvals = push_back settlement.approvals signer;
      approval_weight = settlement.approval_weight + weight;
    }
    modify (write_settlement id updated)
    emit (Event.settlement_approved id updated)
    pure (updated ∷ [])

  unfoldable pub approve_one : ℕ → ℕ → ℕ → Option Settlement → Call (State L) (List Settlement)
  unfolding approve_found
  approve_one signer weight id none = pure []
  approve_one signer weight id (some settlement) =
      if is_pending settlement.status then approve_found signer weight id settlement else pure []

  unfoldable pub batch_approve_settlements : Env L → ℕ → List ℕ → Call (State L) (List Settlement)
  batch_approve_settlements e signer ids = do
    require_not_paused
    require_authorized_signer e signer
    fail_if (ltb max_batch_size (length ids)) batch_too_large
    weight ← gets (λ s. signer_weight s signer)
    for_each_settlement (approve_one signer weight) ids

  unfoldable pub approve_partial_settlement : Env L → ℕ → ℕ → ℤ → Call (State L) Settlement
  approve_partial_settlement e signer id amount = do
    require_not_paused
    require_authorized_signer e signer
    settlement ← load_settlement id settlement_not_found
    fail_if (not (is_pending settlement.status)) already_executed
    fail_if (leb_ℤ amount (pos 0) || leb_ℤ settlement.amount amount) invalid_amount
    sum ← gets (λ s. checked_add (s.partial_approved_total id) amount)
    total ← or_panic sum
    fail_if (ltb_ℤ settlement.amount total) invalid_amount
    modify (λ s. record s { partial_approved_total = assign id total s.partial_approved_total })
    approved ← record_approval e settlement.approvals settlement.approval_weight signer
    let updated = record settlement { approvals = approved.0; approval_weight = approved.1 }
    modify (write_settlement id updated)
    emit (Event.settlement_partial_approved id updated)
    pure updated

-- ===== src/Treasury/Admin.antt =====
-- contracts/treasury/src/admin.rs: the threshold, the pause switch, limits and the handover of the
-- admin role; and the token allowlist and payout addresses of contracts/treasury/src/settlements.rs.
pub mod Handover
use comebackhere_contracts.Prelude.{
  ℕ, ◌+◌, ◌-◌, ◌^◌, Bool, true, false, not, ◌&&◌, Option, none, some, List, [], ◌∷◌, get_or, put,
  assign, length, drop, contains, without, push_back, ltb, leb, ◌==◌, if◌then◌else◌,
}
use comebackhere_contracts.Prelude.Int.{ℤ, pos, ltb_ℤ}
use comebackhere_contracts.Errors.{
  zero_threshold, threshold_unreachable, no_pending_admin, unauthorized, allowlist_full,
  token_has_pending_settlements, token_has_balance,
}
use comebackhere_contracts.Host.{
  Env, Call, ◌>>=◌, ◌>>◌, pure, gets, modify, fail_if, panic_if, or_fail, require_auth,
}
use comebackhere_contracts.Multisig.Types.{Settlement, is_pending}
use comebackhere_contracts.Multisig.Storage.{State, Event}
use comebackhere_contracts.Treasury.Guards.{
  max_allowed_tokens, emit, require_admin, require_not_paused,
}
use comebackhere_contracts.Treasury.Disputes.{any_from}
use comebackhere_contracts.Treasury.Signers.{get_all_signers}
use comebackhere_contracts.Prelude.Int.{saturating_add}

abbrev pub max_payout_history : ℕ
max_payout_history = 10

-- `.map(|(_, weight, _)| weight).sum()`
abbrev pub sum_weights : List (ℕ × ℕ × Option (List ℕ)) → ℕ
sum_weights [] = 0
sum_weights ((_, weight, _) ∷ rest) = weight + sum_weights rest

abbrev stored_pending : Option Settlement → Bool
stored_pending none = false
stored_pending (some a) = is_pending a.status

abbrev unexpired : ℕ → Option (ℕ × ℕ) → Option (ℕ × ℕ)
unexpired now none = none
unexpired now (some (nominee, expires_at)) =
    if ltb now expires_at then some (nominee, expires_at) else none

abbrev is_none {ℓ} : {A : Type ℓ} → Option A → Bool
is_none none = true
is_none (some a) = false

-- The history keeps its newest entries when it is at the cap.
unfoldable pub push_history : List (ℕ × ℕ) → ℕ × ℕ → List (ℕ × ℕ)
push_history history entry =
    if leb max_payout_history (length history)
    then push_back (drop (length history - max_payout_history + 1) history) entry
    else push_back history entry

module _ {L : Type 0} where
  -- The sum overflows `u32` exactly if its last value does.
  unfoldable pub total_weight : Call (State L) ℕ
  unfolding get_all_signers
  total_weight = do
    total ← gets (λ s. sum_weights (get_all_signers s s.signer_list))
    panic_if (leb (2 ^ 32) total)
    pure total

  unfoldable pub update_threshold : Env L → ℕ → ℕ → Call (State L) (Unit {0})
  unfolding total_weight
  update_threshold e admin new_threshold = do
    require_admin e admin
    fail_if (new_threshold == 0) zero_threshold
    total ← total_weight
    fail_if (ltb total new_threshold) threshold_unreachable
    modify (λ s. record s { threshold = some new_threshold })
    emit (Event.threshold_updated new_threshold)

  unfoldable pub pause : Env L → ℕ → Call (State L) (Unit {0})
  pause e admin = do
    require_admin e admin
    modify (λ s. record s { paused = true })
    emit (Event.treasury_paused admin)

  unfoldable pub unpause : Env L → ℕ → Call (State L) (Unit {0})
  unpause e admin = do
    require_admin e admin
    modify (λ s. record s { paused = false })
    emit (Event.treasury_unpaused admin)

  unfoldable pub set_withdrawal_limit : Env L → ℕ → ℤ → ℕ → Call (State L) (Unit {0})
  set_withdrawal_limit e admin limit window_secs = do
    require_admin e admin
    modify (λ s. record s {
      withdrawal_limit_per_window = limit;
      withdrawal_window_secs = window_secs;
    })
    emit (Event.withdrawal_limit_set limit window_secs)

  unfoldable pub set_settlement_expiry : Env L → ℕ → ℕ → Call (State L) (Unit {0})
  set_settlement_expiry e admin expiry_secs = do
    require_admin e admin
    modify (λ s. record s { settlement_expiry_secs = some expiry_secs })
    emit (Event.settlement_expiry_updated expiry_secs)

  unfoldable pub set_compliance_id : Env L → ℕ → ℕ → Call (State L) (Unit {0})
  set_compliance_id e admin compliance_id = do
    require_admin e admin
    modify (λ s. record s { compliance_id = some compliance_id })
    emit (Event.compliance_id_set compliance_id)

  unfoldable pub get_pending_admin : Env L → State L → Option (ℕ × ℕ)
  get_pending_admin e s = unexpired e.now s.pending_admin

  unfoldable pub transfer_admin : Env L → ℕ → ℕ → ℕ → Call (State L) (Unit {0})
  transfer_admin e admin new_admin expiry_secs = do
    require_admin e admin
    let expires_at = saturating_add e.now expiry_secs
    modify (λ s. record s { pending_admin = some (new_admin, expires_at) })
    emit (Event.admin_transfer_proposed new_admin expires_at)

  -- The removal of an expired nomination before the second error is dropped with that error.
  unfoldable pub accept_admin : Env L → ℕ → Call (State L) (Unit {0})
  unfolding get_pending_admin
  accept_admin e new_admin = do
    nominated ← gets (λ s. get_pending_admin e s)
    pending ← or_fail nominated no_pending_admin
    fail_if (leb pending.1 e.now) no_pending_admin
    require_auth e new_admin
    fail_if (not (pending.0 == new_admin)) unauthorized
    modify (λ s. record s { admin = some new_admin; pending_admin = none })
    emit (Event.admin_transferred new_admin)

  unfoldable pub cancel_transfer_admin : Env L → ℕ → Call (State L) (Unit {0})
  unfolding get_pending_admin
  cancel_transfer_admin e admin = do
    require_admin e admin
    nominated ← gets (λ s. get_pending_admin e s)
    fail_if (is_none nominated) no_pending_admin
    modify (λ s. record s { pending_admin = none })
    emit (Event.admin_transfer_cancelled admin)

  unfoldable pub update_merchant_payout_address : Env L → ℕ → ℕ → Call (State L) (Unit {0})
  update_merchant_payout_address e merchant payout = do
    require_not_paused
    require_auth e merchant
    modify (λ s. record s {
      merchant_payout_address = put merchant payout s.merchant_payout_address;
      payout_address_history =
          assign merchant (push_history (s.payout_address_history merchant) (payout, e.now))
            s.payout_address_history;
    })
    emit (Event.merchant_payout_updated merchant payout)

  unfoldable pub add_token : ℕ → List ℕ → Call (State L) (Unit {0})
  add_token token allowlist =
      if contains allowlist token
      then pure tt
      else (fail_if (leb max_allowed_tokens (length allowlist)) allowlist_full
          >> (modify (λ s. record s { token_allowlist = push_back allowlist token })
              >> emit (Event.token_allowed token)))

  unfoldable pub add_allowed_token : Env L → ℕ → ℕ → Call (State L) (Unit {0})
  unfolding add_token
  add_allowed_token e admin token = do
    require_admin e admin
    allowlist ← gets (λ s. s.token_allowlist)
    add_token token allowlist

  unfoldable pub has_pending_settlement : State L → Bool
  has_pending_settlement s = any_from (λ id. stored_pending (s.settlement id)) s.settlement_count 1

  unfoldable pub remove_allowed_token : Env L → ℕ → ℕ → Call (State L) (Unit {0})
  remove_allowed_token e admin token = do
    require_admin e admin
    allowlist ← gets (λ s. s.token_allowlist)
    waiting ← gets (λ s. has_pending_settlement s)
    fail_if (contains allowlist token && waiting) token_has_pending_settlements
    total ← gets (λ s. s.token_total token)
    fail_if (contains allowlist token && ltb_ℤ (pos 0) total) token_has_balance
    modify (λ s. record s { token_allowlist = without allowlist token })
    emit (Event.token_removed token)

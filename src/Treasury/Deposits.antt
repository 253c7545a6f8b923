-- ===== src/Treasury/Deposits.antt =====
-- contracts/treasury/src/deposits.rs: deposits, withdrawals and the rolling withdrawal limit; and
-- `record_deposit_reference` of contracts/treasury/src/lib.rs.
pub mod Amounts
pub mod Emergency
use comebackhere_contracts.Prelude.{
  ℕ, ◌-◌, Bool, true, false, not, ◌&&◌, ◌||◌, Option, none, some, List, [], ◌∷◌, assign, length,
  is_empty, contains, ltb, leb, ◌==◌, if◌then◌else◌,
}
use comebackhere_contracts.Prelude.Int.{ℤ, pos, leb_ℤ, ltb_ℤ, checked_add, checked_sub}
use comebackhere_contracts.Errors.{
  invalid_amount, duplicate_reference_id, destination_not_allowed, insufficient_balance,
  arithmetic_overflow, not_paused, unauthorized_signer, withdrawal_limit_exceeded,
}
use comebackhere_contracts.Host.{
  Env, Call, ok, ◌>>=◌, ◌>>◌, pure, gets, modify, fail_if, or_fail, or_panic, require_auth,
}
use comebackhere_contracts.Multisig.{signer_weight}
use comebackhere_contracts.Multisig.Storage.{State, Event}
use comebackhere_contracts.Treasury.Guards.{emit, transfer, require_admin, require_not_paused}

-- equality of two byte strings
abbrev same_bytes : List ℕ → List ℕ → Bool
same_bytes [] [] = true
same_bytes (x ∷ xs) (y ∷ ys) = x == y && same_bytes xs ys
same_bytes _ _ = false

abbrev pub remember : List ℕ → (List ℕ → Bool) → List ℕ → Bool
remember ref seen other = if same_bytes ref other then true else seen other

module _ {L : Type 0} where
  unfoldable pub record_deposit_reference : List ℕ → Call (State L) (Unit {0})
  record_deposit_reference ref = do
    seen ← gets (λ s. s.deposit_ref ref)
    fail_if seen duplicate_reference_id
    modify (λ s. record s { deposit_ref = remember ref s.deposit_ref })

  abbrev record_reference : Option (List ℕ) → Call (State L) (Unit {0})
  record_reference none = pure tt
  record_reference (some ref) = record_deposit_reference ref

  unfoldable pub deposit_one : Env L → ℕ → ℕ → ℤ → Option (List ℕ) → Call (State L) (Unit {0})
  deposit_one e from token amount reference = do
    fail_if (leb_ℤ amount (pos 0)) invalid_amount
    transfer e token from e.self amount
    sum ← gets (λ s. checked_add (s.balance from token) amount)
    balance ← or_fail sum arithmetic_overflow
    modify
        (λ s. record s { balance = assign from (assign token balance (s.balance from)) s.balance })
    all ← gets (λ s. checked_add (s.token_total token) amount)
    total ← or_fail all arithmetic_overflow
    modify (λ s. record s { token_total = assign token total s.token_total })
    emit (Event.deposit from amount reference)

  unfoldable pub deposit : Env L → ℕ → ℕ → ℤ → Option (List ℕ) → Call (State L) (Unit {0})
  deposit e from token amount reference = do
    require_not_paused
    require_auth e from
    record_reference reference
    deposit_one e from token amount reference

  unfoldable pub deposit_each :
      Env L → ℕ → Option (List ℕ) → List (ℕ × ℤ) → Call (State L) (Unit {0})
  deposit_each e from reference [] = pure tt
  deposit_each e from reference ((token, amount) ∷ rest) =
      deposit_one e from token amount reference >> deposit_each e from reference rest

  unfoldable pub batch_deposit :
      Env L → ℕ → List (ℕ × ℤ) → Option (List ℕ) → Call (State L) (Unit {0})
  batch_deposit e from deposits reference = do
    require_not_paused
    require_auth e from
    record_reference reference
    deposit_each e from reference deposits

  -- whether the window of `addr` is over, or no window length is set
  abbrev pub window_elapsed : ℕ → State L → ℕ → Bool
  window_elapsed now s addr =
      s.withdrawal_window_secs == 0
      || leb s.withdrawal_window_secs (now - s.withdrawal_window_start addr)

  abbrev pub prior_used : ℕ → State L → ℕ → ℤ
  prior_used now s addr = if window_elapsed now s addr then pos 0 else s.withdrawn_in_window addr

  abbrev pub current_start : ℕ → State L → ℕ → ℕ
  current_start now s addr =
      if window_elapsed now s addr then now else s.withdrawal_window_start addr

  abbrev use_window : Env L → ℕ → ℤ → Call (State L) (Unit {0})
  use_window e addr amount = do
    sum ← gets (λ s. checked_add (prior_used e.now s addr) amount)
    used ← or_fail sum arithmetic_overflow
    limit ← gets (λ s. s.withdrawal_limit_per_window)
    fail_if (ltb_ℤ limit used) withdrawal_limit_exceeded
    modify (λ s. record s {
      withdrawal_window_start = assign addr (current_start e.now s addr) s.withdrawal_window_start;
      withdrawn_in_window = assign addr used s.withdrawn_in_window;
    })

  unfoldable pub enforce_withdrawal_limit : Env L → ℕ → ℤ → Call (State L) (Unit {0})
  enforce_withdrawal_limit e addr amount = do
    limit ← gets (λ s. s.withdrawal_limit_per_window)
    if leb_ℤ limit (pos 0) then pure tt else use_window e addr amount

  unfoldable pub withdraw : Env L → ℕ → ℕ → ℤ → Call (State L) (Unit {0})
  withdraw e to token amount = do
    require_not_paused
    require_auth e to
    fail_if (leb_ℤ amount (pos 0)) invalid_amount
    allowlist ← gets (λ s. s.withdrawal_allowlist)
    fail_if (not (is_empty allowlist || contains allowlist to)) destination_not_allowed
    balance ← gets (λ s. s.balance to token)
    fail_if (ltb_ℤ balance amount) insufficient_balance
    enforce_withdrawal_limit e to amount
    left ← or_fail (checked_sub balance amount) arithmetic_overflow
    modify (λ s. record s { balance = assign to (assign token left (s.balance to)) s.balance })
    all ← gets (λ s. checked_sub (s.token_total token) amount)
    total ← or_fail all arithmetic_overflow
    modify (λ s. record s { token_total = assign token total s.token_total })
    transfer e token e.self to amount
    emit (Event.withdraw to amount)

  unfoldable pub drain : Env L → ℕ → ℕ → ℤ → Call (State L) (Unit {0})
  drain e token recipient balance =
      if ltb_ℤ (pos 0) balance
      then (enforce_withdrawal_limit e recipient balance
          >> transfer e token e.self recipient balance)
      else pure tt

  unfoldable pub withdraw_all : Env L → ℕ → ℕ → ℕ → Call (State L) (Unit {0})
  withdraw_all e admin token recipient = do
    require_admin e admin
    paused ← gets (λ s. s.paused)
    fail_if (not paused) not_paused
    balance ← gets (λ s. e.token_balance token e.self s.ledger)
    drain e token recipient balance
    emit (Event.treasury_drained recipient)

  abbrev require_auth_unless : Bool → Env L → ℕ → Call (State L) (Unit {0})
  require_auth_unless true e address s = ok (tt, s)
  require_auth_unless false e address s = require_auth e address s

  -- The loop over the registered signers; one with no weight is passed over.
  unfoldable pub require_all_signers : Env L → List ℕ → List ℕ → Call (State L) (Unit {0})
  require_all_signers e signers [] = pure tt
  require_all_signers e signers (registered ∷ rest) = do
    weight ← gets (λ s. signer_weight s registered)
    fail_if (not (weight == 0) && not (contains signers registered)) unauthorized_signer
    require_auth_unless (weight == 0) e registered
    require_all_signers e signers rest

  unfoldable pub emergency_withdraw : Env L → List ℕ → ℕ → ℕ → Call (State L) (Unit {0})
  emergency_withdraw e signers token recovery = do
    paused ← gets (λ s. s.paused)
    fail_if (not paused) not_paused
    registered ← gets (λ s. s.signer_list)
    require_all_signers e signers registered
    balance ← gets (λ s. e.token_balance token e.self s.ledger)
    if ltb_ℤ (pos 0) balance then transfer e token e.self recovery balance else pure tt
    emit (Event.emergency_withdraw recovery balance)

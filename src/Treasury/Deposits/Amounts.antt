-- ===== src/Treasury/Deposits/Amounts.antt =====
-- What deposits and withdrawals do to the balances (contracts/treasury/src/deposits.rs).
use comebackhere_contracts.Prelude.{ℕ, ◌+◌, ◌≤◌, ◌<◌, ◌≡◌, ◌⊎◌, true, false, assign, arith}
use comebackhere_contracts.Prelude.Int.{ℤ, pos, ◌+ℤ◌, ◌-ℤ◌, ◌≤ℤ◌, ◌<ℤ◌, +ℤ_parts, eq_of_parts}
use comebackhere_contracts.Host.{Env, Ensures}
use comebackhere_contracts.Multisig.Storage.{State}
use comebackhere_contracts.Treasury.Deposits.{
  deposit_one, withdraw, enforce_withdrawal_limit, prior_used, current_start,
}
use comebackhere_contracts.Treasury.Guards.Passed.{require_not_paused-Ensures}

zero_plus : (x : ℤ) → pos 0 +ℤ x ≡ x
zero_plus x = ground (arith, +ℤ_parts (pos 0) x, eq_of_parts (pos 0 +ℤ x) x)

module _ {L : Type 0} (e : Env L) (holder token : ℕ) (amount : ℤ) (s : State L) where
  -- If a deposit succeeds, the amount is positive, and the balance of the depositor and the total of
  -- the token grow by that amount; no balance of another holder or token, and no other total,
  -- changes.
  pub deposit_one_credits :
      (ref : _)
      → Ensures
          (λ _ s'.
            (pos 0 <ℤ amount)
            × (s'.balance
                ≡ assign holder
                    (assign token (s.balance holder token +ℤ amount) (s.balance holder))
                    s.balance)
            × (s'.token_total ≡ assign token (s.token_total token +ℤ amount) s.token_total))
          (deposit_one e holder token amount ref s)
  unfolding deposit_one
  deposit_one_credits ref = ground arith

  enforce_withdrawal_limit-Ensures :
      Ensures
        (λ _ s'. (s'.balance ≡ s.balance) × (s'.token_total ≡ s.token_total))
        (enforce_withdrawal_limit e holder amount s)
  unfolding enforce_withdrawal_limit
  enforce_withdrawal_limit-Ensures = ground arith

  -- If a withdrawal succeeds, the contract is not paused, the holder has signed, the amount is
  -- positive and at most the balance, and that balance and the total of the token shrink by the
  -- amount; no balance of another holder or token, and no other total, changes.
  pub withdraw_debits :
      Ensures
        (λ _ s'.
          (s.paused ≡ false)
          × (e.signed holder ≡ true)
          × (pos 0 <ℤ amount)
          × (amount ≤ℤ s.balance holder token)
          × (s'.balance
              ≡ assign holder
                  (assign token (s.balance holder token -ℤ amount) (s.balance holder))
                  s.balance)
          × (s'.token_total ≡ assign token (s.token_total token -ℤ amount) s.token_total))
        (withdraw e holder token amount s)
  unfolding withdraw
  withdraw_debits = ground (arith, require_not_paused-Ensures s, enforce_withdrawal_limit-Ensures)

  counted_withdrawal :
      pos 0 <ℤ s.withdrawal_limit_per_window
      → Ensures
          (λ _ s'.
            (s'.withdrawn_in_window holder ≡ prior_used e.now s holder +ℤ amount)
            × (s'.withdrawn_in_window holder ≤ℤ s.withdrawal_limit_per_window)
            × (s'.withdrawal_window_start holder ≡ current_start e.now s holder))
          (enforce_withdrawal_limit e holder amount s)
  unfolding enforce_withdrawal_limit
  counted_withdrawal set = ground arith

  window-cases :
      ((e.now < s.withdrawal_window_start holder + s.withdrawal_window_secs)
        × (prior_used e.now s holder ≡ s.withdrawn_in_window holder)
        × (current_start e.now s holder ≡ s.withdrawal_window_start holder))
      ⊎ (((s.withdrawal_window_secs ≡ 0)
            ⊎ (s.withdrawal_window_start holder + s.withdrawal_window_secs ≤ e.now))
          × (prior_used e.now s holder ≡ pos 0)
          × (current_start e.now s holder ≡ e.now))
  window-cases = ground arith

  -- Where a limit is set, after a successful withdrawal the amount counted for the holder does not
  -- exceed the limit. Either the time is before the start of the holder's window plus its length:
  -- then the withdrawal has been added to what was counted, and the window keeps its start. Or that
  -- time is reached or the length is zero: then the withdrawal alone is counted, and a new window
  -- starts now.
  pub withdraw_within_limit :
      pos 0 <ℤ s.withdrawal_limit_per_window
      → Ensures
          (λ _ s'.
            (s'.withdrawn_in_window holder ≤ℤ s.withdrawal_limit_per_window)
            × (((e.now < s.withdrawal_window_start holder + s.withdrawal_window_secs)
                  × (s'.withdrawn_in_window holder ≡ s.withdrawn_in_window holder +ℤ amount)
                  × (s'.withdrawal_window_start holder ≡ s.withdrawal_window_start holder))
                ⊎ (((s.withdrawal_window_secs ≡ 0)
                      ⊎ (s.withdrawal_window_start holder + s.withdrawal_window_secs ≤ e.now))
                    × (s'.withdrawn_in_window holder ≡ amount)
                    × (s'.withdrawal_window_start holder ≡ e.now))))
          (withdraw e holder token amount s)
  unfolding withdraw
  withdraw_within_limit set =
      ground (
        arith,
        require_not_paused-Ensures s,
        counted_withdrawal set,
        window-cases,
        zero_plus amount,
      )

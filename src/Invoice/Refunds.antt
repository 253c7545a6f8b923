-- ===== src/Invoice/Refunds.antt =====
-- The refund rules and the fee arithmetic of contracts/invoice/src/refund.rs.
pub mod Fees
use comebackhere_contracts.Prelude.{
  ℕ, ◌+◌, ◌-◌, ◌/◌, ◌%◌, Bool, true, false, ◌||◌, Option, none, some, ltb, if◌then◌else◌,
}
use comebackhere_contracts.Prelude.Int.{
  ℤ, pos, negsuc, leb_ℤ, ltb_ℤ, ◌-ℤ◌, checked_add, checked_mul, truncated_div,
}
use comebackhere_contracts.Errors.Invoice.{InvoiceError}
use comebackhere_contracts.Errors.{invoice_error}
use comebackhere_contracts.Host.{Env, Call, ok, err, ◌>>=◌, ◌>>◌, pure, gets, modify}
use comebackhere_contracts.Invoice.Types.{MaybeAddress, Invoice, NetRefund}
use comebackhere_contracts.Invoice.Storage.{State}
use comebackhere_contracts.Invoice.Guards.{reject_if, or_reject}

abbrev pub bps_denominator : ℕ
bps_denominator = 10000

abbrev pub max_refund_fee_bps : ℕ
max_refund_fee_bps = 10000

abbrev pub default_refund_network_fee : ℕ
default_refund_network_fee = 100

-- `a % b` on a divisor that is not negative: the rest has the sign of `a`
abbrev truncated_rem : ℤ → ℕ → ℤ
truncated_rem (pos n) k = pos (n % k)
truncated_rem (negsuc n) k = pos 0 -ℤ pos ((n + 1) % k)

abbrev min_ℤ : ℤ → ℤ → ℤ
min_ℤ a b = if leb_ℤ a b then a else b

-- `if b >= a { 0 } else { a - b }`
abbrev less_floored : ℤ → ℤ → ℤ
less_floored a b = if leb_ℤ a b then pos 0 else a -ℤ b

abbrev is_missing : {A : Type 0} → Option A → Bool
is_missing none = true
is_missing (some a) = false

abbrev is_nobody : MaybeAddress → Bool
is_nobody MaybeAddress.none = true
is_nobody (MaybeAddress.some a) = false

module _ {S : Type 0} where
  unfoldable pub verify_payment_state : Invoice → Call S (Unit {0})
  verify_payment_state invoice = do
    reject_if (is_missing invoice.paid_at) InvoiceError.payment_state_inconsistent
    reject_if (is_nobody invoice.payer) InvoiceError.payment_state_inconsistent
    reject_if (leb_ℤ invoice.amount_usdc (pos 0) || ltb_ℤ invoice.gross_usdc invoice.amount_usdc)
        InvoiceError.payment_state_inconsistent

  -- the address in a field, or an error where there is none
  abbrev pub address_or : MaybeAddress → InvoiceError → Call S ℕ
  address_or MaybeAddress.none e s = err (invoice_error e)
  address_or (MaybeAddress.some a) e s = ok (a, s)

  unfoldable pub refund_recipient : Invoice → Call S ℕ
  refund_recipient invoice = address_or invoice.payer InvoiceError.payment_state_inconsistent

  unfoldable pub calculate_net_refund_with_network_fee : ℤ → ℕ → ℤ → Call S NetRefund
  calculate_net_refund_with_network_fee gross_amount fee_bps network_fee = do
    reject_if (ltb_ℤ network_fee (pos 0)) InvoiceError.invalid_amount
    reject_if (ltb max_refund_fee_bps fee_bps) InvoiceError.refund_fee_too_high
    reject_if (leb_ℤ gross_amount (pos 0)) InvoiceError.invalid_amount
    whole ←
        or_reject (checked_mul (truncated_div gross_amount bps_denominator) fee_bps)
          InvoiceError.arithmetic_overflow
    product ←
        or_reject (checked_mul (truncated_rem gross_amount bps_denominator) fee_bps)
          InvoiceError.arithmetic_overflow
    processing_fee ←
        or_reject (checked_add whole (truncated_div product bps_denominator))
          InvoiceError.arithmetic_overflow
    let capped = min_ℤ gross_amount network_fee
    pure (record {
      gross_amount = gross_amount;
      processing_fee = processing_fee;
      network_fee = capped;
      net_amount = less_floored (less_floored gross_amount processing_fee) capped;
    })

  unfoldable pub calculate_net_refund : ℤ → ℕ → Call S NetRefund
  unfolding calculate_net_refund_with_network_fee
  calculate_net_refund gross_amount fee_bps =
      calculate_net_refund_with_network_fee gross_amount fee_bps (pos default_refund_network_fee)

-- The payout, by `try_transfer`, from this contract's own balance.
unfoldable pub transfer_net_refund : {L : Type 0} → Env L → ℕ → ℕ → ℤ → Call (State L) (Unit {0})
transfer_net_refund e token_contract recipient amount = do
  result ← gets (λ s. e.token_transfer token_contract e.self recipient amount s.ledger)
  after ← or_reject result InvoiceError.refund_transfer_failed
  modify (λ s. record s { ledger = after })

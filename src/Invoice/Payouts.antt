-- ===== src/Invoice/Payouts.antt =====
-- Requesting, approving, paying out and rejecting a refund
-- (contracts/invoice/src/entrypoints/refund.rs).
pub mod Paid
use comebackhere_contracts.Prelude.{ℕ, Bool, false, not, ◌&&◌, Option, none, some, put, ltb, leb}
use comebackhere_contracts.Prelude.Int.{saturating_add}
use comebackhere_contracts.Errors.Invoice.{InvoiceError}
use comebackhere_contracts.Host.{Env, Call, ◌>>=◌, ◌>>◌, pure, gets, modify, require_auth}
use comebackhere_contracts.Invoice.Types.{
  InvoiceStatus, Invoice, NetRefund, is_paid, is_refund_requested, is_address,
}
use comebackhere_contracts.Invoice.Storage.{State, Event}
use comebackhere_contracts.Invoice.Guards.{
  reject_if, emit, require_admin, require_not_paused, load_invoice, store_invoice, append_history,
}
use comebackhere_contracts.Invoice.Refunds.{
  verify_payment_state, address_or, refund_recipient, calculate_net_refund_with_network_fee,
  transfer_net_refund,
}

-- whether the window after the payment is over; a window of 0 has no end
abbrev window_closed : ℕ → ℕ → Option ℕ → Bool
window_closed now window none = false
window_closed now window (some paid_at) = ltb 0 window && leb (saturating_add paid_at window) now

module _ {L : Type 0} (e : Env L) where
  unfoldable pub request_refund : ℕ → ℕ → Call (State L) (Unit {0})
  request_refund payer id = do
    require_auth e payer
    require_not_paused
    invoice ← load_invoice id
    reject_if (not (is_paid invoice.status)) InvoiceError.not_paid
    reject_if (not (is_address invoice.payer payer)) InvoiceError.unauthorized
    window ← gets (λ s. s.refund_window)
    reject_if (window_closed e.now window invoice.paid_at) InvoiceError.refund_window_closed
    let requested = record invoice { status = InvoiceStatus.refund_requested }
    modify (store_invoice id requested)
    modify (λ s. record s { refund_requested_at = put id e.now s.refund_requested_at })
    modify (append_history e id InvoiceStatus.paid InvoiceStatus.refund_requested)
    emit (Event.invoice_refund_requested id requested)

  unfoldable pub approve_refund : ℕ → ℕ → Call (State L) (Unit {0})
  approve_refund admin id = do
    require_admin e admin
    require_not_paused
    invoice ← load_invoice id
    reject_if (not (is_refund_requested invoice.status)) InvoiceError.not_refund_requested
    verify_payment_state invoice
    let closed = record invoice { status = InvoiceStatus.refunded }
    modify (store_invoice id closed)
    modify (append_history e id InvoiceStatus.refund_requested InvoiceStatus.refunded)
    emit (Event.refund_approved id closed)

  unfoldable pub process_refund : ℕ → ℕ → ℕ → Call (State L) NetRefund
  process_refund admin id fee_bps = do
    require_admin e admin
    require_not_paused
    invoice ← load_invoice id
    reject_if (not (is_refund_requested invoice.status)) InvoiceError.not_refund_requested
    verify_payment_state invoice
    payer ← refund_recipient invoice
    token_id ← address_or invoice.token_address InvoiceError.refund_token_not_set
    network_fee ← gets (λ s. s.refund_network_fee)
    refund ← calculate_net_refund_with_network_fee invoice.amount_usdc fee_bps network_fee
    transfer_net_refund e token_id payer refund.net_amount
    let closed = record invoice { status = InvoiceStatus.refunded }
    modify (store_invoice id closed)
    modify (λ s. record s { refund_breakdown = put id refund s.refund_breakdown })
    modify (append_history e id InvoiceStatus.refund_requested InvoiceStatus.refunded)
    emit (Event.refund_approved id closed)
    emit (Event.refund_processed id payer refund)
    pure refund

  unfoldable pub reject_refund : ℕ → ℕ → Call (State L) (Unit {0})
  reject_refund admin id = do
    require_admin e admin
    require_not_paused
    invoice ← load_invoice id
    reject_if (not (is_refund_requested invoice.status)) InvoiceError.not_refund_requested
    verify_payment_state invoice
    let restored = record invoice { status = InvoiceStatus.paid }
    modify (store_invoice id restored)
    modify (append_history e id InvoiceStatus.refund_requested InvoiceStatus.paid)
    emit (Event.refund_rejected id restored)

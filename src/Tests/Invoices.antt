-- ===== src/Tests/Invoices.antt =====
-- The theorems on the invoice contract, at concrete calls.
use comebackhere_contracts.Prelude.{ℕ, ◌≡◌, ◌↔◌, refl, true, none, some, List, [], ◌∷◌, arith, put}
use comebackhere_contracts.Prelude.Int.{pos}
use comebackhere_contracts.Host.{Env, Ensures, ok}
use comebackhere_contracts.Invoice.Types.{
  InvoiceStatus, MaybeAddress, MaybeBytes, Invoice, NetRefund,
}
use comebackhere_contracts.Invoice.Storage.{State}
use comebackhere_contracts.Invoice.Refunds.{
  verify_payment_state, calculate_net_refund_with_network_fee,
}
use comebackhere_contracts.Invoice.Refunds.Fees.{net_refund_exact}
use comebackhere_contracts.Invoice.Payouts.{process_refund}
use comebackhere_contracts.Invoice.Payouts.Paid.{refund_pays_payer}
use comebackhere_contracts.Invoice.Machine.{Op, run, deployed}
use comebackhere_contracts.Invoice.Machine.Histories.{
  HasPayment, terminal_invoices_stay, requested_refunds_verify,
}
use comebackhere_contracts.Tests.{world}

-- An invoice of merchant 7 for payer 8, in token 3.
abbrev requested : Invoice
requested = record {
  id = 1;
  merchant = 7;
  amount_usdc = pos 10000000;
  gross_usdc = pos 10000000;
  status = InvoiceStatus.refund_requested;
  expires_at = 1010;
  paid_at = some 20;
  payer = MaybeAddress.some 8;
  metadata_hash = MaybeBytes.none;
  payment_link_hash = MaybeBytes.none;
  merchant_nonce = 0;
  token_address = MaybeAddress.some 3;
}

-- Administrator 1, no invoice.
abbrev opened : State ℕ
unfolding deployed
opened = record (deployed 0) { admin = some 1 }

abbrev asking : List (Env ℕ × Op)
asking =
    (
      world 10,
      Op.create_invoice 7 (pos 10000000) (pos 10000000) 1000 MaybeBytes.none MaybeBytes.none 0
          (MaybeAddress.some 3),
    )
    ∷ (world 20, Op.mark_paid 1 1 8 MaybeBytes.none (MaybeAddress.some 3))
    ∷ (world 30, Op.request_refund 8 1)
    ∷ []

abbrev cancelling : List (Env ℕ × Op)
cancelling =
    (
      world 10,
      Op.create_invoice 7 (pos 10000000) (pos 10000000) 1000 MaybeBytes.none MaybeBytes.none 0
          (MaybeAddress.some 3),
    )
    ∷ (world 20, Op.cancel_invoice 7 1)
    ∷ []

abbrev cancelled : Invoice
cancelled = record requested {
  status = InvoiceStatus.cancelled;
  paid_at = none;
  payer = MaybeAddress.none;
}

net_refund_exact_example :
    calculate_net_refund_with_network_fee (pos 12345) 250 (pos 100) opened
    ≡ ok (
      record {
        gross_amount = pos 12345;
        processing_fee = pos 308;
        network_fee = pos 100;
        net_amount = pos 11937;
      },
      opened,
    )
net_refund_exact_example =
    net_refund_exact 12345 250 100 opened (omega arith) (omega arith) (omega arith)

refund_pays_payer_example :
    Ensures
      (λ refund t.
        (true ≡ true)
        × ((record opened { invoice = put 1 requested (λ _. none); invoice_count = 1 }).admin
            ≡ some 1)
        × (InvoiceStatus.refund_requested ≡ InvoiceStatus.refund_requested)
        × ((world 40).token_transfer 3 0 8 refund.net_amount 0 ≡ some t.ledger)
        × (t.refund_breakdown 1 ≡ some refund)
        × (t.invoice 1 ≡ some (record requested { status = InvoiceStatus.refunded })))
      (process_refund
        (world 40)
        1
        1
        250
        (record opened { invoice = put 1 requested (λ _. none); invoice_count = 1 }))
unfolding deployed
refund_pays_payer_example =
    refund_pays_payer (world 40) 1 1 250 8 3 requested
      (record opened { invoice = put 1 requested (λ _. none); invoice_count = 1 }) refl refl refl

terminal_invoices_stay_example :
    (run
        ((world 30, Op.mark_paid 1 1 8 MaybeBytes.none (MaybeAddress.some 3))
          ∷ (world 40, Op.extend_expiry 1 1 500)
          ∷ [])
        (run cancelling opened)).invoice
      1
    ≡ some cancelled
unfolding deployed run comebackhere_contracts.Invoice.Machine.step
    comebackhere_contracts.Invoice.Lifecycle.cancel_invoice
    comebackhere_contracts.Invoice.Types.is_terminal
    comebackhere_contracts.Invoice.Guards.require_not_paused
    comebackhere_contracts.Invoice.Lifecycle.create_invoice
    comebackhere_contracts.Invoice.Guards.require_positive_amount
    comebackhere_contracts.Invoice.Guards.require_usdc_precision
    comebackhere_contracts.Invoice.Guards.require_hash_not_too_long
    comebackhere_contracts.Invoice.Guards.require_valid_payment_link_hash
    comebackhere_contracts.Invoice.Guards.require_expiry_not_too_long
    comebackhere_contracts.Invoice.Lifecycle.use_nonce
    comebackhere_contracts.Invoice.Guards.pending_index_add
    comebackhere_contracts.Invoice.Lifecycle.merchant_index_add
    comebackhere_contracts.Invoice.Guards.append_history
    comebackhere_contracts.Invoice.Guards.pending_index_remove
terminal_invoices_stay_example =
    terminal_invoices_stay cancelling
      ((world 30, Op.mark_paid 1 1 8 MaybeBytes.none (MaybeAddress.some 3))
        ∷ (world 40, Op.extend_expiry 1 1 500)
        ∷ [])
      opened 1 cancelled (λ j. refl) (λ j. refl) refl refl

requested_refunds_verify_example :
    ((verify_payment_state cancelled opened ≡ ok (tt, opened)) ↔ HasPayment cancelled)
    × HasPayment requested
    × (verify_payment_state requested opened ≡ ok (tt, opened))
unfolding deployed run comebackhere_contracts.Invoice.Machine.step
    comebackhere_contracts.Invoice.Lifecycle.mark_paid
    comebackhere_contracts.Invoice.Payouts.request_refund
    comebackhere_contracts.Invoice.Guards.require_admin
    comebackhere_contracts.Invoice.Guards.require_payer_not_merchant
    comebackhere_contracts.Invoice.Guards.payer_index_add
    comebackhere_contracts.Invoice.Guards.require_not_paused
    comebackhere_contracts.Invoice.Lifecycle.create_invoice
    comebackhere_contracts.Invoice.Guards.require_positive_amount
    comebackhere_contracts.Invoice.Guards.require_usdc_precision
    comebackhere_contracts.Invoice.Guards.require_hash_not_too_long
    comebackhere_contracts.Invoice.Guards.require_valid_payment_link_hash
    comebackhere_contracts.Invoice.Guards.require_expiry_not_too_long
    comebackhere_contracts.Invoice.Lifecycle.use_nonce
    comebackhere_contracts.Invoice.Guards.pending_index_add
    comebackhere_contracts.Invoice.Lifecycle.merchant_index_add
    comebackhere_contracts.Invoice.Guards.append_history
    comebackhere_contracts.Invoice.Guards.pending_index_remove
requested_refunds_verify_example =
    requested_refunds_verify asking opened 1 requested cancelled opened (λ j. refl) (λ j. refl) refl
      refl

-- ===== src/Invoice/Payouts/Paid.antt =====
-- What `process_refund` pays, and to whom (contracts/invoice/src/entrypoints/refund.rs).
use comebackhere_contracts.Prelude.{ℕ, ◌≡◌, true, some, arith}
use comebackhere_contracts.Host.{Env, Ensures}
use comebackhere_contracts.Invoice.Types.{InvoiceStatus, MaybeAddress, Invoice}
use comebackhere_contracts.Invoice.Storage.{State}
use comebackhere_contracts.Invoice.Guards.{require_admin, require_not_paused, append_history}
use comebackhere_contracts.Invoice.Refunds.{refund_recipient, transfer_net_refund}
use comebackhere_contracts.Invoice.Machine.Keeping.{
  verify_payment_state-Ensures, net_refund-Ensures,
}
use comebackhere_contracts.Invoice.Payouts.{process_refund}

module _ {L : Type 0} (e : Env L) where
  -- If a refund of a stored invoice is processed, the administrator has signed, a refund was
  -- requested, the invoice's token contract has moved the net amount of the stored breakdown from
  -- this contract to the recorded payer once, and the invoice is stored as refunded.
  pub refund_pays_payer :
      (admin id fee_bps payer token : ℕ) (a : Invoice) (s : State L)
      → s.invoice id ≡ some a
      → a.payer ≡ MaybeAddress.some payer
      → a.token_address ≡ MaybeAddress.some token
      → Ensures
          (λ refund t.
            (e.signed admin ≡ true)
            × (s.admin ≡ some admin)
            × (a.status ≡ InvoiceStatus.refund_requested)
            × (e.token_transfer token e.self payer refund.net_amount s.ledger ≡ some t.ledger)
            × (t.refund_breakdown id ≡ some refund)
            × (t.invoice id ≡ some (record a { status = InvoiceStatus.refunded })))
          (process_refund e admin id fee_bps s)
  unfolding process_refund require_admin require_not_paused append_history refund_recipient
      transfer_net_refund
  refund_pays_payer admin id fee_bps payer token a s stored paid_by with_token = ground (
    arith,
    stored,
    paid_by,
    with_token,
    verify_payment_state-Ensures s a,
    net_refund-Ensures s a.amount_usdc fee_bps s.refund_network_fee,
  )

-- ===== src/Invoice/Machine/Usable.antt =====
-- No call makes a stored template unusable (contracts/invoice/src/entrypoints).
use comebackhere_contracts.Prelude.{ℕ, ◌≡◌, true, arith}
use comebackhere_contracts.Host.{Env}
use comebackhere_contracts.Invoice.Storage.{State}
use comebackhere_contracts.Invoice.Machine.{Op, call, step}
use comebackhere_contracts.Invoice.Machine.Keeping.{is_sound}
use comebackhere_contracts.Invoice.Machine.Untouched.{
  create_invoice-Untouched, mark_paid-Untouched, release_escrow-Untouched, cancel_invoice-Untouched,
  amend_invoice-Untouched, transfer_invoice-Untouched, request_refund-Untouched,
  approve_refund-Untouched, reject_refund-Untouched, process_refund-Untouched,
  batch_expire-Untouched, batch_cancel_invoices-Untouched, batch_create_invoice-Untouched,
  set_grace_window-Untouched, set_refund_window-Untouched, transfer_admin-Untouched,
  set_refund_network_fee-Untouched, accept_admin-Untouched, pause-Untouched, unpause-Untouched,
  extend_expiry-Untouched,
}
use comebackhere_contracts.Invoice.Machine.Generating.{
  is_usable, create_template-is_usable, set_template_active-is_usable,
  generate_from_template-Onward, generate_due_invoices-Onward,
}

pub step-is_usable :
    {L : Type 0} (e : Env L) (op : Op) (s : State L) (k : ℕ)
    → ((j : ℕ) → is_sound s.invoice_count j (s.invoice j) ≡ true)
    → ((j : ℕ) → is_usable (s.template j) ≡ true)
    → is_usable ((step e op s).template k) ≡ true
unfolding step call
step-is_usable e (Op.create_invoice merchant amount gross seconds metadata link nonce token) s k h
      u =
    ground (
      arith,
      u k,
      create_invoice-Untouched e s merchant amount gross seconds metadata link nonce token,
    )
step-is_usable e (Op.mark_paid admin id payer metadata token) s k h u =
    ground (arith, u k, mark_paid-Untouched e s admin id payer metadata token)
step-is_usable e (Op.release_escrow admin id) s k h u =
    ground (arith, u k, release_escrow-Untouched e s admin id)
step-is_usable e (Op.cancel_invoice caller id) s k h u =
    ground (arith, u k, cancel_invoice-Untouched e s caller id)
step-is_usable e (Op.amend_invoice merchant id amount gross seconds) s k h u =
    ground (arith, u k, amend_invoice-Untouched e s merchant id amount gross seconds)
step-is_usable e (Op.transfer_invoice from id to) s k h u =
    ground (arith, u k, transfer_invoice-Untouched e s from id to)
step-is_usable e (Op.request_refund payer id) s k h u =
    ground (arith, u k, request_refund-Untouched e s payer id)
step-is_usable e (Op.approve_refund admin id) s k h u =
    ground (arith, u k, approve_refund-Untouched e s admin id)
step-is_usable e (Op.reject_refund admin id) s k h u =
    ground (arith, u k, reject_refund-Untouched e s admin id)
step-is_usable e (Op.process_refund admin id fee_bps) s k h u =
    ground (arith, u k, process_refund-Untouched e s admin id fee_bps)
step-is_usable e (Op.batch_expire admin ids) s k h u =
    ground (arith, u k, batch_expire-Untouched e s admin ids)
step-is_usable e (Op.batch_cancel_invoices merchant ids reason) s k h u =
    ground (arith, u k, batch_cancel_invoices-Untouched e s merchant ids reason)
step-is_usable e (Op.batch_create_invoice merchant params) s k h u =
    ground (arith, u k, batch_create_invoice-Untouched e s merchant params)
step-is_usable e (Op.set_grace_window admin seconds) s k h u =
    ground (arith, u k, set_grace_window-Untouched e s admin seconds)
step-is_usable e (Op.set_refund_window admin seconds) s k h u =
    ground (arith, u k, set_refund_window-Untouched e s admin seconds)
step-is_usable e (Op.transfer_admin admin new_admin) s k h u =
    ground (arith, u k, transfer_admin-Untouched e s admin new_admin)
step-is_usable e (Op.set_refund_network_fee admin fee) s k h u =
    ground (arith, u k, set_refund_network_fee-Untouched e s admin fee)
step-is_usable e (Op.accept_admin new_admin) s k h u =
    ground (arith, u k, accept_admin-Untouched e s new_admin)
step-is_usable e (Op.pause admin) s k h u = ground (arith, u k, pause-Untouched e s admin)
step-is_usable e (Op.unpause admin) s k h u = ground (arith, u k, unpause-Untouched e s admin)
step-is_usable e (Op.extend_expiry admin id additional) s k h u =
    ground (arith, u k, extend_expiry-Untouched e s admin id additional)
step-is_usable e (Op.create_template merchant amount gross interval seconds metadata link) s k h u =
    ground (
      arith,
      u k,
      create_template-is_usable e k s (u k) merchant amount gross interval seconds metadata link,
    )
step-is_usable e (Op.set_template_active caller id active) s k h u =
    ground (arith, u k, set_template_active-is_usable e k s (u k) caller id active)
step-is_usable e (Op.generate_from_template merchant id) s k h u =
    ground (arith, u k, generate_from_template-Onward e k merchant id s (u id) (h k))
step-is_usable e (Op.generate_due_invoices ids) s k h u =
    ground (arith, u k, generate_due_invoices-Onward e 0 ids s u (h 0) k)

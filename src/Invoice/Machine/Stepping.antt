-- ===== src/Invoice/Machine/Stepping.antt =====
-- One call from a sound state: it moves a stored invoice onward or leaves it, and keeps it sound
-- (contracts/invoice/src/entrypoints).
use comebackhere_contracts.Prelude.{ℕ, ◌≡◌, inl, refl, true, Option, none, some, arith}
use comebackhere_contracts.Host.{Env}
use comebackhere_contracts.Invoice.Types.{Invoice}
use comebackhere_contracts.Invoice.Storage.{State}
use comebackhere_contracts.Invoice.Machine.{Op, call, step}
use comebackhere_contracts.Invoice.Machine.Keeping.{
  is_sound, Follows, Onward, mark_paid-Onward, release_escrow-Onward, cancel_invoice-Onward,
  amend_invoice-Onward, transfer_invoice-Onward, request_refund-Onward, approve_refund-Onward,
  reject_refund-Onward,
}
use comebackhere_contracts.Invoice.Machine.Others.{
  create_invoice-Onward, process_refund-Onward, batch_expire-Onward,
}
use comebackhere_contracts.Invoice.Machine.Generating.{
  is_usable, create_template-is_usable, set_template_active-is_usable,
  generate_from_template-Onward, generate_due_invoices-Onward,
}
use comebackhere_contracts.Invoice.Machine.Creation.{batch_create_invoice-Onward}
use comebackhere_contracts.Invoice.Machine.Settings.{
  set_grace_window-Onward, set_refund_window-Onward, transfer_admin-Onward,
  set_refund_network_fee-Onward, accept_admin-Onward, pause-Onward, unpause-Onward,
  extend_expiry-Onward,
}
use comebackhere_contracts.Invoice.Machine.Cancelling.{batch_cancel_invoices-Onward}

Follows-refl : (o : Option Invoice) → Follows o o
Follows-refl none = tt
Follows-refl (some a) = inl refl

pub step-Onward :
    {L : Type 0} (e : Env L) (op : Op) (s : State L) (k : ℕ)
    → ((j : ℕ) → is_sound s.invoice_count j (s.invoice j) ≡ true)
    → ((j : ℕ) → is_usable (s.template j) ≡ true)
    → Onward k s (step e op s)
unfolding step call
step-Onward e (Op.create_invoice merchant amount gross seconds metadata link nonce token) s k h u =
    ground (
      arith,
      h k,
      Follows-refl (s.invoice k),
      create_invoice-Onward e k s (h k) merchant amount gross seconds metadata link nonce token,
    )
step-Onward e (Op.mark_paid admin id payer metadata token) s k h u = ground (
  arith,
  h k,
  Follows-refl (s.invoice k),
  mark_paid-Onward e k s (h k) admin id payer metadata token,
)
step-Onward e (Op.release_escrow admin id) s k h u =
    ground (arith, h k, Follows-refl (s.invoice k), release_escrow-Onward e k s (h k) admin id)
step-Onward e (Op.cancel_invoice caller id) s k h u =
    ground (arith, h k, Follows-refl (s.invoice k), cancel_invoice-Onward e k s (h k) caller id)
step-Onward e (Op.amend_invoice merchant id amount gross seconds) s k h u = ground (
  arith,
  h k,
  Follows-refl (s.invoice k),
  amend_invoice-Onward e k s (h k) merchant id amount gross seconds,
)
step-Onward e (Op.transfer_invoice from id to) s k h u =
    ground (arith, h k, Follows-refl (s.invoice k), transfer_invoice-Onward e k s (h k) from id to)
step-Onward e (Op.request_refund payer id) s k h u =
    ground (arith, h k, Follows-refl (s.invoice k), request_refund-Onward e k s (h k) payer id)
step-Onward e (Op.approve_refund admin id) s k h u =
    ground (arith, h k, Follows-refl (s.invoice k), approve_refund-Onward e k s (h k) admin id)
step-Onward e (Op.reject_refund admin id) s k h u =
    ground (arith, h k, Follows-refl (s.invoice k), reject_refund-Onward e k s (h k) admin id)
step-Onward e (Op.process_refund admin id fee_bps) s k h u =
    ground
      (arith, h k, Follows-refl (s.invoice k), process_refund-Onward e k s (h k) admin id fee_bps)
step-Onward e (Op.batch_expire admin ids) s k h u =
    ground (arith, h k, Follows-refl (s.invoice k), batch_expire-Onward e k s (h k) admin ids)
step-Onward e (Op.batch_cancel_invoices merchant ids reason) s k h u = ground (
  arith,
  h k,
  Follows-refl (s.invoice k),
  batch_cancel_invoices-Onward e s h k merchant ids reason,
)
step-Onward e (Op.batch_create_invoice merchant params) s k h u = ground (
  arith,
  h k,
  Follows-refl (s.invoice k),
  batch_create_invoice-Onward e k s merchant params (h k),
)
step-Onward e (Op.set_grace_window admin seconds) s k h u = ground (
  arith,
  h k,
  Follows-refl (s.invoice k),
  set_grace_window-Onward e k s (h k) (Follows-refl (s.invoice k)) admin seconds,
)
step-Onward e (Op.set_refund_window admin seconds) s k h u = ground (
  arith,
  h k,
  Follows-refl (s.invoice k),
  set_refund_window-Onward e k s (h k) (Follows-refl (s.invoice k)) admin seconds,
)
step-Onward e (Op.transfer_admin admin new_admin) s k h u = ground (
  arith,
  h k,
  Follows-refl (s.invoice k),
  transfer_admin-Onward e k s (h k) (Follows-refl (s.invoice k)) admin new_admin,
)
step-Onward e (Op.set_refund_network_fee admin fee) s k h u = ground (
  arith,
  h k,
  Follows-refl (s.invoice k),
  set_refund_network_fee-Onward e k s (h k) (Follows-refl (s.invoice k)) admin fee,
)
step-Onward e (Op.accept_admin new_admin) s k h u = ground (
  arith,
  h k,
  Follows-refl (s.invoice k),
  accept_admin-Onward e k s (h k) (Follows-refl (s.invoice k)) new_admin,
)
step-Onward e (Op.pause admin) s k h u = ground (
  arith,
  h k,
  Follows-refl (s.invoice k),
  pause-Onward e k s (h k) (Follows-refl (s.invoice k)) admin,
)
step-Onward e (Op.unpause admin) s k h u = ground (
  arith,
  h k,
  Follows-refl (s.invoice k),
  unpause-Onward e k s (h k) (Follows-refl (s.invoice k)) admin,
)
step-Onward e (Op.extend_expiry admin id additional) s k h u = ground (
  arith,
  h k,
  Follows-refl (s.invoice k),
  extend_expiry-Onward e k s (h k) (Follows-refl (s.invoice k)) admin id additional,
)
step-Onward e (Op.create_template merchant amount gross interval seconds metadata link) s k h u =
    ground (
      arith,
      h k,
      Follows-refl (s.invoice k),
      create_template-is_usable e 0 s (u 0) merchant amount gross interval seconds metadata link,
    )
step-Onward e (Op.set_template_active caller id active) s k h u = ground (
  arith,
  h k,
  Follows-refl (s.invoice k),
  set_template_active-is_usable e 0 s (u 0) caller id active,
)
step-Onward e (Op.generate_from_template merchant id) s k h u = ground (
  arith,
  h k,
  Follows-refl (s.invoice k),
  generate_from_template-Onward e k merchant id s (u id) (h k),
)
step-Onward e (Op.generate_due_invoices ids) s k h u =
    ground
      (arith, h k, Follows-refl (s.invoice k), generate_due_invoices-Onward e k ids s u (h k) 0)

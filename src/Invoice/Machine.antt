-- ===== src/Invoice/Machine.antt =====
-- The modelled entrypoints of contracts/invoice/src/entrypoints that change the storage, but
-- `initialize`, as data, and runs of them. A failed call leaves the storage as it was. The others that
-- change the storage are settings whose keys no modelled entrypoint reads.
pub mod Keeping
pub mod Others
pub mod Cancelling
pub mod Creation
pub mod Settings
pub mod Untouched
pub mod Generating
pub mod Usable
pub mod Stepping
pub mod Histories
use comebackhere_contracts.Prelude.{ℕ, Bool, false, none, List, [], ◌∷◌}
use comebackhere_contracts.Prelude.Int.{ℤ, pos}
use comebackhere_contracts.Host.{Env, Call, Result, ok, err, ◌>>=◌, ◌>>◌, pure}
use comebackhere_contracts.Invoice.Types.{
  MaybeAddress, MaybeBytes, BatchInvoiceParams, RecurrenceInterval,
}
use comebackhere_contracts.Invoice.Storage.{State}
use comebackhere_contracts.Invoice.Lifecycle
use comebackhere_contracts.Invoice.Payouts
use comebackhere_contracts.Invoice.Batches
use comebackhere_contracts.Invoice.Creating
use comebackhere_contracts.Invoice.Admin
use comebackhere_contracts.Invoice.Templates

pub data Op : Type 0 where
  create_invoice : ℕ → ℤ → ℤ → ℕ → MaybeBytes → MaybeBytes → ℕ → MaybeAddress → Op
  mark_paid : ℕ → ℕ → ℕ → MaybeBytes → MaybeAddress → Op
  release_escrow cancel_invoice : ℕ → ℕ → Op
  amend_invoice : ℕ → ℕ → ℤ → ℤ → ℕ → Op
  transfer_invoice : ℕ → ℕ → ℕ → Op
  request_refund approve_refund reject_refund : ℕ → ℕ → Op
  process_refund : ℕ → ℕ → ℕ → Op
  batch_expire : ℕ → List ℕ → Op
  batch_cancel_invoices : ℕ → List ℕ → MaybeBytes → Op
  batch_create_invoice : ℕ → List BatchInvoiceParams → Op
  extend_expiry : ℕ → ℕ → ℕ → Op
  create_template : ℕ → ℤ → ℤ → RecurrenceInterval → ℕ → MaybeBytes → MaybeBytes → Op
  set_template_active : ℕ → ℕ → Bool → Op
  generate_from_template : ℕ → ℕ → Op
  generate_due_invoices : List ℕ → Op
  set_grace_window set_refund_window transfer_admin : ℕ → ℕ → Op
  set_refund_network_fee : ℕ → ℤ → Op
  accept_admin pause unpause : ℕ → Op

unfoldable pub call : {L : Type 0} → Env L → Op → Call (State L) (Unit {0})
call e (Op.create_invoice merchant amount gross seconds metadata link nonce token) =
    Lifecycle.create_invoice e merchant amount gross seconds metadata link nonce token >> pure tt
call e (Op.mark_paid admin id payer metadata token) =
    Lifecycle.mark_paid e admin id payer metadata token
call e (Op.release_escrow admin id) = Lifecycle.release_escrow e admin id
call e (Op.cancel_invoice caller id) = Lifecycle.cancel_invoice e caller id
call e (Op.amend_invoice merchant id amount gross seconds) =
    Lifecycle.amend_invoice e merchant id amount gross seconds
call e (Op.transfer_invoice from id to) = Lifecycle.transfer_invoice e from id to
call e (Op.request_refund payer id) = Payouts.request_refund e payer id
call e (Op.approve_refund admin id) = Payouts.approve_refund e admin id
call e (Op.reject_refund admin id) = Payouts.reject_refund e admin id
call e (Op.process_refund admin id fee_bps) = Payouts.process_refund e admin id fee_bps >> pure tt
call e (Op.batch_expire admin ids) = Batches.batch_expire e admin ids >> pure tt
call e (Op.batch_cancel_invoices merchant ids reason) =
    Batches.batch_cancel_invoices e merchant ids reason
call e (Op.batch_create_invoice merchant params) =
    Creating.batch_create_invoice e merchant params >> pure tt
call e (Op.extend_expiry admin id additional) = Admin.extend_expiry e admin id additional
call e (Op.create_template merchant amount gross interval seconds metadata link) =
    Templates.create_template e merchant amount gross interval seconds metadata link >> pure tt
call e (Op.set_template_active caller id active) = Templates.set_template_active e caller id active
call e (Op.generate_from_template merchant id) =
    Templates.generate_from_template e merchant id >> pure tt
call e (Op.generate_due_invoices ids) = Templates.generate_due_invoices e ids >> pure tt
call e (Op.set_grace_window admin seconds) = Admin.set_grace_window e admin seconds
call e (Op.set_refund_window admin seconds) = Admin.set_refund_window e admin seconds
call e (Op.transfer_admin admin new_admin) = Admin.transfer_admin e admin new_admin
call e (Op.set_refund_network_fee admin fee) = Admin.set_refund_network_fee e admin fee
call e (Op.accept_admin new_admin) = Admin.accept_admin e new_admin
call e (Op.pause admin) = Admin.pause e admin
call e (Op.unpause admin) = Admin.unpause e admin

abbrev pub after : {L : Type 0} → State L → Result (Unit {0} × State L) → State L
after s (ok r) = r.1
after s (err f) = s

unfoldable pub step : {L : Type 0} → Env L → Op → State L → State L
unfolding call
step e op s = after s (call e op s)

unfoldable pub run : {L : Type 0} → List (Env L × Op) → State L → State L
run [] s = s
run ((e, op) ∷ rest) s = run rest (step e op s)

-- The storage of a contract that was just deployed, for given token contracts.
unfoldable pub deployed : {L : Type 0} → L → State L
deployed ledger = record {
  invoice = λ _. none;
  invoice_count = 0;
  admin = none;
  pending_admin = none;
  paused = false;
  grace_window = 0;
  merchant_nonce = λ _ _. false;
  merchant_invoice_count = λ _. 0;
  merchant_invoice_index = λ _ _. none;
  invoice_history = λ _. [];
  pending_index = [];
  refund_breakdown = λ _. none;
  refund_network_fee = pos 100;
  refund_window = 0;
  refund_requested_at = λ _. none;
  payer_index_count = λ _. 0;
  payer_index_entry = λ _ _. none;
  template = λ _. none;
  template_count = 0;
  merchant_templates = λ _. [];
  ledger = ledger;
  events = [];
}

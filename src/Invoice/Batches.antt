-- ===== src/Invoice/Batches.antt =====
-- Expiring and cancelling many invoices in one call (contracts/invoice/src/entrypoints/batch.rs).
use comebackhere_contracts.Prelude.{
  ℕ, ◌+◌, not, ◌&&◌, Option, none, some, List, [], ◌∷◌, length, push_back, ltb, leb, ◌==◌,
  if◌then◌else◌,
}
use comebackhere_contracts.Errors.Invoice.{InvoiceError}
use comebackhere_contracts.Host.{Env, Call, ok, ◌>>=◌, ◌>>◌, pure, modify, require_auth}
use comebackhere_contracts.Invoice.Types.{InvoiceStatus, MaybeBytes, Invoice, is_pending}
use comebackhere_contracts.Invoice.Storage.{State, Event}
use comebackhere_contracts.Invoice.Guards.{
  reject_if, require_admin, require_not_paused, load_invoice, store_invoice, pending_index_remove,
  append_history,
}

abbrev pub max_batch_size : ℕ
max_batch_size = 50

abbrev pub max_batch_expire : ℕ
max_batch_expire = 100

module _ {L : Type 0} (e : Env L) where
  unfoldable pub expire_found : ℕ → Invoice → State L → State L
  expire_found id invoice s =
      let closed = record invoice { status = InvoiceStatus.expired } in
      let after =
        append_history e id InvoiceStatus.pending InvoiceStatus.expired
          (pending_index_remove id (store_invoice id closed s)) in
      record after { events = Event.invoice_expired id closed ∷ after.events }

  -- The body of the loop, on what is stored under the id.
  unfoldable pub expire_due : ℕ → Option Invoice → ℕ × State L → ℕ × State L
  expire_due id none (count, s) = (count, s)
  expire_due id (some invoice) (count, s) =
      if is_pending invoice.status && leb invoice.expires_at e.now
      then (count + 1, expire_found id invoice s)
      else (count, s)

  unfoldable pub expire_each : List ℕ → ℕ → State L → ℕ × State L
  expire_each [] count s = (count, s)
  expire_each (id ∷ rest) count s =
      let r = expire_due id (s.invoice id) (count, s) in expire_each rest r.0 r.1

  unfoldable pub batch_expire : ℕ → List ℕ → Call (State L) ℕ
  batch_expire admin ids = do
    require_admin e admin
    require_not_paused
    reject_if (ltb max_batch_expire (length ids)) InvoiceError.batch_too_large
    λ s. ok (expire_each ids 0 s)

  -- The first loop: every id is tested before anything is written.
  unfoldable pub collect_each : ℕ → List ℕ → List Invoice → Call (State L) (List Invoice)
  collect_each merchant [] invoices = pure invoices
  collect_each merchant (id ∷ rest) invoices = load_invoice id >>= λ invoice.
      (reject_if (not (invoice.merchant == merchant)) InvoiceError.unauthorized
        >> reject_if (not (is_pending invoice.status)) InvoiceError.not_pending
        >> collect_each merchant rest (push_back invoices invoice))

  unfoldable pub cancel_found : Invoice → State L → State L
  cancel_found invoice s =
      let closed = record invoice { status = InvoiceStatus.cancelled } in
      let after =
        append_history e invoice.id InvoiceStatus.pending InvoiceStatus.cancelled
          (pending_index_remove invoice.id (store_invoice invoice.id closed s)) in
      record after { events = Event.invoice_cancelled invoice.id closed ∷ after.events }

  unfoldable pub cancel_each : List Invoice → State L → State L
  cancel_each [] s = s
  cancel_each (invoice ∷ rest) s = cancel_each rest (cancel_found invoice s)

  unfoldable pub batch_cancel_invoices : ℕ → List ℕ → MaybeBytes → Call (State L) (Unit {0})
  batch_cancel_invoices merchant ids reason = do
    require_auth e merchant
    require_not_paused
    reject_if (ltb max_batch_size (length ids)) InvoiceError.batch_too_large
    invoices ← collect_each merchant ids []
    modify (cancel_each invoices)

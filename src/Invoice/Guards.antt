-- ===== src/Invoice/Guards.antt =====
-- The checks of contracts/invoice/src/validation.rs and the index and history writers of
-- contracts/invoice/src/lib.rs.
use comebackhere_contracts.Prelude.{
  ℕ, ◌+◌, ◌*◌, Bool, true, false, not, ◌||◌, Option, none, some, ◌∷◌, without, push_back, length,
  put, assign, ltb, leb, ◌==◌, if◌then◌else◌,
}
use comebackhere_contracts.Prelude.Int.{ℤ, pos, leb_ℤ, ltb_ℤ}
use comebackhere_contracts.Errors.{invoice_error}
use comebackhere_contracts.Errors.Invoice.{InvoiceError}
use comebackhere_contracts.Host.{Env, Call, ok, err, ◌>>=◌, ◌>>◌, gets, modify, require_auth}
use comebackhere_contracts.Invoice.Types.{InvoiceStatus, MaybeBytes, Invoice}
use comebackhere_contracts.Invoice.Storage.{State, Event}

abbrev pub usdc_factor : ℕ
usdc_factor = 10000000

abbrev pub max_hash_bytes : ℕ
max_hash_bytes = 64

abbrev pub max_payer_index_entries : ℕ
max_payer_index_entries = 500

abbrev pub max_expiry_seconds : ℕ
max_expiry_seconds = 5 * 365 * 24 * 60 * 60

abbrev pub max_memo_bytes : ℕ
max_memo_bytes = 256

abbrev longer_than : ℕ → MaybeBytes → Bool
longer_than limit MaybeBytes.none = false
longer_than limit (MaybeBytes.some bytes) = ltb limit (length bytes)

abbrev not_a_digest : MaybeBytes → Bool
not_a_digest MaybeBytes.none = false
not_a_digest (MaybeBytes.some bytes) = not (length bytes == 32)

module _ {S : Type 0} where
  -- `if b { return Err(e) }`
  abbrev pub reject_if : Bool → InvoiceError → Call S (Unit {0})
  reject_if true e s = err (invoice_error e)
  reject_if false e s = ok (tt, s)

  -- `ok_or(e)?`
  abbrev pub or_reject : {A : Type 0} → Option A → InvoiceError → Call S A
  or_reject none e s = err (invoice_error e)
  or_reject (some a) e s = ok (a, s)

  unfoldable pub require_positive_amount : ℤ → ℤ → Call S (Unit {0})
  require_positive_amount amount_usdc gross_usdc = do
    reject_if (leb_ℤ amount_usdc (pos 0) || ltb_ℤ gross_usdc amount_usdc)
        InvoiceError.invalid_amount

  unfoldable pub require_usdc_precision : ℤ → ℤ → Call S (Unit {0})
  require_usdc_precision amount_usdc gross_usdc = do
    reject_if (ltb_ℤ amount_usdc (pos usdc_factor) || ltb_ℤ gross_usdc (pos usdc_factor))
        InvoiceError.amount_precision

  unfoldable pub require_expiry_not_too_long : ℕ → Call S (Unit {0})
  require_expiry_not_too_long expires_in_seconds = do
    reject_if (ltb max_expiry_seconds expires_in_seconds) InvoiceError.expiry_too_long

  unfoldable pub require_hash_not_too_long : MaybeBytes → Call S (Unit {0})
  require_hash_not_too_long hash = do
    reject_if (longer_than max_hash_bytes hash) InvoiceError.hash_too_long

  unfoldable pub require_valid_payment_link_hash : MaybeBytes → Call S (Unit {0})
  require_valid_payment_link_hash hash = do
    reject_if (not_a_digest hash) InvoiceError.invalid_payment_link_hash

  unfoldable pub require_memo_not_too_long : MaybeBytes → Call S (Unit {0})
  require_memo_not_too_long memo = do
    reject_if (longer_than max_memo_bytes memo) InvoiceError.memo_too_long

  unfoldable pub require_payer_not_merchant : ℕ → ℕ → Call S (Unit {0})
  require_payer_not_merchant payer merchant = do
    reject_if (payer == merchant) InvoiceError.self_pay_not_allowed

  unfoldable pub require_valid_discount : ℤ → ℤ → ℕ → ℕ → Call S (Unit {0})
  require_valid_discount discount_amount amount_usdc discount_deadline expires_at = do
    reject_if (leb_ℤ amount_usdc discount_amount) InvoiceError.discount_exceeds_amount
    reject_if (ltb expires_at discount_deadline) InvoiceError.discount_deadline_after_expiry

-- `stored == Some(a)`
abbrev pub holds : Option ℕ → ℕ → Bool
holds none a = false
holds (some b) a = b == a

module _ {L : Type 0} where
  abbrev pub emit : Event → Call (State L) (Unit {0})
  emit event = modify (λ s. record s { events = event ∷ s.events })

  unfoldable pub require_not_paused : Call (State L) (Unit {0})
  require_not_paused = do reject_if (← gets (λ s. s.paused)) InvoiceError.contract_paused

  unfoldable pub require_admin : Env L → ℕ → Call (State L) (Unit {0})
  require_admin e admin = do
    require_auth e admin
    matches ← gets (λ s. holds s.admin admin)
    reject_if (not matches) InvoiceError.unauthorized

  abbrev pub load_invoice : ℕ → Call (State L) Invoice
  load_invoice id = do found ← gets (λ s. s.invoice id); or_reject found InvoiceError.not_found

  abbrev pub store_invoice : ℕ → Invoice → State L → State L
  store_invoice id invoice s = record s { invoice = put id invoice s.invoice }

  unfoldable pub pending_index_add : ℕ → State L → State L
  pending_index_add id s = record s { pending_index = push_back s.pending_index id }

  unfoldable pub pending_index_remove : ℕ → State L → State L
  pending_index_remove id s = record s { pending_index = without s.pending_index id }

  unfoldable pub payer_index_add : ℕ → ℕ → State L → State L
  payer_index_add payer id s =
      let count = s.payer_index_count payer in
      if leb max_payer_index_entries count then s else record s {
        payer_index_entry =
            assign payer (put count id (s.payer_index_entry payer)) s.payer_index_entry;
        payer_index_count = assign payer (count + 1) s.payer_index_count;
      }

  unfoldable pub append_history : Env L → ℕ → InvoiceStatus → InvoiceStatus → State L → State L
  append_history e id from to s = record s {
    invoice_history =
        assign id
          (push_back (s.invoice_history id) (record { from = from; to = to; timestamp = e.now }))
          s.invoice_history;
  }

-- ===== src/Invoice/Creating.antt =====
-- Creating many invoices in one call (`batch_create_invoice` of
-- contracts/invoice/src/entrypoints/batch.rs).
use comebackhere_contracts.Prelude.{
  ℕ, not, ◌&&◌, ◌||◌, none, List, [], ◌∷◌, contains, push_back, length, leb, ◌==◌, if◌then◌else◌,
}
use comebackhere_contracts.Prelude.Int.{u64_max}
use comebackhere_contracts.Errors.Invoice.{InvoiceError}
use comebackhere_contracts.Host.{Env, Call, ◌>>=◌, ◌>>◌, pure, gets, modify, panic_if, require_auth}
use comebackhere_contracts.Invoice.Types.{InvoiceStatus, MaybeAddress, Invoice, BatchInvoiceParams}
use comebackhere_contracts.Invoice.Storage.{State, Event}
use comebackhere_contracts.Invoice.Guards.{
  reject_if, or_reject, emit, require_not_paused, require_positive_amount, require_usdc_precision,
  require_expiry_not_too_long, require_hash_not_too_long, require_valid_payment_link_hash,
  store_invoice, pending_index_add,
}
use comebackhere_contracts.Invoice.Lifecycle.{checked_add_u64, use_nonce, merchant_index_add}

module _ {L : Type 0} where
  -- The loop of the checks; `batch_nonces` are those of the entries before.
  unfoldable pub check_each : ℕ → List BatchInvoiceParams → List ℕ → Call (State L) (Unit {0})
  check_each merchant [] batch_nonces = pure tt
  check_each merchant (p ∷ rest) batch_nonces =
      require_positive_amount p.amount_usdc p.gross_usdc
      >> require_usdc_precision p.amount_usdc p.gross_usdc
      >> require_hash_not_too_long p.metadata_hash
      >> require_hash_not_too_long p.payment_link_hash
      >> require_valid_payment_link_hash p.payment_link_hash
      >> reject_if (p.expires_in_seconds == 0) InvoiceError.zero_duration
      >> require_expiry_not_too_long p.expires_in_seconds
      >> gets (λ s.
        not (p.merchant_nonce == 0)
        && (s.merchant_nonce merchant p.merchant_nonce || contains batch_nonces p.merchant_nonce))
      >>= (λ used. reject_if used InvoiceError.duplicate_nonce)
      >> check_each merchant rest
          (if p.merchant_nonce == 0 then batch_nonces else push_back batch_nonces p.merchant_nonce)

module _ {L : Type 0} (e : Env L) where
  -- The body of the loop that writes.
  unfoldable pub create_one : ℕ → BatchInvoiceParams → Call (State L) ℕ
  create_one merchant p = do
    count ← gets (λ s. s.invoice_count)
    id ← or_reject (checked_add_u64 count 1) InvoiceError.invoice_count_overflow
    expires_at ← or_reject (checked_add_u64 e.now p.expires_in_seconds) InvoiceError.expiry_overflow
    let invoice : Invoice = record {
      id = id;
      merchant = merchant;
      amount_usdc = p.amount_usdc;
      gross_usdc = p.gross_usdc;
      status = InvoiceStatus.pending;
      expires_at = expires_at;
      paid_at = none;
      payer = MaybeAddress.none;
      metadata_hash = p.metadata_hash;
      payment_link_hash = p.payment_link_hash;
      merchant_nonce = p.merchant_nonce;
      token_address = p.token_address;
    }
    modify (store_invoice id invoice)
    modify (λ s. record s { invoice_count = id })
    modify (use_nonce merchant p.merchant_nonce)
    merchant_count ← gets (λ s. s.merchant_invoice_count merchant)
    panic_if (leb u64_max merchant_count)
    modify (merchant_index_add merchant id)
    modify (pending_index_add id)
    emit (Event.invoice_created id invoice)
    pure id

  unfoldable pub create_each : ℕ → List BatchInvoiceParams → List ℕ → Call (State L) (List ℕ)
  create_each merchant [] ids = pure ids
  create_each merchant (p ∷ rest) ids =
      create_one merchant p >>= λ id. create_each merchant rest (push_back ids id)

  unfoldable pub batch_create_invoice : ℕ → List BatchInvoiceParams → Call (State L) (List ℕ)
  batch_create_invoice merchant params = do
    require_auth e merchant
    require_not_paused
    check_each merchant params []
    count ← gets (λ s. s.invoice_count)
    all ← or_reject (checked_add_u64 count (length params)) InvoiceError.invoice_count_overflow
    create_each merchant params []

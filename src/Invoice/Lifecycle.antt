-- ===== src/Invoice/Lifecycle.antt =====
-- Creating, paying, releasing, cancelling and amending an invoice
-- (contracts/invoice/src/entrypoints/lifecycle.rs), and handing on its payer's claim
-- (entrypoints/transfer.rs).
use comebackhere_contracts.Prelude.{
  ℕ, ◌+◌, Bool, true, false, not, ◌&&◌, Option, none, some, put, assign, ltb, leb, ◌==◌,
  if◌then◌else◌,
}
use comebackhere_contracts.Prelude.Int.{ℤ, u64_max}
use comebackhere_contracts.Errors.Invoice.{InvoiceError}
use comebackhere_contracts.Host.{Env, Call, ◌>>=◌, ◌>>◌, pure, gets, modify, require_auth, panic_if}
use comebackhere_contracts.Invoice.Types.{
  InvoiceStatus, MaybeAddress, MaybeBytes, Invoice, is_pending, is_paid, is_address, same_hash,
}
use comebackhere_contracts.Invoice.Storage.{State, Event}
use comebackhere_contracts.Invoice.Guards.{
  reject_if, or_reject, emit, holds, require_admin, require_not_paused, require_positive_amount,
  require_usdc_precision, require_expiry_not_too_long, require_hash_not_too_long,
  require_valid_payment_link_hash, require_payer_not_merchant, load_invoice, store_invoice,
  pending_index_add, pending_index_remove, payer_index_add, append_history,
}

-- `a.checked_add(b)` on `u64`
abbrev pub checked_add_u64 : ℕ → ℕ → Option ℕ
checked_add_u64 a b = if ltb u64_max (a + b) then none else some (a + b)

-- `!= MaybeBytes::None && != stored`
abbrev mismatched : MaybeBytes → MaybeBytes → Bool
mismatched MaybeBytes.none stored = false
mismatched (MaybeBytes.some bytes) stored = not (same_hash (MaybeBytes.some bytes) stored)

abbrev wrong_token : MaybeAddress → MaybeAddress → Bool
wrong_token MaybeAddress.none payment = false
wrong_token (MaybeAddress.some expected) payment = not (is_address payment expected)

-- `expires_at.checked_add(grace).unwrap_or(expires_at)`
abbrev effective_deadline : ℕ → ℕ → ℕ
effective_deadline expires_at grace =
    if ltb u64_max (expires_at + grace) then expires_at else expires_at + grace

module _ {L : Type 0} where
  unfoldable pub use_nonce : ℕ → ℕ → State L → State L
  use_nonce merchant nonce s = if nonce == 0 then s else record s {
    merchant_nonce =
        assign merchant (assign nonce true (s.merchant_nonce merchant)) s.merchant_nonce;
  }

  unfoldable pub merchant_index_add : ℕ → ℕ → State L → State L
  merchant_index_add merchant id s =
      let count = s.merchant_invoice_count merchant in
      record s {
        merchant_invoice_index =
            assign merchant (put count id (s.merchant_invoice_index merchant))
              s.merchant_invoice_index;
        merchant_invoice_count = assign merchant (count + 1) s.merchant_invoice_count;
      }

module _ {L : Type 0} (e : Env L) where
  unfoldable pub create_invoice_record :
      ℕ → ℤ → ℤ → ℕ → MaybeBytes → MaybeBytes → ℕ → MaybeAddress → Call (State L) ℕ
  create_invoice_record merchant amount_usdc gross_usdc expires_in_seconds metadata_hash
        payment_link_hash merchant_nonce token_address =
      do
        count ← gets (λ s. s.invoice_count)
        id ← or_reject (checked_add_u64 count 1) InvoiceError.invoice_count_overflow
        expires_at ←
            or_reject (checked_add_u64 e.now expires_in_seconds) InvoiceError.expiry_overflow
        modify (use_nonce merchant merchant_nonce)
        let invoice : Invoice = record {
          id = id;
          merchant = merchant;
          amount_usdc = amount_usdc;
          gross_usdc = gross_usdc;
          status = InvoiceStatus.pending;
          expires_at = expires_at;
          paid_at = none;
          payer = MaybeAddress.none;
          metadata_hash = metadata_hash;
          payment_link_hash = payment_link_hash;
          merchant_nonce = merchant_nonce;
          token_address = token_address;
        }
        modify (store_invoice id invoice)
        modify (λ s. record s { invoice_count = id })
        merchant_count ← gets (λ s. s.merchant_invoice_count merchant)
        panic_if (leb u64_max merchant_count)
        modify (merchant_index_add merchant id)
        modify (pending_index_add id)
        emit (Event.invoice_created id invoice)
        pure id

  unfoldable pub create_invoice :
      ℕ → ℤ → ℤ → ℕ → MaybeBytes → MaybeBytes → ℕ → MaybeAddress → Call (State L) ℕ
  unfolding create_invoice_record
  create_invoice merchant amount_usdc gross_usdc expires_in_seconds metadata_hash payment_link_hash
        merchant_nonce token_address =
      do
        require_auth e merchant
        require_not_paused
        require_positive_amount amount_usdc gross_usdc
        require_usdc_precision amount_usdc gross_usdc
        require_hash_not_too_long metadata_hash
        require_hash_not_too_long payment_link_hash
        require_valid_payment_link_hash payment_link_hash
        reject_if (expires_in_seconds == 0) InvoiceError.zero_duration
        require_expiry_not_too_long expires_in_seconds
        used ← gets (λ s. s.merchant_nonce merchant merchant_nonce)
        reject_if (not (merchant_nonce == 0) && used) InvoiceError.duplicate_nonce
        create_invoice_record merchant amount_usdc gross_usdc expires_in_seconds metadata_hash
            payment_link_hash merchant_nonce token_address

  unfoldable pub mark_paid : ℕ → ℕ → ℕ → MaybeBytes → MaybeAddress → Call (State L) (Unit {0})
  mark_paid admin id payer provided_metadata_hash payment_token = do
    require_admin e admin
    require_not_paused
    invoice ← load_invoice id
    reject_if (not (is_pending invoice.status)) InvoiceError.not_pending
    require_payer_not_merchant payer invoice.merchant
    reject_if (mismatched provided_metadata_hash invoice.metadata_hash)
        InvoiceError.metadata_mismatch
    reject_if (wrong_token invoice.token_address payment_token) InvoiceError.token_mismatch
    grace ← gets (λ s. s.grace_window)
    reject_if (leb (effective_deadline invoice.expires_at grace) e.now) InvoiceError.expired
    let settled = record invoice {
      status = InvoiceStatus.paid;
      paid_at = some e.now;
      payer = MaybeAddress.some payer;
    }
    modify (store_invoice id settled)
    modify (payer_index_add payer id)
    modify (pending_index_remove id)
    modify (append_history e id InvoiceStatus.pending InvoiceStatus.paid)
    emit (Event.invoice_paid id settled)

  unfoldable pub release_escrow : ℕ → ℕ → Call (State L) (Unit {0})
  release_escrow admin id = do
    require_admin e admin
    require_not_paused
    invoice ← load_invoice id
    reject_if (not (is_paid invoice.status)) InvoiceError.not_paid
    let closed = record invoice { status = InvoiceStatus.released }
    modify (store_invoice id closed)
    modify (append_history e id InvoiceStatus.paid InvoiceStatus.released)
    emit (Event.escrow_released id closed)

  unfoldable pub cancel_invoice : ℕ → ℕ → Call (State L) (Unit {0})
  cancel_invoice caller id = do
    require_auth e caller
    require_not_paused
    invoice ← load_invoice id
    by_admin ← gets (λ s. holds s.admin caller)
    reject_if (not (caller == invoice.merchant) && not by_admin) InvoiceError.unauthorized
    reject_if (not (is_pending invoice.status)) InvoiceError.not_pending
    let closed = record invoice { status = InvoiceStatus.cancelled }
    modify (store_invoice id closed)
    modify (pending_index_remove id)
    modify (append_history e id InvoiceStatus.pending InvoiceStatus.cancelled)
    emit (Event.invoice_cancelled id closed)

  unfoldable pub amend_invoice : ℕ → ℕ → ℤ → ℤ → ℕ → Call (State L) (Unit {0})
  amend_invoice merchant id new_amount_usdc new_gross_usdc new_expires_in_seconds = do
    require_auth e merchant
    require_not_paused
    require_positive_amount new_amount_usdc new_gross_usdc
    require_usdc_precision new_amount_usdc new_gross_usdc
    reject_if (new_expires_in_seconds == 0) InvoiceError.zero_duration
    require_expiry_not_too_long new_expires_in_seconds
    invoice ← load_invoice id
    reject_if (not (invoice.merchant == merchant)) InvoiceError.unauthorized
    reject_if (not (is_pending invoice.status)) InvoiceError.not_pending
    expires_at ←
        or_reject (checked_add_u64 e.now new_expires_in_seconds) InvoiceError.expiry_overflow
    modify (
        store_invoice id (record invoice {
          amount_usdc = new_amount_usdc;
          gross_usdc = new_gross_usdc;
          expires_at = expires_at;
        }))
    emit (
        Event.invoice_amended id invoice.amount_usdc new_amount_usdc invoice.gross_usdc
          new_gross_usdc)

  unfoldable pub transfer_invoice : ℕ → ℕ → ℕ → Call (State L) (Unit {0})
  transfer_invoice from id to = do
    require_auth e from
    require_not_paused
    invoice ← load_invoice id
    reject_if (not (is_address invoice.payer from)) InvoiceError.unauthorized
    reject_if (not (is_paid invoice.status)) InvoiceError.not_paid
    reject_if (from == to) InvoiceError.invalid_amount
    modify (store_invoice id (record invoice { payer = MaybeAddress.some to }))
    emit (Event.invoice_transferred id from to)

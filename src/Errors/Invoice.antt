-- ===== src/Errors/Invoice.antt =====
-- `InvoiceError` of crates/invoice-errors/src/lib.rs, in the order of its discriminants.
pub data InvoiceError : Type 0 where
  unauthorized contract_paused invalid_amount not_pending expired not_found : InvoiceError
  already_initialized zero_duration expiry_overflow not_paid not_released : InvoiceError
  amount_precision duplicate_nonce expiry_too_long metadata_mismatch no_pending_admin : InvoiceError
  invalid_payment_link_hash not_refund_requested token_mismatch batch_too_large : InvoiceError
  cooldown_active invoice_count_overflow hash_too_long payment_state_inconsistent : InvoiceError
  refund_transfer_failed refund_token_not_set refund_fee_too_high arithmetic_overflow : InvoiceError
  discount_exceeds_amount discount_deadline_after_expiry memo_too_long : InvoiceError
  refund_window_closed self_pay_not_allowed template_disabled invalid_late_fee : InvoiceError

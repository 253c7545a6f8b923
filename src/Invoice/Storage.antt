-- ===== src/Invoice/Storage.antt =====
-- The storage of the invoice contract: one field for each `DataKey` of
-- contracts/invoice/src/invoice.rs that the modelled entrypoints read or write. A key that is always
-- read with the same default holds that default while it is absent.
use comebackhere_contracts.Prelude.{ℕ, Bool, Option, List, Map}
use comebackhere_contracts.Prelude.Int.{ℤ}
use comebackhere_contracts.Invoice.Types.{Invoice, InvoiceTemplate, StatusTransition, NetRefund}

-- The published events, with the id and the record from which their data are taken.
pub data Event : Type 0 where
  invoice_created invoice_paid escrow_released invoice_cancelled : ℕ → Invoice → Event
  invoice_expired invoice_refund_requested refund_approved refund_rejected : ℕ → Invoice → Event
  -- id, old and new amount, old and new gross amount
  invoice_amended : ℕ → ℤ → ℤ → ℤ → ℤ → Event
  -- id, payer, breakdown
  refund_processed : ℕ → ℕ → NetRefund → Event
  -- id, from, to
  invoice_transferred : ℕ → ℕ → ℕ → Event
  -- id, old and new expiry
  invoice_expiry_extended : ℕ → ℕ → ℕ → Event
  -- old and new value
  grace_window_updated : ℕ → ℕ → Event
  refund_network_fee_updated : ℤ → ℤ → Event
  template_created : ℕ → InvoiceTemplate → Event
  template_activated : ℕ → Bool → Event
  -- template, invoice
  template_generated : ℕ → ℕ → Event
  -- administrator
  contract_paused contract_unpaused : ℕ → Event

-- `L` is the state of the token contracts.
pub record State (L : Type 0) : Type 0 where
  pub invoice : Map Invoice
  pub invoice_count : ℕ
  pub admin : Option ℕ
  pub pending_admin : Option ℕ
  pub paused : Bool
  pub grace_window : ℕ
  -- merchant, nonce
  pub merchant_nonce : ℕ → ℕ → Bool
  pub merchant_invoice_count : ℕ → ℕ
  -- merchant, position
  pub merchant_invoice_index : ℕ → Map ℕ
  pub invoice_history : ℕ → List StatusTransition
  pub pending_index : List ℕ
  pub refund_breakdown : Map NetRefund
  pub refund_network_fee : ℤ
  pub refund_window : ℕ
  pub refund_requested_at : Map ℕ
  pub payer_index_count : ℕ → ℕ
  -- payer, position
  pub payer_index_entry : ℕ → Map ℕ
  pub template : Map InvoiceTemplate
  pub template_count : ℕ
  pub merchant_templates : ℕ → List ℕ
  pub ledger : L
  -- what was published, the newest event first
  pub events : List Event

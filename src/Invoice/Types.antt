-- ===== src/Invoice/Types.antt =====
-- The types of contracts/invoice/src/invoice.rs, refund.rs and template.rs. Bytes are lists of numbers.
use comebackhere_contracts.Prelude.{ℕ, Bool, true, false, ◌&&◌, Option, List, [], ◌∷◌, ◌==◌}
use comebackhere_contracts.Prelude.Int.{ℤ}

pub data InvoiceStatus : Type 0 where
  pending paid expired cancelled refund_requested released refunded : InvoiceStatus

pub data MaybeAddress : Type 0 where
  none : MaybeAddress
  some : ℕ → MaybeAddress

pub data MaybeBytes : Type 0 where
  none : MaybeBytes
  some : List ℕ → MaybeBytes

pub record Invoice : Type 0 where
  pub id : ℕ
  pub merchant : ℕ
  pub amount_usdc : ℤ
  pub gross_usdc : ℤ
  pub status : InvoiceStatus
  pub expires_at : ℕ
  pub paid_at : Option ℕ
  pub payer : MaybeAddress
  pub metadata_hash : MaybeBytes
  pub payment_link_hash : MaybeBytes
  pub merchant_nonce : ℕ
  pub token_address : MaybeAddress

-- one entry of `batch_create_invoice`
pub record BatchInvoiceParams : Type 0 where
  pub amount_usdc : ℤ
  pub gross_usdc : ℤ
  pub expires_in_seconds : ℕ
  pub metadata_hash : MaybeBytes
  pub payment_link_hash : MaybeBytes
  pub merchant_nonce : ℕ
  pub token_address : MaybeAddress

pub data RecurrenceInterval : Type 0 where
  daily weekly monthly : RecurrenceInterval

-- the length of a period in seconds
unfoldable pub period_seconds : RecurrenceInterval → ℕ
period_seconds RecurrenceInterval.daily = 86400
period_seconds RecurrenceInterval.weekly = 604800
period_seconds RecurrenceInterval.monthly = 2592000

pub record InvoiceTemplate : Type 0 where
  pub id : ℕ
  pub merchant : ℕ
  pub amount_usdc : ℤ
  pub gross_usdc : ℤ
  pub interval : RecurrenceInterval
  pub expires_in_seconds : ℕ
  pub metadata_hash : MaybeBytes
  pub payment_link_hash : MaybeBytes
  pub active : Bool
  pub next_run_at : ℕ

pub record StatusTransition : Type 0 where
  pub from : InvoiceStatus
  pub to : InvoiceStatus
  pub timestamp : ℕ

pub record NetRefund : Type 0 where
  pub gross_amount : ℤ
  pub processing_fee : ℤ
  pub network_fee : ℤ
  pub net_amount : ℤ

unfoldable pub is_terminal : InvoiceStatus → Bool
is_terminal InvoiceStatus.pending = false
is_terminal InvoiceStatus.paid = false
is_terminal InvoiceStatus.expired = true
is_terminal InvoiceStatus.cancelled = true
is_terminal InvoiceStatus.refund_requested = false
is_terminal InvoiceStatus.released = true
is_terminal InvoiceStatus.refunded = true

-- `==` on a status, for the statuses that the contract compares with
abbrev pub is_pending : InvoiceStatus → Bool
is_pending InvoiceStatus.pending = true
is_pending _ = false

abbrev pub is_paid : InvoiceStatus → Bool
is_paid InvoiceStatus.paid = true
is_paid _ = false

abbrev pub is_refund_requested : InvoiceStatus → Bool
is_refund_requested InvoiceStatus.refund_requested = true
is_refund_requested _ = false

-- `== MaybeAddress::Some(a)`
abbrev pub is_address : MaybeAddress → ℕ → Bool
is_address MaybeAddress.none a = false
is_address (MaybeAddress.some b) a = b == a

abbrev pub same_bytes : List ℕ → List ℕ → Bool
same_bytes [] [] = true
same_bytes (a ∷ rest) (b ∷ others) = a == b && same_bytes rest others
same_bytes _ _ = false

-- the derived equality
abbrev pub same_hash : MaybeBytes → MaybeBytes → Bool
same_hash MaybeBytes.none MaybeBytes.none = true
same_hash (MaybeBytes.some a) (MaybeBytes.some b) = same_bytes a b
same_hash _ _ = false

-- ===== src/Invoice/Machine/Keeping.antt =====
-- What one call does to a stored invoice: one step of its life, or nothing, and a record that
-- describes a possible payment (contracts/invoice/src/entrypoints).
use comebackhere_contracts.Prelude.{
  ℕ, ◌+◌, ◌≡◌, ◌⊎◌, inl, inr, Bool, true, false, not, ◌&&◌, ◌||◌, Option, none, some, leb, ◌==◌,
  arith, Option-cases,
}
use comebackhere_contracts.Prelude.Int.{ℤ, pos, leb_ℤ, ltb_ℤ}
use comebackhere_contracts.Host.{Env, Ensures}
use comebackhere_contracts.Invoice.Types.{InvoiceStatus, MaybeAddress, MaybeBytes, Invoice}
use comebackhere_contracts.Invoice.Storage.{State}
use comebackhere_contracts.Invoice.Guards.{
  require_admin, require_not_paused, require_positive_amount, require_usdc_precision,
  require_expiry_not_too_long, require_payer_not_merchant, pending_index_remove, payer_index_add,
  append_history,
}
use comebackhere_contracts.Invoice.Refunds.{
  verify_payment_state, refund_recipient, calculate_net_refund_with_network_fee,
}
use comebackhere_contracts.Invoice.Lifecycle
use comebackhere_contracts.Invoice.Payouts

-- The steps of the documented life of an invoice; a pending one may be amended, and a paid one may
-- get another payer.
abbrev pub leads_to : InvoiceStatus → InvoiceStatus → Bool
leads_to InvoiceStatus.pending InvoiceStatus.pending = true
leads_to InvoiceStatus.pending InvoiceStatus.paid = true
leads_to InvoiceStatus.pending InvoiceStatus.expired = true
leads_to InvoiceStatus.pending InvoiceStatus.cancelled = true
leads_to InvoiceStatus.paid InvoiceStatus.paid = true
leads_to InvoiceStatus.paid InvoiceStatus.released = true
leads_to InvoiceStatus.paid InvoiceStatus.refund_requested = true
leads_to InvoiceStatus.refund_requested InvoiceStatus.paid = true
leads_to InvoiceStatus.refund_requested InvoiceStatus.refunded = true
leads_to _ _ = false

abbrev pub was_paid : InvoiceStatus → Bool
was_paid InvoiceStatus.paid = true
was_paid InvoiceStatus.refund_requested = true
was_paid InvoiceStatus.released = true
was_paid InvoiceStatus.refunded = true
was_paid _ = false

abbrev pub has_time : Option ℕ → Bool
has_time none = false
has_time (some t) = true

abbrev pub has_address : MaybeAddress → Bool
has_address MaybeAddress.none = false
has_address (MaybeAddress.some a) = true

-- The id is the key, the amounts are positive and in order, and a paid invoice has the time and the
-- address of its payment.
unfoldable pub is_consistent : ℕ → Invoice → Bool
is_consistent k a =
    a.id == k
    && ltb_ℤ (pos 0) a.amount_usdc
    && leb_ℤ a.amount_usdc a.gross_usdc
    && (not (was_paid a.status) || (has_time a.paid_at && has_address a.payer))

abbrev pub is_sound : ℕ → ℕ → Option Invoice → Bool
is_sound count k none = true
is_sound count k (some a) = leb k count && is_consistent k a

abbrev pub Follows : Option Invoice → Option Invoice → Type 0
Follows none o = Unit
Follows (some a) none = ⊥
Follows (some a) (some b) =
    (b ≡ a)
    ⊎ ((leads_to a.status b.status ≡ true)
        × (b.merchant ≡ a.merchant)
        × (b.token_address ≡ a.token_address))

abbrev pub Onward : {L : Type 0} → ℕ → State L → State L → Type 0
Onward k s t =
    Follows (s.invoice k) (t.invoice k) × (is_sound t.invoice_count k (t.invoice k) ≡ true)

module _ (k : ℕ) (a : Invoice) where
  paid-consistent :
      (now payer : ℕ)
      → is_consistent k a ≡ true
      → is_consistent k (record a {
        status = InvoiceStatus.paid;
        paid_at = some now;
        payer = MaybeAddress.some payer;
      })
        ≡ true
  unfolding is_consistent
  paid-consistent now payer h = ground arith

  pub unpaid-consistent :
      (status : InvoiceStatus)
      → is_consistent k a ≡ true
      → was_paid status ≡ false
      → is_consistent k (record a { status = status }) ≡ true
  unfolding is_consistent
  unpaid-consistent status h unpaid = ground arith

  pub later-consistent :
      (status : InvoiceStatus)
      → is_consistent k a ≡ true
      → was_paid a.status ≡ true
      → is_consistent k (record a { status = status }) ≡ true
  unfolding is_consistent
  later-consistent status h before = ground arith

  transferred-consistent :
      (payer : ℕ)
      → is_consistent k a ≡ true
      → is_consistent k (record a { payer = MaybeAddress.some payer }) ≡ true
  unfolding is_consistent
  transferred-consistent payer h = ground arith

  amended-consistent :
      (amount gross : ℤ) (expires_at : ℕ)
      → is_consistent k a ≡ true
      → leb_ℤ amount (pos 0) ≡ false
      → ltb_ℤ gross amount ≡ false
      → is_consistent k
          (record a { amount_usdc = amount; gross_usdc = gross; expires_at = expires_at })
        ≡ true
  unfolding is_consistent
  amended-consistent amount gross expires_at h positive ordered = ground arith

module _ {S : Type 0} (s : S) where
  pub require_positive_amount-Ensures :
      (amount gross : ℤ)
      → Ensures
          (λ _ t. (t ≡ s) × (leb_ℤ amount (pos 0) ≡ false) × (ltb_ℤ gross amount ≡ false))
          (require_positive_amount amount gross s)
  unfolding require_positive_amount
  require_positive_amount-Ensures amount gross = ground arith

  pub require_usdc_precision-Ensures :
      (amount gross : ℤ) → Ensures (λ _ t. t ≡ s) (require_usdc_precision amount gross s)
  unfolding require_usdc_precision
  require_usdc_precision-Ensures amount gross = ground arith

  pub verify_payment_state-Ensures :
      (a : Invoice) → Ensures (λ _ t. t ≡ s) (verify_payment_state a s)
  unfolding verify_payment_state
  verify_payment_state-Ensures a = ground arith

  pub refund_recipient-Ensures : (a : Invoice) → Ensures (λ _ t. t ≡ s) (refund_recipient a s)
  unfolding refund_recipient
  refund_recipient-Ensures a = ground arith

  pub net_refund-Ensures :
      (amount : ℤ) (bps : ℕ) (network : ℤ)
      → Ensures (λ _ t. t ≡ s) (calculate_net_refund_with_network_fee amount bps network s)
  unfolding calculate_net_refund_with_network_fee
  net_refund-Ensures amount bps network = ground arith

module _ {L : Type 0} (e : Env L) (k : ℕ) (s : State L)
    (h : is_sound s.invoice_count k (s.invoice k) ≡ true) where
  pub mark_paid-Onward :
      (admin id payer : ℕ) (metadata : MaybeBytes) (token : MaybeAddress)
      → Ensures (λ _ t. Onward k s t) (Lifecycle.mark_paid e admin id payer metadata token s)
  unfolding Lifecycle.mark_paid require_admin require_not_paused require_payer_not_merchant
      pending_index_remove payer_index_add append_history
  mark_paid-Onward admin id payer metadata token = elim (Option-cases (s.invoice id)) [
    | inl x ↦ ground (arith, x)
    | inr (a, x) ↦ ground (arith, h, x, paid-consistent k a e.now payer)
  ]

  pub release_escrow-Onward :
      (admin id : ℕ) → Ensures (λ _ t. Onward k s t) (Lifecycle.release_escrow e admin id s)
  unfolding Lifecycle.release_escrow require_admin require_not_paused append_history
  release_escrow-Onward admin id = elim (Option-cases (s.invoice id)) [
    | inl x ↦ ground (arith, x)
    | inr (a, x) ↦ ground (arith, h, x, later-consistent k a InvoiceStatus.released)
  ]

  pub cancel_invoice-Onward :
      (caller id : ℕ) → Ensures (λ _ t. Onward k s t) (Lifecycle.cancel_invoice e caller id s)
  unfolding Lifecycle.cancel_invoice require_not_paused pending_index_remove append_history
  cancel_invoice-Onward caller id = elim (Option-cases (s.invoice id)) [
    | inl x ↦ ground (arith, x)
    | inr (a, x) ↦ ground (arith, h, x, unpaid-consistent k a InvoiceStatus.cancelled)
  ]

  pub amend_invoice-Onward :
      (merchant id : ℕ) (amount gross : ℤ) (seconds : ℕ)
      → Ensures (λ _ t. Onward k s t) (Lifecycle.amend_invoice e merchant id amount gross seconds s)
  unfolding Lifecycle.amend_invoice require_not_paused require_expiry_not_too_long
  amend_invoice-Onward merchant id amount gross seconds = elim (Option-cases (s.invoice id)) [
    | inl x ↦ ground (
      arith,
      x,
      require_positive_amount-Ensures s amount gross,
      require_usdc_precision-Ensures s amount gross,
    )
    | inr (a, x) ↦ ground (
      arith,
      h,
      x,
      require_positive_amount-Ensures s amount gross,
      require_usdc_precision-Ensures s amount gross,
      amended-consistent k a amount gross (e.now + seconds),
    )
  ]

  pub transfer_invoice-Onward :
      (from id to : ℕ) → Ensures (λ _ t. Onward k s t) (Lifecycle.transfer_invoice e from id to s)
  unfolding Lifecycle.transfer_invoice require_not_paused
  transfer_invoice-Onward from id to = elim (Option-cases (s.invoice id)) [
    | inl x ↦ ground (arith, x)
    | inr (a, x) ↦ ground (arith, h, x, transferred-consistent k a to)
  ]

  pub request_refund-Onward :
      (payer id : ℕ) → Ensures (λ _ t. Onward k s t) (Payouts.request_refund e payer id s)
  unfolding Payouts.request_refund require_not_paused append_history
  request_refund-Onward payer id = elim (Option-cases (s.invoice id)) [
    | inl x ↦ ground (arith, x)
    | inr (a, x) ↦ ground (arith, h, x, later-consistent k a InvoiceStatus.refund_requested)
  ]

  pub approve_refund-Onward :
      (admin id : ℕ) → Ensures (λ _ t. Onward k s t) (Payouts.approve_refund e admin id s)
  unfolding Payouts.approve_refund require_admin require_not_paused append_history
  approve_refund-Onward admin id = elim (Option-cases (s.invoice id)) [
    | inl x ↦ ground (arith, x)
    | inr (a, x) ↦
        ground (
          arith,
          h,
          x,
          later-consistent k a InvoiceStatus.refunded,
          verify_payment_state-Ensures s a,
        )
  ]

  pub reject_refund-Onward :
      (admin id : ℕ) → Ensures (λ _ t. Onward k s t) (Payouts.reject_refund e admin id s)
  unfolding Payouts.reject_refund require_admin require_not_paused append_history
  reject_refund-Onward admin id = elim (Option-cases (s.invoice id)) [
    | inl x ↦ ground (arith, x)
    | inr (a, x) ↦
        ground
          (arith, h, x, later-consistent k a InvoiceStatus.paid, verify_payment_state-Ensures s a)
  ]

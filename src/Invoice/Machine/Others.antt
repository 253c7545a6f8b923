-- ===== src/Invoice/Machine/Others.antt =====
-- What creating an invoice, paying a refund out and expiring many invoices do to a stored invoice
-- (contracts/invoice/src/entrypoints).
use comebackhere_contracts.Prelude.{
  ℕ, ◌≡◌, ◌⊎◌, inl, inr, refl, true, false, Option, none, some, List, [], ◌∷◌, arith, Option-cases,
  ◌∙◌,
}
use comebackhere_contracts.Prelude.Int.{ℤ, pos, leb_ℤ, ltb_ℤ}
use comebackhere_contracts.Host.{Env, Ensures}
use comebackhere_contracts.Invoice.Types.{
  InvoiceStatus, MaybeAddress, MaybeBytes, Invoice, is_pending,
}
use comebackhere_contracts.Invoice.Storage.{State}
use comebackhere_contracts.Invoice.Guards.{
  require_admin, require_not_paused, require_expiry_not_too_long, require_hash_not_too_long,
  require_valid_payment_link_hash, pending_index_add, pending_index_remove, append_history,
}
use comebackhere_contracts.Invoice.Refunds.{transfer_net_refund}
use comebackhere_contracts.Invoice.Lifecycle
use comebackhere_contracts.Invoice.Lifecycle.{use_nonce, merchant_index_add}
use comebackhere_contracts.Invoice.Payouts
use comebackhere_contracts.Invoice.Batches
use comebackhere_contracts.Invoice.Machine.Keeping.{
  is_consistent, is_sound, Follows, Onward, unpaid-consistent, later-consistent,
  require_positive_amount-Ensures, require_usdc_precision-Ensures, verify_payment_state-Ensures,
  refund_recipient-Ensures, net_refund-Ensures,
}

module _ {L : Type 0} (e : Env L) (k : ℕ) (s : State L)
    (h : is_sound s.invoice_count k (s.invoice k) ≡ true) where
  pub create_invoice_record-Onward :
      (merchant : ℕ) (amount gross : ℤ) (seconds : ℕ) (metadata link : MaybeBytes) (nonce : ℕ)
      (token : MaybeAddress)
      → leb_ℤ amount (pos 0) ≡ false
      → ltb_ℤ gross amount ≡ false
      → Ensures
          (λ _ t. Onward k s t)
          (Lifecycle.create_invoice_record e merchant amount gross seconds metadata link nonce token
            s)
  unfolding Lifecycle.create_invoice_record use_nonce merchant_index_add pending_index_add
      is_consistent
  create_invoice_record-Onward merchant amount gross seconds metadata link nonce token positive
        ordered =
      ground (arith, h)

  pub process_refund-Onward :
      (admin id fee_bps : ℕ)
      → Ensures (λ _ t. Onward k s t) (Payouts.process_refund e admin id fee_bps s)
  unfolding Payouts.process_refund require_admin require_not_paused append_history
      transfer_net_refund
  process_refund-Onward admin id fee_bps = elim (Option-cases (s.invoice id)) [
    | inl x ↦ ground (arith, x)
    | inr (a, x) ↦ ground (
      arith,
      h,
      x,
      later-consistent k a InvoiceStatus.refunded,
      verify_payment_state-Ensures s a,
      refund_recipient-Ensures s a,
      net_refund-Ensures s a.amount_usdc fee_bps s.refund_network_fee,
    )
  ]

-- No change, or the end of a pending invoice.
abbrev pub Ended : InvoiceStatus → Option Invoice → Option Invoice → Type 0
Ended status none o = o ≡ none
Ended status (some a) none = ⊥
Ended status (some a) (some b) =
    (b ≡ a) ⊎ ((is_pending a.status ≡ true) × (b ≡ record a { status = status }))

pub Ended-refl : (status : InvoiceStatus) (o : Option Invoice) → Ended status o o
Ended-refl status none = refl
Ended-refl status (some a) = inl refl

module _ {L : Type 0} (e : Env L) (k : ℕ) where
  expire_due-Ended :
      (id count : ℕ) (s : State L)
      → let r = Batches.expire_due e id (s.invoice id) (count, s) in
        Ended InvoiceStatus.expired (s.invoice k) (r.1.invoice k)
        × (r.1.invoice_count ≡ s.invoice_count)
  unfolding Batches.expire_due Batches.expire_found pending_index_remove append_history
  expire_due-Ended id count s = elim (Option-cases (s.invoice id)) [
    | inl x ↦ ground (arith, x, Ended-refl InvoiceStatus.expired (s.invoice k))
    | inr (a, x) ↦ ground (arith, x, Ended-refl InvoiceStatus.expired (s.invoice k))
  ]

  Ended-trans :
      (o p q : Option Invoice)
      → Ended InvoiceStatus.expired o p
      → Ended InvoiceStatus.expired p q
      → Ended InvoiceStatus.expired o q
  Ended-trans none p q f g = ground (arith, f, g)
  Ended-trans (some a) none q f g = absurd f
  Ended-trans (some a) (some b) none f g = absurd g
  Ended-trans (some a) (some b) (some c) f g = ground (arith, f, g)

  expire_each-Ended :
      (ids : List ℕ) (count : ℕ) (s : State L)
      → let r = Batches.expire_each e ids count s in
        Ended InvoiceStatus.expired (s.invoice k) (r.1.invoice k)
        × (r.1.invoice_count ≡ s.invoice_count)
  unfolding Batches.expire_each
  expire_each-Ended [] count s = (Ended-refl InvoiceStatus.expired (s.invoice k), refl)
  expire_each-Ended (id ∷ rest) count s =
      let r = Batches.expire_due e id (s.invoice id) (count, s) in
      let first = expire_due-Ended id count s in
      let later = expire_each-Ended rest r.0 r.1 in
      (Ended-trans (s.invoice k) (r.1.invoice k) _ first.0 later.0, later.1 ∙ first.1)

  Ended-Onward :
      (n : ℕ) (o p : Option Invoice)
      → is_sound n k o ≡ true
      → Ended InvoiceStatus.expired o p
      → Follows o p × (is_sound n k p ≡ true)
  Ended-Onward n none p h f = ground (arith, f)
  Ended-Onward n (some a) none h f = absurd f
  Ended-Onward n (some a) (some b) h f =
      ground (arith, h, f, unpaid-consistent k a InvoiceStatus.expired)

module _ {L : Type 0} (e : Env L) (k : ℕ) (s : State L)
    (h : is_sound s.invoice_count k (s.invoice k) ≡ true) where
  pub batch_expire-Onward :
      (admin : ℕ) (ids : List ℕ)
      → Ensures (λ _ t. Onward k s t) (Batches.batch_expire e admin ids s)
  unfolding Batches.batch_expire require_admin require_not_paused
  batch_expire-Onward admin ids = ground (
    arith,
    expire_each-Ended e k ids 0 s,
    Ended-Onward e k s.invoice_count (s.invoice k) ((Batches.expire_each e ids 0 s).1.invoice k) h,
  )

  pub create_invoice-Onward :
      (merchant : ℕ) (amount gross : ℤ) (seconds : ℕ) (metadata link : MaybeBytes) (nonce : ℕ)
      (token : MaybeAddress)
      → Ensures
          (λ _ t. Onward k s t)
          (Lifecycle.create_invoice e merchant amount gross seconds metadata link nonce token s)
  unfolding Lifecycle.create_invoice require_not_paused require_expiry_not_too_long
      require_hash_not_too_long require_valid_payment_link_hash
  create_invoice-Onward merchant amount gross seconds metadata link nonce token = ground (
    arith,
    require_positive_amount-Ensures s amount gross,
    require_usdc_precision-Ensures s amount gross,
    create_invoice_record-Onward e k s h merchant amount gross seconds metadata link nonce token,
  )

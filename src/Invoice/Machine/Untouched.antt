-- ===== src/Invoice/Machine/Untouched.antt =====
-- The entrypoints of contracts/invoice/src/entrypoints that are not about templates leave every
-- template as it was.
use comebackhere_contracts.Prelude.{
  ℕ, ◌≡◌, refl, List, [], ◌∷◌, push_back, arith, Option-cases, inl, inr, ◌∙◌,
}
use comebackhere_contracts.Prelude.Int.{ℤ}
use comebackhere_contracts.Host.{Env, Ensures, Ensures-bind, Ensures-map}
use comebackhere_contracts.Invoice.Types.{MaybeAddress, MaybeBytes, Invoice, BatchInvoiceParams}
use comebackhere_contracts.Invoice.Storage.{State}
use comebackhere_contracts.Invoice.Guards.{
  require_admin, require_not_paused, require_expiry_not_too_long, require_hash_not_too_long,
  require_valid_payment_link_hash, require_payer_not_merchant, pending_index_add,
  pending_index_remove, payer_index_add, append_history,
}
use comebackhere_contracts.Invoice.Refunds.{transfer_net_refund}
use comebackhere_contracts.Invoice.Lifecycle
use comebackhere_contracts.Invoice.Lifecycle.{use_nonce, merchant_index_add}
use comebackhere_contracts.Invoice.Payouts
use comebackhere_contracts.Invoice.Batches
use comebackhere_contracts.Invoice.Creating
use comebackhere_contracts.Invoice.Admin
use comebackhere_contracts.Invoice.Machine.Keeping.{
  require_positive_amount-Ensures, require_usdc_precision-Ensures, verify_payment_state-Ensures,
  refund_recipient-Ensures, net_refund-Ensures,
}
use comebackhere_contracts.Invoice.Machine.Creation.{check_each-Ensures}
use comebackhere_contracts.Invoice.Machine.Cancelling.{collect_each-same}

-- The same templates are stored.
abbrev pub Untouched : {L A : Type 0} → State L → A → State L → Type 0
Untouched s a t = t.template ≡ s.template

module _ {L : Type 0} (e : Env L) (s : State L) where
  pub create_invoice_record-Untouched :
      (merchant : ℕ) (amount gross : ℤ) (seconds : ℕ) (metadata link : MaybeBytes) (nonce : ℕ)
      (token : MaybeAddress)
      → Ensures (Untouched s) (
          Lifecycle.create_invoice_record e merchant amount gross seconds metadata link nonce token
            s)
  unfolding Lifecycle.create_invoice_record use_nonce merchant_index_add pending_index_add
  create_invoice_record-Untouched merchant amount gross seconds metadata link nonce token =
      ground (arith)

  pub create_invoice-Untouched :
      (merchant : ℕ) (amount gross : ℤ) (seconds : ℕ) (metadata link : MaybeBytes) (nonce : ℕ)
      (token : MaybeAddress)
      → Ensures
          (Untouched s)
          (Lifecycle.create_invoice e merchant amount gross seconds metadata link nonce token s)
  unfolding Lifecycle.create_invoice require_not_paused require_expiry_not_too_long
      require_hash_not_too_long require_valid_payment_link_hash
  create_invoice-Untouched merchant amount gross seconds metadata link nonce token = ground (
    arith,
    require_positive_amount-Ensures s amount gross,
    require_usdc_precision-Ensures s amount gross,
    create_invoice_record-Untouched merchant amount gross seconds metadata link nonce token,
  )

  pub mark_paid-Untouched :
      (admin id payer : ℕ) (metadata : MaybeBytes) (token : MaybeAddress)
      → Ensures (Untouched s) (Lifecycle.mark_paid e admin id payer metadata token s)
  unfolding Lifecycle.mark_paid require_admin require_not_paused require_payer_not_merchant
      pending_index_remove payer_index_add append_history
  mark_paid-Untouched admin id payer metadata token = elim (Option-cases (s.invoice id)) [
    | inl x ↦ ground (arith, x)
    | inr (a, x) ↦ ground (arith, x)
  ]

  pub release_escrow-Untouched :
      (admin id : ℕ) → Ensures (Untouched s) (Lifecycle.release_escrow e admin id s)
  unfolding Lifecycle.release_escrow require_admin require_not_paused append_history
  release_escrow-Untouched admin id = elim (Option-cases (s.invoice id)) [
    | inl x ↦ ground (arith, x)
    | inr (a, x) ↦ ground (arith, x)
  ]

  pub cancel_invoice-Untouched :
      (caller id : ℕ) → Ensures (Untouched s) (Lifecycle.cancel_invoice e caller id s)
  unfolding Lifecycle.cancel_invoice require_not_paused pending_index_remove append_history
  cancel_invoice-Untouched caller id = elim (Option-cases (s.invoice id)) [
    | inl x ↦ ground (arith, x)
    | inr (a, x) ↦ ground (arith, x)
  ]

  pub amend_invoice-Untouched :
      (merchant id : ℕ) (amount gross : ℤ) (seconds : ℕ)
      → Ensures (Untouched s) (Lifecycle.amend_invoice e merchant id amount gross seconds s)
  unfolding Lifecycle.amend_invoice require_not_paused require_expiry_not_too_long
  amend_invoice-Untouched merchant id amount gross seconds = elim (Option-cases (s.invoice id)) [
    | inl x ↦ ground (
      arith,
      x,
      require_positive_amount-Ensures s amount gross,
      require_usdc_precision-Ensures s amount gross,
    )
    | inr (a, x) ↦ ground (
      arith,
      x,
      require_positive_amount-Ensures s amount gross,
      require_usdc_precision-Ensures s amount gross,
    )
  ]

  pub transfer_invoice-Untouched :
      (from id to : ℕ) → Ensures (Untouched s) (Lifecycle.transfer_invoice e from id to s)
  unfolding Lifecycle.transfer_invoice require_not_paused
  transfer_invoice-Untouched from id to = elim (Option-cases (s.invoice id)) [
    | inl x ↦ ground (arith, x)
    | inr (a, x) ↦ ground (arith, x)
  ]

  pub request_refund-Untouched :
      (payer id : ℕ) → Ensures (Untouched s) (Payouts.request_refund e payer id s)
  unfolding Payouts.request_refund require_not_paused append_history
  request_refund-Untouched payer id = elim (Option-cases (s.invoice id)) [
    | inl x ↦ ground (arith, x)
    | inr (a, x) ↦ ground (arith, x)
  ]

  pub approve_refund-Untouched :
      (admin id : ℕ) → Ensures (Untouched s) (Payouts.approve_refund e admin id s)
  unfolding Payouts.approve_refund require_admin require_not_paused append_history
  approve_refund-Untouched admin id = elim (Option-cases (s.invoice id)) [
    | inl x ↦ ground (arith, x)
    | inr (a, x) ↦ ground (arith, x, verify_payment_state-Ensures s a)
  ]

  pub reject_refund-Untouched :
      (admin id : ℕ) → Ensures (Untouched s) (Payouts.reject_refund e admin id s)
  unfolding Payouts.reject_refund require_admin require_not_paused append_history
  reject_refund-Untouched admin id = elim (Option-cases (s.invoice id)) [
    | inl x ↦ ground (arith, x)
    | inr (a, x) ↦ ground (arith, x, verify_payment_state-Ensures s a)
  ]

  pub process_refund-Untouched :
      (admin id fee_bps : ℕ) → Ensures (Untouched s) (Payouts.process_refund e admin id fee_bps s)
  unfolding Payouts.process_refund require_admin require_not_paused append_history
      transfer_net_refund
  process_refund-Untouched admin id fee_bps = elim (Option-cases (s.invoice id)) [
    | inl x ↦ ground (arith, x)
    | inr (a, x) ↦ ground (
      arith,
      x,
      verify_payment_state-Ensures s a,
      refund_recipient-Ensures s a,
      net_refund-Ensures s a.amount_usdc fee_bps s.refund_network_fee,
    )
  ]

  pub set_grace_window-Untouched :
      (admin seconds : ℕ) → Ensures (Untouched s) (Admin.set_grace_window e admin seconds s)
  unfolding Admin.set_grace_window require_admin
  set_grace_window-Untouched admin seconds = ground (arith)

  pub set_refund_window-Untouched :
      (admin seconds : ℕ) → Ensures (Untouched s) (Admin.set_refund_window e admin seconds s)
  unfolding Admin.set_refund_window require_admin
  set_refund_window-Untouched admin seconds = ground (arith)

  pub set_refund_network_fee-Untouched :
      (admin : ℕ) (fee : ℤ) → Ensures (Untouched s) (Admin.set_refund_network_fee e admin fee s)
  unfolding Admin.set_refund_network_fee require_admin
  set_refund_network_fee-Untouched admin fee = ground (arith)

  pub transfer_admin-Untouched :
      (admin new_admin : ℕ) → Ensures (Untouched s) (Admin.transfer_admin e admin new_admin s)
  unfolding Admin.transfer_admin require_admin
  transfer_admin-Untouched admin new_admin = ground (arith)

  pub pause-Untouched : (admin : ℕ) → Ensures (Untouched s) (Admin.pause e admin s)
  unfolding Admin.pause require_admin
  pause-Untouched admin = ground (arith)

  pub unpause-Untouched : (admin : ℕ) → Ensures (Untouched s) (Admin.unpause e admin s)
  unfolding Admin.unpause require_admin
  unpause-Untouched admin = ground (arith)

  pub accept_admin-Untouched :
      (new_admin : ℕ) → Ensures (Untouched s) (Admin.accept_admin e new_admin s)
  unfolding Admin.accept_admin
  accept_admin-Untouched new_admin = ground (arith)

  pub extend_expiry-Untouched :
      (admin id additional : ℕ)
      → Ensures (Untouched s) (Admin.extend_expiry e admin id additional s)
  unfolding Admin.extend_expiry require_admin
  extend_expiry-Untouched admin id additional = elim (Option-cases (s.invoice id)) [
    | inl x ↦ ground (arith, x)
    | inr (a, x) ↦ ground (arith, x)
  ]

module _ {L : Type 0} (e : Env L) where
  expire_due-template :
      (id count : ℕ) (s : State L)
      → (Batches.expire_due e id (s.invoice id) (count, s)).1.template ≡ s.template
  unfolding Batches.expire_due Batches.expire_found pending_index_remove append_history
  expire_due-template id count s = elim (Option-cases (s.invoice id)) [
    | inl x ↦ ground (arith, x)
    | inr (a, x) ↦ ground (arith, x)
  ]

  expire_each-template :
      (ids : List ℕ) (count : ℕ) (s : State L)
      → (Batches.expire_each e ids count s).1.template ≡ s.template
  unfolding Batches.expire_each
  expire_each-template [] count s = refl
  expire_each-template (id ∷ rest) count s =
      let r = Batches.expire_due e id (s.invoice id) (count, s) in
      expire_each-template rest r.0 r.1 ∙ expire_due-template id count s

  cancel_each-template :
      (read : List Invoice) (s : State L) → (Batches.cancel_each e read s).template ≡ s.template
  unfolding Batches.cancel_each Batches.cancel_found pending_index_remove append_history
  cancel_each-template [] s = refl
  cancel_each-template (a ∷ rest) s = cancel_each-template rest (Batches.cancel_found e a s)

  create_one-Untouched :
      (merchant : ℕ) (p : BatchInvoiceParams) (s : State L)
      → Ensures (Untouched s) (Creating.create_one e merchant p s)
  unfolding Creating.create_one use_nonce merchant_index_add pending_index_add
  create_one-Untouched merchant p s = ground arith

  create_each-Untouched :
      (merchant : ℕ) (params : List BatchInvoiceParams) (ids : List ℕ) (s : State L)
      → Ensures (Untouched s) (Creating.create_each e merchant params ids s)
  unfolding Creating.create_each
  create_each-Untouched merchant [] ids s = refl
  create_each-Untouched merchant (p ∷ rest) ids s =
      Ensures-bind (Untouched s) (Untouched s) (Creating.create_one e merchant p s)
        (λ id. Creating.create_each e merchant rest (push_back ids id))
        (create_one-Untouched merchant p s)
        (λ id t h.
          Ensures-map (Untouched t) (Untouched s)
            (Creating.create_each e merchant rest (push_back ids id) t) (λ all v g. g ∙ h)
            (create_each-Untouched merchant rest (push_back ids id) t))

module _ {L : Type 0} (e : Env L) (s : State L) where
  pub batch_expire-Untouched :
      (admin : ℕ) (ids : List ℕ) → Ensures (Untouched s) (Batches.batch_expire e admin ids s)
  unfolding Batches.batch_expire require_admin require_not_paused
  batch_expire-Untouched admin ids = ground (arith, expire_each-template e ids 0 s)

  pub batch_cancel_invoices-Untouched :
      (merchant : ℕ) (ids : List ℕ) (reason : MaybeBytes)
      → Ensures (Untouched s) (Batches.batch_cancel_invoices e merchant ids reason s)
  unfolding Batches.batch_cancel_invoices require_not_paused
  batch_cancel_invoices-Untouched merchant ids reason = ground (
    arith,
    Ensures-map (λ _ t. t ≡ s) (λ all t. (Batches.cancel_each e all t).template ≡ s.template)
        (Batches.collect_each e merchant ids [] s)
        (λ all t same. ground (arith, same, cancel_each-template e all s))
        (collect_each-same e s merchant ids []),
  )

  pub batch_create_invoice-Untouched :
      (merchant : ℕ) (params : List BatchInvoiceParams)
      → Ensures (Untouched s) (Creating.batch_create_invoice e merchant params s)
  unfolding Creating.batch_create_invoice require_not_paused
  batch_create_invoice-Untouched merchant params = ground (
    arith,
    check_each-Ensures e s merchant params [],
    create_each-Untouched e merchant params [] s,
  )

-- ===== src/Invoice/Machine/Generating.antt =====
-- What the entrypoints of the templates do to a stored invoice
-- (contracts/invoice/src/entrypoints/template.rs). A template is stored with amounts of which an
-- invoice can be made, which no entrypoint changes.
use comebackhere_contracts.Prelude.{
  ℕ, ◌≡◌, ◌≤◌, ◌∙◌, inl, inr, refl, Bool, true, Option, none, some, List, [], ◌∷◌, arith,
  Option-cases,
}
use comebackhere_contracts.Prelude.Int.{ℤ}
use comebackhere_contracts.Host.{Env, Ensures, Ensures-map, Ensures-bind, Ensures-both, Ensures-all}
use comebackhere_contracts.Invoice.Types.{
  Invoice, InvoiceTemplate, RecurrenceInterval, MaybeAddress, MaybeBytes,
}
use comebackhere_contracts.Invoice.Storage.{State}
use comebackhere_contracts.Invoice.Guards.{
  require_not_paused, require_expiry_not_too_long, require_hash_not_too_long,
  require_valid_payment_link_hash, pending_index_add,
}
use comebackhere_contracts.Invoice.Lifecycle.{use_nonce, merchant_index_add, create_invoice_record}
use comebackhere_contracts.Invoice.Templates.{
  create_template, set_template_active, create_from, generate_from_template, reschedule,
  generate_found, generate_each, generate_due_invoices,
}
use comebackhere_contracts.Invoice.Machine.Keeping.{
  is_consistent, is_sound, Onward, require_positive_amount-Ensures, require_usdc_precision-Ensures,
}
use comebackhere_contracts.Invoice.Machine.Creation.{
  is_positive, Grew, Grew-Follows, Grew-trans, old-Grew,
}
use comebackhere_contracts.Invoice.Machine.Untouched.{create_invoice_record-Untouched}

abbrev pub is_usable : Option InvoiceTemplate → Bool
is_usable none = true
is_usable (some a) = is_positive a.amount_usdc a.gross_usdc

-- The template under one key can be used, and the invoice under one key is at most new.
abbrev Kept : {L A : Type 0} → ℕ → ℕ → Option Invoice → A → State L → Type 0
Kept j k o a t = (is_usable (t.template j) ≡ true) × Grew k o t

module _ {L : Type 0} (e : Env L) (j : ℕ) (s : State L) (h : is_usable (s.template j) ≡ true) where
  pub create_template-is_usable :
      (merchant : ℕ) (amount gross : ℤ) (interval : RecurrenceInterval) (seconds : ℕ)
      (metadata link : MaybeBytes)
      → Ensures
          (λ _ t.
            (is_usable (t.template j) ≡ true)
            × (t.invoice ≡ s.invoice)
            × (t.invoice_count ≡ s.invoice_count))
          (create_template e merchant amount gross interval seconds metadata link s)
  unfolding create_template require_not_paused require_expiry_not_too_long require_hash_not_too_long
      require_valid_payment_link_hash
  create_template-is_usable merchant amount gross interval seconds metadata link = ground (
    arith,
    h,
    require_positive_amount-Ensures s amount gross,
    require_usdc_precision-Ensures s amount gross,
  )

  pub set_template_active-is_usable :
      (caller id : ℕ) (active : Bool)
      → Ensures
          (λ _ t.
            (is_usable (t.template j) ≡ true)
            × (t.invoice ≡ s.invoice)
            × (t.invoice_count ≡ s.invoice_count))
          (set_template_active e caller id active s)
  unfolding set_template_active
  set_template_active-is_usable caller id active = elim (Option-cases (s.template id)) [
    | inl x ↦ ground (arith, x, h)
    | inr (a, x) ↦ ground (arith, x, h)
  ]

module _ {L : Type 0} (e : Env L) (k : ℕ) where
  create_from-new :
      (a : InvoiceTemplate) (s : State L)
      → is_usable (some a) ≡ true
      → s.invoice k ≡ none
      → Ensures (λ _ t. Grew k none t) (create_from e a s)
  unfolding create_invoice_record use_nonce merchant_index_add pending_index_add is_consistent
  create_from-new a s positive empty = ground (arith, positive, empty)

  create_from-old :
      (a : InvoiceTemplate) (s : State L)
      → k ≤ s.invoice_count
      → Ensures
          (λ _ t. (t.invoice k ≡ s.invoice k) × (s.invoice_count ≤ t.invoice_count))
          (create_from e a s)
  unfolding create_invoice_record use_nonce merchant_index_add pending_index_add
  create_from-old a s known = ground arith

  create_from-Grew :
      (a : InvoiceTemplate) (s : State L) (o : Option Invoice)
      → is_usable (some a) ≡ true
      → s.invoice k ≡ o
      → is_sound s.invoice_count k o ≡ true
      → Ensures (λ _ t. Grew k o t) (create_from e a s)
  create_from-Grew a s none positive stored h = create_from-new a s positive stored
  create_from-Grew a s (some b) positive stored h =
      Ensures-map _ _ _ (λ id t kept. old-Grew e k b s.invoice_count t h (kept.0 ∙ stored) kept.1)
        (create_from-old a s (ground (arith, h)))

  create_from-Kept :
      (j : ℕ) (a : InvoiceTemplate) (s : State L) (o : Option Invoice)
      → is_usable (some a) ≡ true
      → Kept j k o tt s
      → Ensures (Kept j k o) (create_from e a s)
  create_from-Kept j a s o positive g =
      Ensures-both _ _ _ (create_from e a s)
        (λ id t same grew. (
          ground (arith, g.0, same),
          (Grew-trans o (s.invoice k) (t.invoice k) g.1.0 grew.0, grew.1),
        ))
        (create_invoice_record-Untouched e s a.merchant a.amount_usdc a.gross_usdc
          a.expires_in_seconds a.metadata_hash a.payment_link_hash 0 MaybeAddress.none)
        (create_from-Grew a s (s.invoice k) positive refl g.1.1)

  pub generate_from_template-Onward :
      (merchant id : ℕ) (s : State L)
      → is_usable (s.template id) ≡ true
      → is_sound s.invoice_count k (s.invoice k) ≡ true
      → Ensures
          (λ _ t. Onward k s t × (t.template ≡ s.template))
          (generate_from_template e merchant id s)
  unfolding generate_from_template require_not_paused
  generate_from_template-Onward merchant id s usable h = elim (Option-cases (s.template id)) [
    | inl x ↦ ground (arith, x)
    | inr (a, x) ↦ ground (
      arith,
      x,
      Ensures-both _ _ (λ _ t. Onward k s t × (t.template ≡ s.template)) (create_from e a s)
          (λ _ t same grew. ((Grew-Follows (s.invoice k) (t.invoice k) grew.0, grew.1), same))
          (create_invoice_record-Untouched e s a.merchant a.amount_usdc a.gross_usdc
            a.expires_in_seconds a.metadata_hash a.payment_link_hash 0 MaybeAddress.none)
          (create_from-Grew a s (s.invoice k) (ground (arith, x, usable)) refl h),
    )
  ]

  module _ (j : ℕ) (o : Option Invoice) where
    reschedule-Kept :
        (id generated invoice_id : ℕ) (a : InvoiceTemplate) (s : State L)
        → is_usable (some a) ≡ true
        → Kept j k o tt s
        → Ensures (Kept j k o) (reschedule e id a generated invoice_id s)
    reschedule-Kept id generated invoice_id a s positive g = ground (arith, positive, g)

    generate_found-Kept :
        (id generated : ℕ) (found : Option InvoiceTemplate) (s : State L)
        → is_usable found ≡ true
        → Kept j k o tt s
        → Ensures (Kept j k o) (generate_found e id generated found s)
    unfolding generate_found
    generate_found-Kept id generated none s usable g = g
    generate_found-Kept id generated (some a) s usable g = ground (
      arith,
      g,
      Ensures-bind (Kept j k o) (Kept j k o) (create_from e a s) (reschedule e id a generated)
          (create_from-Kept j a s o usable g)
          (λ invoice_id t later. reschedule-Kept id generated invoice_id a t usable later),
    )

  module _ (o : Option Invoice) where
    generate_each-Kept :
        (ids : List ℕ) (generated : ℕ) (s : State L)
        → ((j : ℕ) → Kept j k o tt s)
        → (j : ℕ) → Ensures (Kept j k o) (generate_each e ids generated s)
    unfolding generate_each
    generate_each-Kept [] generated s g j = g j
    generate_each-Kept (id ∷ rest) generated s g j =
        Ensures-all (λ j n t. Kept j k o n t) (Kept j k o)
          (generate_found e id generated (s.template id) s) (λ count. generate_each e rest count)
          (λ i. generate_found-Kept i o id generated (s.template id) s (g id).0 (g i))
          (λ count t later. generate_each-Kept rest count t later j)

  pub generate_due_invoices-Onward :
      (ids : List ℕ) (s : State L)
      → ((j : ℕ) → is_usable (s.template j) ≡ true)
      → is_sound s.invoice_count k (s.invoice k) ≡ true
      → (j : ℕ)
      → Ensures
          (λ _ t. Onward k s t × (is_usable (t.template j) ≡ true))
          (generate_due_invoices e ids s)
  unfolding generate_due_invoices require_not_paused
  generate_due_invoices-Onward ids s usable h j = ground (
    arith,
    Ensures-map (Kept j k (s.invoice k)) (λ _ t. Onward k s t × (is_usable (t.template j) ≡ true))
        (generate_each e ids 0 s)
        (λ _ t g. ((Grew-Follows (s.invoice k) (t.invoice k) g.1.0, g.1.1), g.0))
        (generate_each-Kept (s.invoice k) ids 0 s (λ i. (usable i, (inl refl, h))) j),
  )

-- ===== src/Invoice/Machine/Creation.antt =====
-- What creating many invoices does to a stored invoice (contracts/invoice/src/entrypoints/batch.rs).
use comebackhere_contracts.Prelude.{
  ℕ, ◌≡◌, ◌⊎◌, inr, refl, Bool, true, false, not, ◌&&◌, Option, none, some, List, [], ◌∷◌,
  push_back, arith, ◌≤◌, ◌∙◌, if◌then◌else◌, ◌==◌,
}
use comebackhere_contracts.Prelude.Int.{ℤ, pos, leb_ℤ, ltb_ℤ}
use comebackhere_contracts.Host.{Env, Ensures, Ensures-map, Ensures-bind}
use comebackhere_contracts.Invoice.Types.{Invoice, BatchInvoiceParams}
use comebackhere_contracts.Invoice.Storage.{State}
use comebackhere_contracts.Invoice.Guards.{
  require_not_paused, require_expiry_not_too_long, require_hash_not_too_long,
  require_valid_payment_link_hash, pending_index_add,
}
use comebackhere_contracts.Invoice.Lifecycle.{use_nonce, merchant_index_add}
use comebackhere_contracts.Invoice.Creating.{
  check_each, create_one, create_each, batch_create_invoice,
}
use comebackhere_contracts.Invoice.Machine.Keeping.{
  is_consistent, is_sound, Follows, Onward, require_positive_amount-Ensures,
  require_usdc_precision-Ensures,
}

abbrev pub is_positive : ℤ → ℤ → Bool
is_positive amount gross = not (leb_ℤ amount (pos 0)) && not (ltb_ℤ gross amount)

abbrev all_positive : List BatchInvoiceParams → Bool
all_positive [] = true
all_positive (p ∷ rest) = is_positive p.amount_usdc p.gross_usdc && all_positive rest

-- A stored invoice stays, and where none was stored there may be a sound one.
abbrev pub Grew : {L : Type 0} → ℕ → Option Invoice → State L → Type 0
Grew k o t = ((t.invoice k ≡ o) ⊎ (o ≡ none)) × (is_sound t.invoice_count k (t.invoice k) ≡ true)

pub Grew-Follows : (o p : Option Invoice) → (p ≡ o) ⊎ (o ≡ none) → Follows o p
Grew-Follows none p g = tt
Grew-Follows (some a) none g = ground (arith, g)
Grew-Follows (some a) (some b) g = ground (arith, g)

pub Grew-trans :
    (o p q : Option Invoice) → (p ≡ o) ⊎ (o ≡ none) → (q ≡ p) ⊎ (p ≡ none) → (q ≡ o) ⊎ (o ≡ none)
Grew-trans none p q f g = inr refl
Grew-trans (some a) none q f g = ground (arith, f)
Grew-trans (some a) (some b) q f g = ground (arith, f, g)

module _ {L : Type 0} (e : Env L) where
  pub check_each-Ensures :
      (s : State L) (merchant : ℕ) (params : List BatchInvoiceParams) (nonces : List ℕ)
      → Ensures
          (λ _ t. (t ≡ s) × (all_positive params ≡ true))
          (check_each merchant params nonces s)
  unfolding check_each require_expiry_not_too_long require_hash_not_too_long
      require_valid_payment_link_hash
  check_each-Ensures s merchant [] nonces = (refl, refl)
  check_each-Ensures s merchant (p ∷ rest) nonces = ground (
    arith,
    require_positive_amount-Ensures s p.amount_usdc p.gross_usdc,
    require_usdc_precision-Ensures s p.amount_usdc p.gross_usdc,
    check_each-Ensures s merchant rest
        (if p.merchant_nonce == 0 then nonces else push_back nonces p.merchant_nonce),
  )

  module _ (k : ℕ) where
    create_one-new :
        (merchant : ℕ) (p : BatchInvoiceParams) (s : State L)
        → leb_ℤ p.amount_usdc (pos 0) ≡ false
        → ltb_ℤ p.gross_usdc p.amount_usdc ≡ false
        → s.invoice k ≡ none
        → Ensures (λ _ t. Grew k none t) (create_one e merchant p s)
    unfolding create_one use_nonce merchant_index_add pending_index_add is_consistent
    create_one-new merchant p s positive ordered empty = ground (arith, empty)

    create_one-old :
        (merchant : ℕ) (p : BatchInvoiceParams) (s : State L)
        → k ≤ s.invoice_count
        → Ensures
            (λ _ t. (t.invoice k ≡ s.invoice k) × (s.invoice_count ≤ t.invoice_count))
            (create_one e merchant p s)
    unfolding create_one use_nonce merchant_index_add pending_index_add
    create_one-old merchant p s known = ground arith

    pub old-Grew :
        (a : Invoice) (n : ℕ) (t : State L)
        → is_sound n k (some a) ≡ true
        → t.invoice k ≡ some a
        → n ≤ t.invoice_count
        → Grew k (some a) t
    old-Grew a n t h stored more = ground (arith, h, stored)

    create_one-Grew :
        (merchant : ℕ) (p : BatchInvoiceParams) (s : State L) (o : Option Invoice)
        → leb_ℤ p.amount_usdc (pos 0) ≡ false
        → ltb_ℤ p.gross_usdc p.amount_usdc ≡ false
        → s.invoice k ≡ o
        → is_sound s.invoice_count k o ≡ true
        → Ensures (λ _ t. Grew k o t) (create_one e merchant p s)
    create_one-Grew merchant p s none positive ordered stored h =
        create_one-new merchant p s positive ordered stored
    create_one-Grew merchant p s (some a) positive ordered stored h =
        Ensures-map _ _ _ (λ id t kept. old-Grew a s.invoice_count t h (kept.0 ∙ stored) kept.1)
          (create_one-old merchant p s (ground (arith, h)))

    create_each-Grew :
        (merchant : ℕ) (params : List BatchInvoiceParams) (ids : List ℕ) (o : Option Invoice)
        (s : State L)
        → all_positive params ≡ true
        → Grew k o s
        → Ensures (λ _ t. Grew k o t) (create_each e merchant params ids s)
    unfolding create_each
    create_each-Grew merchant [] ids o s all g = g
    create_each-Grew merchant (p ∷ rest) ids o s all g =
        Ensures-bind (λ _ t. Grew k (s.invoice k) t) (λ _ t. Grew k o t) (create_one e merchant p s)
          (λ id. create_each e merchant rest (push_back ids id))
          (create_one-Grew merchant p s (s.invoice k) (ground (arith, all)) (ground (arith, all))
            refl g.1)
          (λ id t later.
            create_each-Grew merchant rest (push_back ids id) o t (ground (arith, all))
              (Grew-trans o (s.invoice k) (t.invoice k) g.0 later.0, later.1))

    pub batch_create_invoice-Onward :
        (s : State L) (merchant : ℕ) (params : List BatchInvoiceParams)
        → is_sound s.invoice_count k (s.invoice k) ≡ true
        → Ensures (λ _ t. Onward k s t) (batch_create_invoice e merchant params s)
    unfolding batch_create_invoice require_not_paused
    batch_create_invoice-Onward s merchant params h = ground (
      arith,
      check_each-Ensures s merchant params [],
      Ensures-map (λ _ t. Grew k (s.invoice k) t) (λ _ t. Onward k s t)
          (create_each e merchant params [] s)
          (λ ids t g. (Grew-Follows (s.invoice k) (t.invoice k) g.0, g.1)),
      create_each-Grew merchant params [] (s.invoice k) s,
      h,
    )

-- ===== src/Invoice/Machine/Histories.antt =====
-- Invoices through any sequence of the modelled calls (contracts/invoice/src/entrypoints).
use comebackhere_contracts.Prelude.{
  ℕ, ◌≡◌, ◌↔◌, ◌⊎◌, inl, inr, refl, true, Option, none, some, List, [], ◌∷◌, arith, Option-cases,
}
use comebackhere_contracts.Prelude.Int.{pos, ◌<ℤ◌, ◌≤ℤ◌}
use comebackhere_contracts.Host.{Env, ok}
use comebackhere_contracts.Invoice.Types.{
  MaybeAddress, Invoice, InvoiceTemplate, is_terminal, is_refund_requested,
}
use comebackhere_contracts.Invoice.Storage.{State}
use comebackhere_contracts.Invoice.Refunds.{verify_payment_state}
use comebackhere_contracts.Invoice.Machine.{Op, step, run}
use comebackhere_contracts.Invoice.Machine.Keeping.{is_consistent, is_sound, Follows}
use comebackhere_contracts.Invoice.Machine.Generating.{is_usable}
use comebackhere_contracts.Invoice.Machine.Stepping.{step-Onward}
use comebackhere_contracts.Invoice.Machine.Usable.{step-is_usable}

-- There is a payment that a refund can return.
abbrev pub HasPayment : Invoice → Type 0
HasPayment a =
    ((time : ℕ) × (a.paid_at ≡ some time))
    × ((payer : ℕ) × (a.payer ≡ MaybeAddress.some payer))
    × (pos 0 <ℤ a.amount_usdc)
    × (a.amount_usdc ≤ℤ a.gross_usdc)

MaybeAddress-cases :
    (m : MaybeAddress) → (m ≡ MaybeAddress.none) ⊎ ((a : ℕ) × (m ≡ MaybeAddress.some a))
MaybeAddress-cases MaybeAddress.none = inl refl
MaybeAddress-cases (MaybeAddress.some a) = inr (a, refl)

stays_final :
    (a : Invoice) (o p : Option Invoice)
    → o ≡ some a
    → is_terminal a.status ≡ true
    → Follows o p
    → p ≡ some a
unfolding is_terminal
stays_final a none p stored final f = ground (arith, stored)
stays_final a (some b) none stored final f = absurd f
stays_final a (some b) (some c) stored final f = ground (arith, stored, final, f)

none_usable : (o : Option InvoiceTemplate) → o ≡ none → is_usable o ≡ true
none_usable o empty = ground (arith, empty)

none_sound : (n j : ℕ) (o : Option Invoice) → o ≡ none → is_sound n j o ≡ true
none_sound n j o empty = ground (arith, empty)

consistent_payment :
    (n k : ℕ) (o : Option Invoice) (a : Invoice)
    → is_sound n k o ≡ true
    → o ≡ some a
    → is_refund_requested a.status ≡ true
    → HasPayment a
unfolding is_consistent
consistent_payment n k o a h stored requested = elim (Option-cases a.paid_at) [
  | inl x ↦ ground (arith, h, stored, requested, x)
  | inr (time, x) ↦ elim (MaybeAddress-cases a.payer) [
    | inl y ↦ ground (arith, h, stored, requested, y)
    | inr (payer, y) ↦ ground (arith, h, stored, requested, x, y)
  ]
]

module _ {L : Type 0} where
  run_stays_sound :
      (calls : List (Env L × Op)) (s : State L)
      → ((j : ℕ) → is_sound s.invoice_count j (s.invoice j) ≡ true)
      → ((j : ℕ) → is_usable (s.template j) ≡ true)
      → (j : ℕ)
      → (is_sound (run calls s).invoice_count j ((run calls s).invoice j) ≡ true)
        × (is_usable ((run calls s).template j) ≡ true)
  unfolding run
  run_stays_sound [] s h u j = (h j, u j)
  run_stays_sound ((e, op) ∷ rest) s h u j =
      run_stays_sound rest (step e op s) (λ i. (step-Onward e op s i h u).1)
        (λ i. step-is_usable e op s i h u) j

  sound_before :
      (calls : List (Env L × Op)) (s : State L)
      → ((j : ℕ) → s.invoice j ≡ none)
      → ((j : ℕ) → s.template j ≡ none)
      → (j : ℕ)
      → (is_sound (run calls s).invoice_count j ((run calls s).invoice j) ≡ true)
        × (is_usable ((run calls s).template j) ≡ true)
  sound_before calls s empty bare =
      run_stays_sound calls s (λ j. none_sound s.invoice_count j (s.invoice j) (empty j))
        (λ j. none_usable (s.template j) (bare j))

  run_final-at :
      (calls : List (Env L × Op)) (s : State L) (k : ℕ) (a : Invoice)
      → ((j : ℕ) → is_sound s.invoice_count j (s.invoice j) ≡ true)
      → ((j : ℕ) → is_usable (s.template j) ≡ true)
      → s.invoice k ≡ some a
      → is_terminal a.status ≡ true
      → (run calls s).invoice k ≡ some a
  unfolding run
  run_final-at [] s k a h u stored final = stored
  run_final-at ((e, op) ∷ rest) s k a h u stored final =
      run_final-at rest (step e op s) k a (λ i. (step-Onward e op s i h u).1)
        (λ i. step-is_usable e op s i h u)
        (stays_final a (s.invoice k) ((step e op s).invoice k) stored final
          (step-Onward e op s k h u).0)
        final

  -- On a contract that has stored no invoice and no template yet, and for the calls of `Op`, which are
  -- all entrypoints that write an invoice or a template (`initialize` is not among them): once such
  -- calls have left an invoice expired, cancelled, released or refunded, it is stored unchanged
  -- after any further such calls.
  pub terminal_invoices_stay :
      (before later : List (Env L × Op)) (s : State L) (k : ℕ) (a : Invoice)
      → ((j : ℕ) → s.invoice j ≡ none)
      → ((j : ℕ) → s.template j ≡ none)
      → (run before s).invoice k ≡ some a
      → is_terminal a.status ≡ true
      → (run later (run before s)).invoice k ≡ some a
  terminal_invoices_stay before later s k a empty bare stored final =
      let sound = sound_before before s empty bare in
      run_final-at later (run before s) k a (λ j. (sound j).0) (λ j. (sound j).1) stored final

  verify_payment_state_iff :
      (a : Invoice) (t : State L) → (verify_payment_state a t ≡ ok (tt, t)) ↔ HasPayment a
  unfolding verify_payment_state
  verify_payment_state_iff a t = elim (Option-cases a.paid_at) [
    | inl x ↦ ground (arith, x)
    | inr (time, x) ↦ elim (MaybeAddress-cases a.payer) [
      | inl y ↦ ground (arith, x, y)
      | inr (payer, y) ↦ ground (arith, x, y)
    ]
  ]

  -- The check of the payment state passes on an invoice exactly if it has a time of payment, a payer
  -- and a positive amount that is at most the gross amount. On a contract that has stored no invoice
  -- and no template yet, after any of the calls of `Op`, which are all entrypoints that write an
  -- invoice or a template (`initialize` is not among them), every stored invoice with a requested
  -- refund is such an invoice, so that the check passes on it: no refund is stuck on it.
  pub requested_refunds_verify :
      (calls : List (Env L × Op)) (s : State L) (k : ℕ) (a b : Invoice) (t : State L)
      → ((j : ℕ) → s.invoice j ≡ none)
      → ((j : ℕ) → s.template j ≡ none)
      → (run calls s).invoice k ≡ some a
      → is_refund_requested a.status ≡ true
      → ((verify_payment_state b t ≡ ok (tt, t)) ↔ HasPayment b)
        × HasPayment a
        × (verify_payment_state a t ≡ ok (tt, t))
  requested_refunds_verify calls s k a b t empty bare stored requested =
      let payment =
        consistent_payment (run calls s).invoice_count k ((run calls s).invoice k) a
          (sound_before calls s empty bare k).0 stored requested in
      (verify_payment_state_iff b t, payment, (verify_payment_state_iff a t).1 payment)

-- ===== src/Invoice/Machine/Cancelling.antt =====
-- What cancelling many invoices does to a stored one (`batch_cancel_invoices` of
-- contracts/invoice/src/entrypoints/batch.rs). It writes the records that it has read before the
-- first write, so that what it read must be what is stored under their ids.
use mathlib.Core.Path.{subst}
use comebackhere_contracts.Prelude.{
  sym, ℕ, ◌≡◌, inl, inr, refl, true, Option, none, some, List, [], ◌∷◌, push_back, arith,
  Option-cases, ◌∙◌,
}
use comebackhere_contracts.Host.{Env, Ensures, Ensures-map}
use comebackhere_contracts.Invoice.Types.{InvoiceStatus, MaybeBytes, Invoice, is_pending}
use comebackhere_contracts.Invoice.Storage.{State}
use comebackhere_contracts.Invoice.Guards.{require_not_paused, pending_index_remove, append_history}
use comebackhere_contracts.Invoice.Batches.{
  collect_each, cancel_found, cancel_each, batch_cancel_invoices,
}
use comebackhere_contracts.Invoice.Machine.Keeping.{
  is_consistent, is_sound, Follows, Onward, unpaid-consistent,
}
use comebackhere_contracts.Invoice.Machine.Others.{Ended, Ended-refl}

-- The records are those stored under their ids, and pending.
abbrev AllStored : {L : Type 0} → State L → List Invoice → Type 0
AllStored s [] = Unit
AllStored s (a ∷ rest) = (s.invoice a.id ≡ some a) × (is_pending a.status ≡ true) × AllStored s rest

push_back-AllStored :
    {L : Type 0} (s : State L) (read : List Invoice) (a : Invoice)
    → AllStored s read
    → s.invoice a.id ≡ some a
    → is_pending a.status ≡ true
    → AllStored s (push_back read a)
push_back-AllStored s [] a before stored pending = (stored, pending, tt)
push_back-AllStored s (b ∷ rest) a before stored pending =
    (before.0, before.1, push_back-AllStored s rest a before.2 stored pending)

own_id :
    (n k : ℕ) (o : Option Invoice) (a : Invoice) → is_sound n k o ≡ true → o ≡ some a → a.id ≡ k
unfolding is_consistent
own_id n k o a h stored = ground (arith, h, stored)

pub collect_each-same :
    {L : Type 0} (e : Env L) (s : State L) (merchant : ℕ) (ids : List ℕ) (read : List Invoice)
    → Ensures (λ _ t. t ≡ s) (collect_each e merchant ids read s)
unfolding collect_each
collect_each-same e s merchant [] read = refl
collect_each-same e s merchant (id ∷ rest) read = elim (Option-cases (s.invoice id)) [
  | inl x ↦ ground (arith, x)
  | inr (a, x) ↦ ground (arith, x, collect_each-same e s merchant rest (push_back read a))
]

module _ {L : Type 0} (e : Env L) (s : State L)
    (h : (j : ℕ) → is_sound s.invoice_count j (s.invoice j) ≡ true) where
  collect_each-AllStored :
      (merchant : ℕ) (ids : List ℕ) (read : List Invoice)
      → AllStored s read
      → Ensures (λ all t. (t ≡ s) × AllStored s all) (collect_each e merchant ids read s)
  unfolding collect_each
  collect_each-AllStored merchant [] read before = (refl, before)
  collect_each-AllStored merchant (id ∷ rest) read before = elim (Option-cases (s.invoice id)) [
    | inl x ↦ ground (arith, x)
    | inr (a, x) ↦ ground (
      arith,
      x,
      before,
      own_id s.invoice_count id (s.invoice id) a (h id) x,
      push_back-AllStored s read a before,
      collect_each-AllStored merchant rest (push_back read a),
    )
  ]

  module _ (k : ℕ) where
    cancel_found-Ended :
        (a : Invoice) (t : State L)
        → s.invoice a.id ≡ some a
        → is_pending a.status ≡ true
        → Ended InvoiceStatus.cancelled (s.invoice k) (t.invoice k)
        → Ended InvoiceStatus.cancelled (s.invoice k) ((cancel_found e a t).invoice k)
          × ((cancel_found e a t).invoice_count ≡ t.invoice_count)
    unfolding cancel_found pending_index_remove append_history
    cancel_found-Ended a t stored pending before = ground (arith, stored, pending, before)

    cancel_each-Ended :
        (read : List Invoice) (t : State L)
        → AllStored s read
        → Ended InvoiceStatus.cancelled (s.invoice k) (t.invoice k)
        → Ended InvoiceStatus.cancelled (s.invoice k) ((cancel_each e read t).invoice k)
          × ((cancel_each e read t).invoice_count ≡ t.invoice_count)
    unfolding cancel_each
    cancel_each-Ended [] t all before = (before, refl)
    cancel_each-Ended (a ∷ rest) t all before =
        let first = cancel_found-Ended a t all.0 all.1 before in
        let later = cancel_each-Ended rest (cancel_found e a t) all.2 first.0 in
        (later.0, later.1 ∙ first.1)

    cancelled-Onward :
        (n : ℕ) (o p : Option Invoice)
        → is_sound n k o ≡ true
        → Ended InvoiceStatus.cancelled o p
        → Follows o p × (is_sound n k p ≡ true)
    cancelled-Onward n none p g f = ground (arith, f)
    cancelled-Onward n (some a) none g f = absurd f
    cancelled-Onward n (some a) (some b) g f =
        ground (arith, g, f, unpaid-consistent k a InvoiceStatus.cancelled)

    kept_by_cancel : (read : List Invoice) → AllStored s read → Onward k s (cancel_each e read s)
    kept_by_cancel read all =
        let r = cancel_each-Ended read s all (Ended-refl InvoiceStatus.cancelled (s.invoice k)) in
        let x =
          cancelled-Onward s.invoice_count (s.invoice k) ((cancel_each e read s).invoice k) (h k)
            r.0 in
        (x.0, ground (arith, x.1, r.1))

    collect_each-Onward :
        (merchant : ℕ) (ids : List ℕ)
        → Ensures (λ all t. Onward k s (cancel_each e all t)) (collect_each e merchant ids [] s)
    collect_each-Onward merchant ids =
        Ensures-map (λ all t. (t ≡ s) × AllStored s all) (λ all t. Onward k s (cancel_each e all t))
          (collect_each e merchant ids [] s)
          (λ all t g.
            subst (λ u. Onward k s (cancel_each e all u)) (sym g.0) (kept_by_cancel all g.1))
          (collect_each-AllStored merchant ids [] tt)

    pub batch_cancel_invoices-Onward :
        (merchant : ℕ) (ids : List ℕ) (reason : MaybeBytes)
        → Ensures (λ _ t. Onward k s t) (batch_cancel_invoices e merchant ids reason s)
    unfolding batch_cancel_invoices require_not_paused
    batch_cancel_invoices-Onward merchant ids reason =
        ground (arith, collect_each-Onward merchant ids)

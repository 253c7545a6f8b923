-- ===== src/Treasury/Lifecycle/Frames.antt =====
-- The calls that leave the settlements and the index of the pending ones as they are.
use comebackhere_contracts.Prelude.{ℕ, ◌≡◌, arith, ◌∙◌}
use comebackhere_contracts.Host.{Call, Result, ok, err, Ensures, Ensures-map}
use comebackhere_contracts.Multisig.Storage.{State}
use comebackhere_contracts.Treasury.Lifecycle.{IsSound, Onward, Keeps, Follows-refl}

module _ {L : Type 0} where
  abbrev pub SameSettlements : State L → State L → Type 0
  SameSettlements s s' =
      (s'.settlement ≡ s.settlement)
      × (s'.settlement_count ≡ s.settlement_count)
      × (s'.pending_settlement_index ≡ s.pending_settlement_index)

  abbrev pub Leaves : {A : Type 0} → Call (State L) A → Type 0
  Leaves m = (s : State L) → Ensures (λ _ s'. SameSettlements s s') (m s)

  same-Onward : (s s' : State L) (k : ℕ) → IsSound s k → SameSettlements s s' → Onward k s s'
  same-Onward s s' k h same = ground (arith, Follows-refl (s.settlement k), h, same)

  pub Leaves-Keeps : {A : Type 0} (m : Call (State L) A) → Leaves m → Keeps m
  Leaves-Keeps m leaves s k h =
      Ensures-map _ _ (m s) (λ _ s' same. same-Onward s s' k h same) (leaves s)

module _ {L A B : Type 0} where
  pub Leaves-bind :
      (s : State L) (r : Result (A × State L)) (f : A → Call (State L) B)
      → Ensures (λ _ t. SameSettlements s t) r
      → ((a : A) → Leaves (f a))
      → Ensures (λ _ u. SameSettlements s u) (elim r [ ok x ↦ f x.0 x.1 | err e ↦ err e ])
  Leaves-bind s (ok (a, t)) f h hf =
      Ensures-map _ _ (f a t) (λ _ u j. (j.0 ∙ h.0, j.1 ∙ h.1, j.2 ∙ h.2)) (hf a t)
  Leaves-bind s (err e) f h hf = tt

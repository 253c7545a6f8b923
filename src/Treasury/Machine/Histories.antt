-- ===== src/Treasury/Machine/Histories.antt =====
-- What holds of a stored settlement after any sequence of calls, failed ones included.
use comebackhere_contracts.Prelude.{
  ℕ, ◌^◌, ◌≤◌, ◌<◌, ◌≡◌, refl, false, Option, none, some, List, [], ◌∷◌, Distinct, arith,
}
use comebackhere_contracts.Prelude.Int.{pos, ◌<ℤ◌}
use mathlib.Core.Path.{subst}
use comebackhere_contracts.Host.{Env, Result, ok, err, Ensures}
use comebackhere_contracts.Multisig.Types.{Settlement}
use comebackhere_contracts.Multisig.Storage.{State}
use comebackhere_contracts.Treasury.Guards.{initialize}
use comebackhere_contracts.Treasury.Lifecycle.{
  is_live, Continues, Follows, Follows-refl, Follows-trans, IsSoundAt, IsSound, Onward,
}
use comebackhere_contracts.Treasury.Machine.{Op, call, step, run, deployed}
use comebackhere_contracts.Treasury.Machine.Keeping.{call-Keeps}

module _ {L : Type 0} where
  pub step-Onward :
      (e : Env L) (op : Op) (s : State L) (k : ℕ) → IsSound s k → Onward k s (step e op s)
  unfolding step
  step-Onward e op s k h = outcome (call e op s) (call-Keeps e op s k h)
    where
      outcome :
          (r : Result (Unit {0} × State L))
          → Ensures (λ _ s'. Onward k s s') r
          → Onward k s (elim r [ ok x ↦ x.1 | err f ↦ s ])
      outcome (ok x) j = j
      outcome (err f) j = (Follows-refl (s.settlement k), h)

  pub run-Onward :
      (calls : List (Env L × Op)) (s : State L) (k : ℕ) → IsSound s k → Onward k s (run calls s)
  unfolding run
  run-Onward [] s k h = (Follows-refl (s.settlement k), h)
  run-Onward ((e, op) ∷ rest) s k h =
      let first = step-Onward e op s k h in
      let later = run-Onward rest (step e op s) k first.1 in
      (Follows-trans (s.settlement k) _ _ first.0 later.0, later.1)

  -- A settlement that is neither pending nor on hold is final: whatever is called afterwards, the
  -- stored record stays the same, with its status, approvals and amount.
  pub run_final :
      (calls : List (Env L × Op)) (s : State L) (k : ℕ) (a : Settlement)
      → IsSound s k
      → s.settlement k ≡ some a
      → is_live a.status ≡ false
      → (run calls s).settlement k ≡ some a
  run_final calls s k a h found final = ground (arith, run-Onward calls s k h)

  -- Whatever is called, a stored settlement stays stored, and its terms (id, merchant, amount, time
  -- of the proposal, deadline and token) are those of its proposal.
  pub run_terms :
      (calls : List (Env L × Op)) (s : State L) (k : ℕ) (a : Settlement)
      → IsSound s k
      → s.settlement k ≡ some a
      → (b : Settlement) × ((run calls s).settlement k ≡ some b) × Continues a b
  run_terms calls s k a h found = later ((run calls s).settlement k) (run-Onward calls s k h).0
    where
      later :
          (o : Option Settlement)
          → Follows (s.settlement k) o
          → (b : Settlement) × (o ≡ some b) × Continues a b
      later none j = absurd (subst (λ x. Follows x none) found j)
      later (some b) j = (b, refl, subst (λ x. Follows x (some b)) found j)

  initialize-IsSound :
      (e : Env L) (admin threshold : ℕ) (signers : List (ℕ × ℕ)) (ledger : L) (k : ℕ)
      → Ensures (λ _ s. IsSound s k) (initialize e admin threshold signers (deployed ledger))
  unfolding initialize deployed
  initialize-IsSound e admin threshold signers ledger k = ground arith

  -- After `initialize` on a fresh contract and any calls, a settlement that is stored under `k` has
  -- the id `k`, which is at most the count, a positive amount, a list of approvals with no signer
  -- twice, and a weight that fits `u32`.
  pub run_sound :
      (e : Env L) (admin threshold : ℕ) (signers : List (ℕ × ℕ)) (ledger : L)
      (calls : List (Env L × Op)) (s : State L) (k : ℕ) (a : Settlement)
      → initialize e admin threshold signers (deployed ledger) ≡ ok (tt, s)
      → (run calls s).settlement k ≡ some a
      → (k ≤ (run calls s).settlement_count)
        × (a.id ≡ k)
        × (pos 0 <ℤ a.amount)
        × Distinct a.approvals
        × (a.approval_weight < 2 ^ 32)
  run_sound e admin threshold signers ledger calls s k a init found =
      let base : IsSound s k =
        subst (λ r. Ensures (λ _ t. IsSound t k) r) init
          (initialize-IsSound e admin threshold signers ledger k) in
      subst (IsSoundAt (run calls s).settlement_count k) found (run-Onward calls s k base).1

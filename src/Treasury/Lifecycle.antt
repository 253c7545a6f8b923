-- ===== src/Treasury/Lifecycle.antt =====
-- How a stored settlement may change in one call of an entrypoint, or over many.
pub mod Frames
pub mod Approving
pub mod Paying
pub mod Ending
pub mod Disputing
pub mod Unrelated
use comebackhere_contracts.Prelude.{
  ℕ, ◌^◌, ◌≤◌, ◌<◌, ◌≡◌, refl, List, [], ◌∷◌, ◌++◌, Distinct, Bool, true, false, Option, none, some,
  sym, ◌∙◌, inl, inr, arith, Bool-cases,
}
use mathlib.Core.Path.{subst}
use comebackhere_contracts.Prelude.Int.{pos, ◌<ℤ◌}
use comebackhere_contracts.Treasury.Guards.{for_each_settlement}
use comebackhere_contracts.Host.{Call, Result, ok, err, Ensures, pure, ◌>>=◌}
use comebackhere_contracts.Multisig.Types.{Settlement, SettlementStatus}
use comebackhere_contracts.Multisig.Storage.{State}

-- the states from which a settlement can still move
abbrev pub is_live : SettlementStatus → Bool
is_live SettlementStatus.pending = true
is_live SettlementStatus.on_hold = true
is_live _ = false

abbrev pub is_partially_settled : SettlementStatus → Bool
is_partially_settled SettlementStatus.partially_settled = true
is_partially_settled _ = false

-- The terms of the proposal stay, and a settlement that is no longer live stays as it is.
pub record Continues (a b : Settlement) : Type 0 where
  pub id : b.id ≡ a.id
  pub merchant_address : b.merchant_address ≡ a.merchant_address
  pub amount : b.amount ≡ a.amount
  pub proposed_at : b.proposed_at ≡ a.proposed_at
  pub execution_deadline : b.execution_deadline ≡ a.execution_deadline
  pub token : b.token ≡ a.token
  pub frozen : is_live a.status ≡ false → b ≡ a
  pub not_settled_in_part : is_live a.status ≡ true → is_partially_settled b.status ≡ false

-- No stored settlement is ever removed.
abbrev pub Follows : Option Settlement → Option Settlement → Type 0
Follows none b = Unit
Follows (some a) none = ⊥
Follows (some a) (some b) = Continues a b

pub Follows-refl : (a : Option Settlement) → Follows a a
Follows-refl none = tt
Follows-refl (some a) = ground arith

Continues-trans : {a b c : Settlement} → Continues a b → Continues b c → Continues a c
Continues-trans {a} {b} {c} h k = record {
  id = k.id ∙ h.id;
  merchant_address = k.merchant_address ∙ h.merchant_address;
  amount = k.amount ∙ h.amount;
  proposed_at = k.proposed_at ∙ h.proposed_at;
  execution_deadline = k.execution_deadline ∙ h.execution_deadline;
  token = k.token ∙ h.token;
  frozen = λ f. k.frozen (subst (λ x. is_live x.status ≡ false) (sym (h.frozen f)) f) ∙ h.frozen f;
  not_settled_in_part = λ l. elim (Bool-cases (is_live b.status)) [
    | inl live ↦ k.not_settled_in_part live
    | inr dead ↦
        subst (λ x. is_partially_settled x.status ≡ false) (sym (k.frozen dead))
          (h.not_settled_in_part l)
  ];
}

pub Follows-trans : (a b c : Option Settlement) → Follows a b → Follows b c → Follows a c
Follows-trans none b c h k = tt
Follows-trans (some a) none c h k = elim h [ ]
Follows-trans (some a) (some b) none h k = elim k [ ]
Follows-trans (some a) (some b) (some c) h k = Continues-trans h k

-- What holds of what is stored under `k` when `count` settlements were proposed.
abbrev pub IsSoundAt : ℕ → ℕ → Option Settlement → Type 0
IsSoundAt count k none = Unit
IsSoundAt count k (some a) =
    (k ≤ count)
    × (a.id ≡ k)
    × (pos 0 <ℤ a.amount)
    × Distinct a.approvals
    × (a.approval_weight < 2 ^ 32)

module _ {L : Type 0} where
  abbrev pub IsSound : State L → ℕ → Type 0
  IsSound s k = IsSoundAt s.settlement_count k (s.settlement k)

  -- A state `s'` that a call may reach from `s`, as far as the settlement `k` goes.
  abbrev pub Onward : ℕ → State L → State L → Type 0
  Onward k s s' = Follows (s.settlement k) (s'.settlement k) × IsSound s' k

  -- If the call succeeds, every settlement stays or moves on.
  abbrev pub Keeps : {A : Type 0} → Call (State L) A → Type 0
  Keeps m = (s : State L) (k : ℕ) → IsSound s k → Ensures (λ _ s'. Onward k s s') (m s)

  Onward-trans : (k : ℕ) (s t u : State L) → Onward k s t → Onward k t u → Onward k s u
  Onward-trans k s t u h j =
      (Follows-trans (s.settlement k) (t.settlement k) (u.settlement k) h.0 j.0, j.1)

module _ {L A : Type 0} where
  Ensures-Onward :
      (k : ℕ) (s t : State L) (r : Result (A × State L))
      → Onward k s t
      → Ensures (λ _ u. Onward k t u) r
      → Ensures (λ _ u. Onward k s u) r
  Ensures-Onward k s t (ok (x, u)) h j = Onward-trans k s t u h j
  Ensures-Onward k s t (err e) h j = tt

module _ {L A B : Type 0} where
  pub Onward-bind :
      (k : ℕ) (s : State L) (r : Result (A × State L)) (f : A → Call (State L) B)
      → Ensures (λ _ t. Onward k s t) r
      → ((a : A) → Keeps (f a))
      → Ensures (λ _ u. Onward k s u) (elim r [ ok x ↦ f x.0 x.1 | err e ↦ err e ])
  Onward-bind k s (ok (a, t)) f h hf = Ensures-Onward k s t (f a t) h (hf a t k h.1)
  Onward-bind k s (err e) f h hf = tt

module _ {L A : Type 0} where
  pure-Keeps : (a : List A) → Keeps (pure {S = State L} a)
  pure-Keeps a s k h = (Follows-refl (s.settlement k), h)

  -- The batch loop keeps to the life cycle if its body does, on what is stored under each id.
  pub for_each_settlement-Keeps :
      (body : ℕ → Option Settlement → Call (State L) (List A))
      → ((id : ℕ) (s : State L) (k : ℕ)
          → IsSound s k
          → Ensures (λ _ s'. Onward k s s') (body id (s.settlement id) s))
      → (ids : List ℕ) → Keeps (for_each_settlement body ids)
  unfolding for_each_settlement
  for_each_settlement-Keeps body h [] s k sound = (Follows-refl (s.settlement k), sound)
  for_each_settlement-Keeps body h (id ∷ ids) s k sound =
      Onward-bind k s (body id (s.settlement id) s) _ (h id s k sound) λ pushed t j tsound.
        Onward-bind j t (for_each_settlement body ids t) _
          (for_each_settlement-Keeps body h ids t j tsound) λ rest. pure-Keeps (pushed ++ rest)

-- ===== src/Treasury/PendingIndex.antt =====
-- The index of the pending settlements (`DataKey::PendingSettlementIndex`, kept by
-- `write_settlement` of contracts/treasury/src/lib.rs).
pub mod Kept
pub mod Others
use comebackhere_contracts.Prelude.{
  ℕ, ◌≡◌, Bool, true, false, Option, none, some, List, [], ◌∷◌, contains, arith, contains-push_back,
  contains-without,
}
use comebackhere_contracts.Multisig.Types.{Settlement, is_pending}
use comebackhere_contracts.Multisig.Storage.{State}
use comebackhere_contracts.Host.{Call, Result, ok, err, Ensures, Ensures-map, ◌>>=◌}
use comebackhere_contracts.Treasury.Guards.{write_settlement, for_each_settlement}
use comebackhere_contracts.Treasury.Lifecycle.Frames.{Leaves}

abbrev pub stored_pending : Option Settlement → Bool
stored_pending none = false
stored_pending (some a) = is_pending a.status

module _ {L : Type 0} where
  -- The index lists `k` exactly if a pending settlement is stored under `k`.
  abbrev pub IsIndexed : State L → ℕ → Type 0
  IsIndexed s k = contains s.pending_settlement_index k ≡ stored_pending (s.settlement k)

  pub write_settlement-IsIndexed :
      (id : ℕ) (a : Settlement) (s : State L) (k : ℕ)
      → IsIndexed s k
      → IsIndexed (write_settlement id a s) k
  unfolding write_settlement
  write_settlement-IsIndexed id a s k h = ground (
    arith,
    contains-push_back s.pending_settlement_index id k,
    contains-without s.pending_settlement_index id k,
  )

  -- a call that keeps the index right
  abbrev pub KeepsIndex : {A : Type 0} → Call (State L) A → Type 0
  KeepsIndex m = (s : State L) (k : ℕ) → IsIndexed s k → Ensures (λ _ s'. IsIndexed s' k) (m s)

module _ {L A B : Type 0} where
  pub KeepsIndex-bind :
      (k : ℕ) (r : Result (A × State L)) (f : A → Call (State L) B)
      → Ensures (λ _ t. IsIndexed t k) r
      → ((a : A) → KeepsIndex (f a))
      → Ensures (λ _ u. IsIndexed u k) (elim r [ ok x ↦ f x.0 x.1 | err e ↦ err e ])
  KeepsIndex-bind k (ok (a, t)) f h hf = hf a t k h
  KeepsIndex-bind k (err e) f h hf = tt

module _ {L A : Type 0} where
  pub Leaves-KeepsIndex : (m : Call (State L) A) → Leaves m → KeepsIndex m
  Leaves-KeepsIndex m leaves s k h =
      Ensures-map _ _ (m s) (λ _ s' same. ground (arith, h, same)) (leaves s)

  -- The batch loop keeps the index if its body does, on what is stored under each id.
  pub for_each_settlement-KeepsIndex :
      (body : ℕ → Option Settlement → Call (State L) (List A))
      → ((id : ℕ) (s : State L) (k : ℕ)
          → IsIndexed s k
          → Ensures (λ _ s'. IsIndexed s' k) (body id (s.settlement id) s))
      → (ids : List ℕ) → KeepsIndex (for_each_settlement body ids)
  unfolding for_each_settlement
  for_each_settlement-KeepsIndex body h [] s k indexed = indexed
  for_each_settlement-KeepsIndex body h (id ∷ ids) s k indexed =
      KeepsIndex-bind k (body id (s.settlement id) s) _ (h id s k indexed) λ pushed t j tindexed.
        KeepsIndex-bind j (for_each_settlement body ids t) _
          (for_each_settlement-KeepsIndex body h ids t j tindexed) λ rest u i uindexed. uindexed

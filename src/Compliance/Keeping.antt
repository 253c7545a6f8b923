-- ===== src/Compliance/Keeping.antt =====
-- What every entrypoint of the compliance contract keeps, for each address `k`.
pub mod Listing
pub mod Others
use comebackhere_contracts.Prelude.{
  ℕ, not, ◌+◌, ◌≤◌, ◌<◌, ◌≡◌, ◌||◌, some, refl, true, false, List, [], ◌∷◌, length, Distinct,
  push_back, arith, push_back-Distinct, without-Distinct, length-append, contains, without,
}
use comebackhere_contracts.Host.{Env, Call, Result, ok, err, Ensures, ◌>>=◌}
use comebackhere_contracts.Compliance.Types.{StatusHistoryEntry, AddressState}
use comebackhere_contracts.Compliance.Storage.{State}
use comebackhere_contracts.Compliance.Guards.{
  max_status_history, popped, append_status_history, track_address, add_tracked, require_admin,
  require_not_paused, require_admin_or_operator, holds,
}
use comebackhere_contracts.Compliance.Roles.{max_operators}
use comebackhere_contracts.Compliance.Index.{IsIndex, add_tracked-IsIndex}

pub length-popped :
    (history : List StatusHistoryEntry) → length (popped history) < max_status_history
unfolding popped
length-popped [] = omega arith
length-popped (entry ∷ rest) = ground (arith, length-popped rest)

pub length-push_back : {A : Type 0} (xs : List A) (a : A) → length (push_back xs a) ≡ length xs + 1
length-push_back [] a = omega arith
length-push_back (x ∷ xs) a = omega (arith, length-push_back xs a)

-- The index is in order, the log of `k` has at most ten entries, and the operators are at most ten
-- different addresses; what is allowed or blocked is tracked;
-- and no block was ever counted.
abbrev pub IsSound : State → ℕ → Type 0
IsSound s k =
    IsIndex s.addr_index_page s.addr_tracked s.addr_index_count
    × (length (s.status_history k) ≤ max_status_history)
    × (length s.operators ≤ max_operators)
    × Distinct s.operators
    × ((s.addr_tracked k || not (s.allowed k || s.blocked k)) ≡ true)
    × (s.block_count ≡ 0)

abbrev pub Keeps : {A : Type 0} → Call State A → Type 0
Keeps m = (s : State) (k : ℕ) → IsSound s k → Ensures (λ _ s'. IsSound s' k) (m s)

pub append_status_history-IsSound :
    {L : Type 0} (e : Env L) (address : ℕ) (status : AddressState) (actor : ℕ) (s : State) (k : ℕ)
    → IsSound s k
    → IsSound (append_status_history e address status actor s) k
unfolding append_status_history
append_status_history-IsSound e address status actor s k h = ground (
  arith,
  length-popped (s.status_history address),
  length-push_back (popped (s.status_history address))
      (record { status = status; timestamp = e.now; actor = actor }),
)

pub track_address-Keeps : (address : ℕ) → Keeps (track_address address)
unfolding track_address add_tracked
track_address-Keeps address s k h =
    ground
      (arith, add_tracked-IsIndex s.addr_index_page s.addr_tracked s.addr_index_count address h.0)

module _ {A B : Type 0} where
  pub Keeps-bind :
      (k : ℕ) (r : Result (A × State)) (f : A → Call State B)
      → Ensures (λ _ t. IsSound t k) r
      → ((a : A) → Keeps (f a))
      → Ensures (λ _ u. IsSound u k) (elim r [ ok x ↦ f x.0 x.1 | err e ↦ err e ])
  Keeps-bind k (ok (a, t)) f h hf = hf a t k h
  Keeps-bind k (err e) f h hf = tt

module _ {L : Type 0} (e : Env L) where
  pub require_admin-Ensures :
      (a : ℕ) (s : State)
      → Ensures (λ _ s'. (s' ≡ s) × (e.signed a ≡ true) × (s.admin ≡ some a)) (require_admin e a s)
  unfolding require_admin
  require_admin-Ensures a s = ground arith

  pub require_admin_or_operator-Ensures :
      (a : ℕ) (s : State)
      → Ensures
          (λ _ s'.
            (s' ≡ s)
            × (e.signed a ≡ true)
            × ((holds s.admin a || contains s.operators a || holds s.operator a) ≡ true))
          (require_admin_or_operator e a s)
  unfolding require_admin_or_operator
  require_admin_or_operator-Ensures a s = ground arith

pub require_not_paused-Ensures :
    (s : State) → Ensures (λ _ s'. (s' ≡ s) × (s.paused ≡ false)) (require_not_paused s)
unfolding require_not_paused
require_not_paused-Ensures s = ground arith

-- ===== src/Host.antt =====
-- The contract host: what an invocation reads from its surroundings, and the actions of which the
-- entrypoints are made. The host, the token contracts and the compliance contract that the treasury
-- calls stand as the fields of `Env`; Protocol fills those of compliance with its model.
use mathlib.Core.Path.{◌≡◌, subst}
use comebackhere_contracts.Prelude.{ℕ, Bool, true, false, Option, none, some}
use comebackhere_contracts.Prelude.Int.{ℤ}
use comebackhere_contracts.Errors.{TreasuryError, Failure, error, unauthenticated, panicked}

-- `L` is the state of the token contracts, which only their own calls change: the host forbids a
-- token to call back into a contract that is running.
pub record Env (L : Type 0) : Type 0 where
  -- `env.ledger().timestamp()`
  pub now : ℕ
  -- `env.current_contract_address()`
  pub self : ℕ
  -- whether an address has signed the invocation
  pub signed : ℕ → Bool
  -- token contract, holder
  pub token_balance : ℕ → ℕ → L → ℤ
  -- token contract, from, to, amount; `none` if the token contract fails
  pub token_transfer : ℕ → ℕ → ℕ → ℤ → L → Option L
  -- compliance contract, address
  pub is_allowed : ℕ → ℕ → Bool
  -- compliance contract, address, amount
  pub is_allowed_for_amount : ℕ → ℕ → ℤ → Bool

pub data Result {ℓ} (A : Type ℓ) : Type ℓ where
  ok : A → Result A
  err : Failure → Result A

abbrev pub succeeds : {A : Type 0} → Result A → Bool
succeeds (ok a) = true
succeeds (err f) = false

-- An action on the storage `S`. What a failed action wrote is dropped.
abbrev pub Call : Type 0 → Type 0 → Type 0
Call S A = S → Result (A × S)

infixl 5 ◌>>=◌ ◌>>◌
abbrev pub ◌>>=◌ : {S A B : Type 0} → Call S A → (A → Call S B) → Call S B
◌>>=◌ m f s = elim (m s) [ ok r ↦ f r.0 r.1 | err e ↦ err e ]

abbrev pub ◌>>◌ : {S A B : Type 0} → Call S A → Call S B → Call S B
m >> k = m >>= λ _. k

module _ {S : Type 0} where
  abbrev pub pure : {A : Type 0} → A → Call S A
  pure a s = ok (a, s)

  abbrev pub gets : {A : Type 0} → (S → A) → Call S A
  gets f s = ok (f s, s)

  abbrev pub modify : (S → S) → Call S (Unit {0})
  modify f s = ok (tt, f s)

  abbrev pub fail : {A : Type 0} → TreasuryError → Call S A
  fail e s = err (error e)

  -- `if b { return Err(e) }`
  abbrev pub fail_if : Bool → TreasuryError → Call S (Unit {0})
  fail_if true e s = err (error e)
  fail_if false e s = ok (tt, s)

  -- an untyped `panic!`, or an overflow check
  abbrev pub panic_if : Bool → Call S (Unit {0})
  panic_if true s = err panicked
  panic_if false s = ok (tt, s)

  -- `ok_or(e)?`
  abbrev pub or_fail : {A : Type 0} → Option A → TreasuryError → Call S A
  or_fail none e s = err (error e)
  or_fail (some a) e s = ok (a, s)

  abbrev pub or_panic : {A : Type 0} → Option A → Call S A
  or_panic none s = err panicked
  or_panic (some a) s = ok (a, s)

  -- `address.require_auth()`
  abbrev pub require_auth : {L : Type 0} → Env L → ℕ → Call S (Unit {0})
  require_auth e a s = elim (e.signed a) [ true ↦ ok (tt, s) | false ↦ err unauthenticated ]

-- What holds of the value and the storage of a call, if it succeeds.
abbrev pub Ensures : {S A : Type 0} → (A → S → Type 0) → Result (A × S) → Type 0
Ensures P (ok r) = P r.0 r.1
Ensures P (err e) = Unit

module _ {S A : Type 0} where
  pub Ensures-map :
      (P Q : A → S → Type 0) (r : Result (A × S))
      → ((a : A) (s : S) → P a s → Q a s)
      → Ensures P r
      → Ensures Q r
  Ensures-map P Q (ok (a, s)) f h = f a s h
  Ensures-map P Q (err e) f h = tt

  pub Ensures-ok :
      (P : A → S → Type 0) (r : Result (A × S)) (a : A) (s : S)
      → r ≡ ok (a, s)
      → Ensures P r
      → P a s
  Ensures-ok P r a s run h = subst (Ensures P) run h

pub Ensures-bind :
    {S A B : Type 0} (P : A → S → Type 0) (Q : B → S → Type 0) (r : Result (A × S))
    (f : A → Call S B)
    → Ensures P r
    → ((a : A) (s : S) → P a s → Ensures Q (f a s))
    → Ensures Q (elim r [ ok x ↦ f x.0 x.1 | err e ↦ err e ])
Ensures-bind P Q (ok (a, s)) f h g = g a s h
Ensures-bind P Q (err e) f h g = tt

pub Ensures-both :
    {S A : Type 0} (P Q R : A → S → Type 0) (r : Result (A × S))
    → ((a : A) (s : S) → P a s → Q a s → R a s)
    → Ensures P r
    → Ensures Q r
    → Ensures R r
Ensures-both P Q R (ok (a, s)) f g h = f a s g h
Ensures-both P Q R (err e) f g h = tt

-- `Ensures-bind` for a property with a parameter.
pub Ensures-all :
    {I S A B : Type 0} (P : I → A → S → Type 0) (Q : B → S → Type 0) (r : Result (A × S))
    (f : A → Call S B)
    → ((i : I) → Ensures (P i) r)
    → ((a : A) (s : S) → ((i : I) → P i a s) → Ensures Q (f a s))
    → Ensures Q (elim r [ ok x ↦ f x.0 x.1 | err e ↦ err e ])
Ensures-all P Q (ok (a, s)) f h g = g a s h
Ensures-all P Q (err e) f h g = tt

-- ===== src/Compliance/Decision/Precedence.antt =====
-- The decision on an address against the documented precedence
-- (contracts/compliance/README.md), and the batch against the single read.
use comebackhere_contracts.Prelude.{
  ℕ, ◌≤◌, ◌<◌, ◌≡◌, ◌↔◌, ◌⊎◌, sym, ◌∙◌, Bool, true, false, Option, none, some, List, [], ◌∷◌, ◌++◌,
  length, push_back, arith,
}
use mathlib.Core.List.{map, append_assoc, append-nil}
use comebackhere_contracts.Prelude.Int.{ℤ, ◌≤ℤ◌}
use comebackhere_contracts.Host.{Env, ok}
use comebackhere_contracts.Compliance.Storage.{State}
use comebackhere_contracts.Compliance.Guards.{max_batch_size}
use comebackhere_contracts.Compliance.Types.{AddressStatus}
use comebackhere_contracts.Compliance.Decision.{
  is_allowed_at, is_allowed, is_allowed_for_amount, check_each, status_each, address_status_at,
  bulk_check_addresses, bulk_get_address_status,
}

-- a time that is set and has come
abbrev pub IsOver : ℕ → Option ℕ → Type 0
IsOver now none = ⊥
IsOver now (some t) = t ≤ now

-- a time that is not set, or is still to come
abbrev pub IsAhead : ℕ → Option ℕ → Type 0
IsAhead now none = Unit
IsAhead now (some t) = now < t

-- no limit, or one that the amount does not exceed
abbrev pub IsWithin : ℤ → Option ℤ → Type 0
IsWithin amount none = Unit
IsWithin amount (some limit) = amount ≤ℤ limit

-- On the allowlist, not under a block that still holds, and not past the allowance's end.
pub record IsPermitted (s : State) (address now : ℕ) : Type 0 where
  pub listed : s.allowed address ≡ true
  pub unblocked : (s.blocked address ≡ false) ⊎ IsOver now (s.blocked_until address)
  pub current : IsAhead now (s.allowed_until address)

module _ {L : Type 0} (e : Env L) (s : State) where
  permitted : (address now : ℕ) → is_allowed_at s address now ≡ true → IsPermitted s address now
  unfolding is_allowed_at
  permitted address now h = ground arith

  allowed : (address now : ℕ) → IsPermitted s address now → is_allowed_at s address now ≡ true
  unfolding is_allowed_at
  allowed address now h = ground arith

  -- An address is allowed at a time exactly if it is on the allowlist, no block on it still holds at
  -- that time, and its allowance has no end or ends later.
  pub is_allowed_iff :
      (address now : ℕ) → (is_allowed_at s address now ≡ true) ↔ IsPermitted s address now
  is_allowed_iff address now = (permitted address now, allowed address now)

  -- An amount is allowed exactly if the address is, and the amount is within the limit of its tier.
  pub is_allowed_for_amount_iff :
      (address : ℕ) (amount : ℤ)
      → (is_allowed_for_amount e s address amount ≡ true)
        ↔ (IsPermitted s address e.now × IsWithin amount (s.tier_limit (s.tier address)))
  unfolding is_allowed_for_amount
  is_allowed_for_amount_iff address amount = (
    λ h. ground (arith, is_allowed_iff address e.now),
    λ h. ground (arith, is_allowed_iff address e.now),
  )

  check_each-append :
      (addresses : List ℕ) (results : List Bool)
      → check_each s e.now addresses results ≡ results ++ map (λ a. is_allowed e s a) addresses
  unfolding check_each is_allowed
  check_each-append [] results = sym (append-nil results)
  check_each-append (a ∷ rest) results =
      check_each-append rest (push_back results (is_allowed_at s a e.now))
      ∙ append_assoc results (is_allowed_at s a e.now ∷ [])
          (map (λ b. is_allowed_at s b e.now) rest)

  status_each-append :
      (addresses : List ℕ) (results : List AddressStatus)
      → status_each s e.now addresses results
        ≡ results ++ map (λ a. address_status_at s a e.now) addresses
  unfolding status_each
  status_each-append [] results = sym (append-nil results)
  status_each-append (a ∷ rest) results =
      status_each-append rest (push_back results (address_status_at s a e.now))
      ∙ append_assoc results (address_status_at s a e.now ∷ [])
          (map (λ b. address_status_at s b e.now) rest)

  -- For at most 50 addresses both batch reads succeed, change nothing and answer what the single
  -- reads answer, address by address and in the order of the input.
  pub bulk_reads_match :
      (addresses : List ℕ)
      → length addresses ≤ max_batch_size
      → (bulk_check_addresses e addresses s ≡ ok (map (λ a. is_allowed e s a) addresses, s))
        × (bulk_get_address_status e addresses s
            ≡ ok (map (λ a. address_status_at s a e.now) addresses, s))
  unfolding bulk_check_addresses bulk_get_address_status
  bulk_reads_match addresses few = (
    ground (arith, check_each-append addresses []),
    ground (arith, status_each-append addresses []),
  )

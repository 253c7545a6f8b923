-- ===== src/Compliance/Sweep/Effects.antt =====
-- What a sweep changes, and what it does not (contracts/compliance/src/lib.rs).
use comebackhere_contracts.Prelude.{
  ℕ, ◌+◌, ◌≤◌, ◌<◌, ◌≡◌, refl, true, false, none, some, List, [], ◌∷◌, contains, arith, ◌⊎◌, assign,
  remove,
}
use comebackhere_contracts.Host.{Env, Ensures}
use comebackhere_contracts.Compliance.Storage.{State}
use comebackhere_contracts.Compliance.Guards.{append_status_history, address_index}
use comebackhere_contracts.Compliance.Decision.{is_allowed_at}
use comebackhere_contracts.Compliance.Keeping.{require_admin_or_operator-Ensures}
use comebackhere_contracts.Compliance.Sweep.{has_lapsed, expire_one, sweep_each, sweep_expired}

module _ {L : Type 0} (e : Env L) (caller limit : ℕ) where
  expire_one-decision :
      (address : ℕ) (s : State) (a t : ℕ)
      → has_lapsed e.now s address ≡ true
      → e.now ≤ t
      → is_allowed_at (expire_one e caller limit address s) a t ≡ is_allowed_at s a t
  unfolding expire_one append_status_history is_allowed_at
  expire_one-decision address s a t lapsed later = ground arith

  sweep_each-decision :
      (index : List ℕ) (swept : ℕ) (s : State) (a t : ℕ)
      → e.now ≤ t
      → is_allowed_at (sweep_each e caller limit index swept s).1 a t ≡ is_allowed_at s a t
  unfolding sweep_each
  sweep_each-decision [] swept s a t later = refl
  sweep_each-decision (address ∷ rest) swept s a t later = ground (
    arith,
    sweep_each-decision rest swept s a t later,
    sweep_each-decision rest (swept + 1) (expire_one e caller limit address s) a t later,
    expire_one-decision address s a t,
  )

  sweep_each-bound :
      (index : List ℕ) (swept : ℕ) (s : State)
      → 0 < limit
      → swept ≤ limit
      → (sweep_each e caller limit index swept s).0 ≤ limit
  unfolding sweep_each
  sweep_each-bound [] swept s set room = room
  sweep_each-bound (address ∷ rest) swept s set room = ground (
    arith,
    sweep_each-bound rest swept s,
    sweep_each-bound rest (swept + 1) (expire_one e caller limit address s),
  )

  expire_one-fields :
      (address : ℕ) (s : State)
      → ((expire_one e caller limit address s).allowed ≡ assign address false s.allowed)
        × ((expire_one e caller limit address s).allowed_until ≡ remove address s.allowed_until)
  unfolding expire_one append_status_history
  expire_one-fields address s = (refl, refl)

  sweep_each-keeps :
      (index : List ℕ) (swept : ℕ) (s : State) (a : ℕ)
      → has_lapsed e.now s a ≡ false
      → ((sweep_each e caller limit index swept s).1.allowed a ≡ s.allowed a)
        × ((sweep_each e caller limit index swept s).1.allowed_until a ≡ s.allowed_until a)
  unfolding sweep_each
  sweep_each-keeps [] swept s a h = (refl, refl)
  sweep_each-keeps (address ∷ rest) swept s a h = ground (
    arith,
    h,
    sweep_each-keeps rest swept s a,
    sweep_each-keeps rest (swept + 1) (expire_one e caller limit address s) a,
    expire_one-fields address s,
  )

  sweep_each-clears :
      (index : List ℕ) (swept : ℕ) (s : State) (a : ℕ)
      → limit ≡ 0
      → contains index a ≡ true
      → has_lapsed e.now s a ≡ true
      → ((sweep_each e caller limit index swept s).1.allowed a ≡ false)
        × ((sweep_each e caller limit index swept s).1.allowed_until a ≡ none)
  unfolding sweep_each
  sweep_each-clears [] swept s a all listed h = ground arith
  sweep_each-clears (address ∷ rest) swept s a all listed h = ground (
    arith,
    h,
    sweep_each-clears rest swept s a,
    sweep_each-clears rest (swept + 1) (expire_one e caller limit address s) a,
    sweep_each-keeps rest (swept + 1) (expire_one e caller limit address s) a,
    expire_one-fields address s,
  )

  -- A successful sweep changes the decision on no address, neither now nor later.
  pub sweep_keeps_decisions :
      (s : State) (a t : ℕ)
      → e.now ≤ t
      → Ensures
          (λ _ s'. is_allowed_at s' a t ≡ is_allowed_at s a t)
          (sweep_expired e caller limit s)
  unfolding sweep_expired
  sweep_keeps_decisions s a t later = ground (
    arith,
    require_admin_or_operator-Ensures e caller s,
    sweep_each-decision (address_index s) 0 s a t later,
  )

  -- A successful sweep with a positive limit reports at most that many addresses.
  pub sweep_within_limit :
      (s : State) → 0 < limit → Ensures (λ swept _. swept ≤ limit) (sweep_expired e caller limit s)
  unfolding sweep_expired
  sweep_within_limit s set =
      ground (
        arith,
        require_admin_or_operator-Ensures e caller s,
        sweep_each-bound (address_index s) 0 s,
      )

  -- Let a successful sweep have no limit. An address of the index that was on the allowlist until a
  -- time which is now reached is off the allowlist and has no expiry. An address whose allowance has
  -- no expiry, or one that is later than now, is on the allowlist exactly if it was, with the
  -- same expiry.
  pub sweep_complete :
      (s : State) (a t b : ℕ)
      → limit ≡ 0
      → contains (address_index s) a ≡ true
      → s.allowed a ≡ true
      → s.allowed_until a ≡ some t
      → t ≤ e.now
      → (s.allowed_until b ≡ none) ⊎ ((u : ℕ) × (s.allowed_until b ≡ some u) × (e.now < u))
      → Ensures
          (λ _ s'.
            (s'.allowed a ≡ false)
            × (s'.allowed_until a ≡ none)
            × (s'.allowed b ≡ s.allowed b)
            × (s'.allowed_until b ≡ s.allowed_until b))
          (sweep_expired e caller limit s)
  unfolding sweep_expired
  sweep_complete s a t b all listed on until reached current = ground (
    arith,
    require_admin_or_operator-Ensures e caller s,
    sweep_each-clears (address_index s) 0 s a all listed,
    sweep_each-keeps (address_index s) 0 s b,
    on,
    until,
    current,
  )

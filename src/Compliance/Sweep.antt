-- ===== src/Compliance/Sweep.antt =====
-- The sweep over lapsed allowances (contracts/compliance/src/lib.rs).
pub mod Effects
use comebackhere_contracts.Prelude.{
  ℕ, ◌+◌, ◌-◌, Bool, true, false, ◌&&◌, List, [], ◌∷◌, remove, assign, ltb, leb, if◌then◌else◌,
}
use comebackhere_contracts.Host.{Env, Call, ◌>>=◌, ◌>>◌, pure, gets, modify}
use comebackhere_contracts.Compliance.Types.{AddressState}
use comebackhere_contracts.Compliance.Storage.{State, Event}
use comebackhere_contracts.Compliance.Guards.{
  require_admin_or_operator, append_status_history, address_index,
}
use comebackhere_contracts.Compliance.Decision.{has_passed}

-- an allowance that has run out
abbrev pub has_lapsed : ℕ → State → ℕ → Bool
has_lapsed now s address = s.allowed address && has_passed now (s.allowed_until address)

module _ {L : Type 0} (e : Env L) (caller limit : ℕ) where
  unfoldable pub expire_one : ℕ → State → State
  expire_one address s =
      record (append_status_history e address AddressState.expired caller (record s {
        allowed = assign address false s.allowed;
        allowed_until = remove address s.allowed_until;
        allow_count = s.allow_count - 1;
      })) { events = Event.address_allow_expired address ∷ s.events }

  -- The loop over the index, with `swept` as its variable.
  unfoldable pub sweep_each : List ℕ → ℕ → State → ℕ × State
  sweep_each [] swept s = (swept, s)
  sweep_each (address ∷ rest) swept s =
      let next = sweep_each rest (swept + 1) (expire_one address s) in
      let skip = sweep_each rest swept s in
      if ltb 0 limit && leb limit swept
      then (swept, s)
      else if has_lapsed e.now s address
      then next
      else skip

  unfoldable pub sweep_expired : Call State ℕ
  sweep_expired = do
    require_admin_or_operator e caller
    index ← gets address_index
    swept ← gets (λ s. sweep_each index 0 s)
    modify (λ s. swept.1)
    pure swept.0

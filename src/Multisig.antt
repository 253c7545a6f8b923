-- ===== src/Multisig.antt =====
-- The quorum primitives of crates/multisig/src/lib.rs.
pub mod Types
pub mod Storage
pub mod Approvals
use comebackhere_contracts.Prelude.{
  ℕ, ◌+◌, ◌-◌, ◌^◌, Bool, true, false, ◌||◌, List, Option, none, some, get_or, put, contains,
  push_back, remove_first, ltb, leb, ◌==◌, if◌then◌else◌,
}
use comebackhere_contracts.Errors.{unauthorized_signer, weight_overflow, arithmetic_overflow}
use comebackhere_contracts.Host.{
  Env, Call, ◌>>=◌, ◌>>◌, pure, gets, modify, fail, fail_if, panic_if, require_auth,
}
use Types.{ApprovalExpiry}
use Storage.{State}

module _ {L : Type 0} where
  unfoldable pub signer_weight : State L → ℕ → ℕ
  signer_weight s signer = get_or (s.signer signer) 0

  unfoldable pub require_authorized_signer : Env L → ℕ → Call (State L) (Unit {0})
  unfolding signer_weight
  require_authorized_signer e signer = do
    require_auth e signer
    weight ← gets (λ s. signer_weight s signer)
    fail_if (weight == 0) unauthorized_signer

  abbrev touch : Env L → ℕ → State L → State L
  touch e signer s = record s { signer_last_active = put signer e.now s.signer_last_active }

  abbrev add_approval : List ℕ → ℕ → ℕ → ℕ → Call (State L) (List ℕ × ℕ)
  add_approval approvals weight signer signer_has =
      if contains approvals signer
      then pure (approvals, weight)
      else (fail_if (leb (2 ^ 32) (weight + signer_has)) weight_overflow
          >> pure (push_back approvals signer, weight + signer_has))

  -- The `&mut` accumulators `approvals` and `weight` are returned.
  unfoldable pub record_approval : Env L → List ℕ → ℕ → ℕ → Call (State L) (List ℕ × ℕ)
  unfolding signer_weight
  record_approval e approvals weight signer = do
    signer_has ← gets (λ s. signer_weight s signer)
    recorded ← add_approval approvals weight signer signer_has
    modify (touch e signer)
    pure recorded

  -- `none` where the signer has not approved. The subtraction saturates at zero, as on ℕ.
  unfoldable pub revoke_approval : State L → List ℕ → ℕ → ℕ → Option (List ℕ × ℕ)
  unfolding signer_weight
  revoke_approval s approvals weight signer =
      if contains approvals signer
      then some (remove_first approvals signer, weight - signer_weight s signer)
      else none

  unfoldable pub approval_expiry : Env L → ℕ → ℕ → Call (State L) ApprovalExpiry
  approval_expiry e signer ttl_seconds =
      if ttl_seconds == 0
      then pure (record { signer = signer; approved_at = e.now; expires_at = 0 })
      else (fail_if (leb (2 ^ 64) (e.now + ttl_seconds)) arithmetic_overflow
          >> pure
              (record { signer = signer; approved_at = e.now; expires_at = e.now + ttl_seconds }))

  unfoldable pub approval_is_active : Env L → ApprovalExpiry → Bool
  approval_is_active e approval = approval.expires_at == 0 || leb e.now approval.expires_at

unfoldable pub meets_threshold : ℕ → ℕ → Bool
meets_threshold weight threshold = leb threshold weight

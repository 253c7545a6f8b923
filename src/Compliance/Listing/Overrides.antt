-- ===== src/Compliance/Listing/Overrides.antt =====
-- Blocks that are replaced by later blocks (contracts/compliance/src/lib.rs).
use comebackhere_contracts.Prelude.{ℕ, ◌≤◌, ◌≡◌, ◌≢◌, true, false, none, some, Option, arith}
use comebackhere_contracts.Errors.{compliance_error}
use comebackhere_contracts.Errors.Compliance.{ComplianceError}
use comebackhere_contracts.Host.{Env, err, Ensures, succeeds, ◌>>◌}
use comebackhere_contracts.Compliance.Types.{BlockReason}
use comebackhere_contracts.Compliance.Storage.{State}
use comebackhere_contracts.Compliance.Guards.{
  is_admin, record_block_placer, append_status_history, add_tracked, track_address,
  require_admin_or_operator,
}
use comebackhere_contracts.Compliance.Decision.{is_allowed_at}
use comebackhere_contracts.Compliance.Listing.{
  block_address, clear_address, cleared, block_placer, require_operator_placed_block,
}
use comebackhere_contracts.Compliance.Permissions.{is_staff}

module _ {L : Type 0} (e : Env L) (address : ℕ) where
  -- If a timed block on a listed address with no end to its allowance has run out, a block without
  -- a time on it has no effect: the old end stays, so the address is still allowed afterwards.
  pub late_block_has_no_effect :
      (caller t : ℕ) (reason : Option BlockReason) (s : State)
      → s.allowed address ≡ true
      → s.allowed_until address ≡ none
      → s.blocked_until address ≡ some t
      → t ≤ e.now
      → Ensures
          (λ done after.
            (after.blocked address ≡ true) × (is_allowed_at after address e.now ≡ true))
          (block_address e caller address reason s)
  unfolding block_address is_allowed_at record_block_placer append_status_history track_address
      add_tracked require_admin_or_operator
  late_block_has_no_effect caller t reason s listed endless timed over = ground arith

  -- An operator who is not the administrator cannot clear a block that another address has placed.
  pub operators_keep_others_blocks :
      (operator placer : ℕ) (s : State)
      → is_admin s operator ≡ false
      → e.signed operator ≡ true
      → is_staff s operator ≡ true
      → s.blocked address ≡ true
      → s.blocked_by address ≡ some placer
      → placer ≢ operator
      → clear_address e operator address s
        ≡ err (compliance_error ComplianceError.operator_cannot_clear_admin_block)
  unfolding clear_address block_placer require_operator_placed_block require_admin_or_operator
      is_admin
  operators_keep_others_blocks operator placer s plain signed staff blocked placed other =
      ground arith

  -- On a tracked address, an operator who first blocks it anew, whoever had blocked it before, and
  -- then clears it succeeds with both calls, and the address is allowed from then on.
  pub operator_lifts_any_block :
      (operator : ℕ) (reason : Option BlockReason) (s : State) (later : ℕ)
      → e.signed operator ≡ true
      → is_staff s operator ≡ true
      → s.addr_tracked address ≡ true
      → (succeeds ((block_address e operator address reason >> clear_address e operator address) s)
          ≡ true)
        × Ensures
            (λ done after. is_allowed_at after address later ≡ true)
            ((block_address e operator address reason >> clear_address e operator address) s)
  unfolding block_address clear_address cleared is_allowed_at record_block_placer
      append_status_history track_address require_admin_or_operator is_admin block_placer
      require_operator_placed_block
  operator_lifts_any_block operator reason s later signed staff tracked = ground arith

-- ===== src/Compliance/Keeping/Listing.antt =====
-- Allowing, blocking and clearing.
use comebackhere_contracts.Prelude.{ℕ, Option, arith}
use comebackhere_contracts.Host.{Env}
use comebackhere_contracts.Compliance.Types.{AddressState, BlockReason}
use comebackhere_contracts.Compliance.Guards.{
  popped, add_tracked, append_status_history, track_address, record_block_placer,
}
use comebackhere_contracts.Compliance.Index.{add_tracked-IsIndex}
use comebackhere_contracts.Compliance.Keeping.{
  length-popped, length-push_back, Keeps, require_admin-Ensures, require_admin_or_operator-Ensures,
  require_not_paused-Ensures,
}
use comebackhere_contracts.Compliance.Listing.{
  allow_one, allow_address, allow_address_with_tier, allow_address_until, block_address,
  block_address_until, clear_address, revoke_allow, mark_allowed, cleared,
  require_operator_placed_block,
}

module _ {L : Type 0} (e : Env L) where
  pub allow_address-Keeps : (admin address : ℕ) → Keeps (allow_address e admin address)
  unfolding allow_address allow_one mark_allowed append_status_history track_address add_tracked
  allow_address-Keeps admin address s k h = ground (
    arith,
    require_admin-Ensures e admin s,
    require_not_paused-Ensures s,
    h,
    length-popped (s.status_history address),
    length-push_back (popped (s.status_history address))
        (record { status = AddressState.allowed; timestamp = e.now; actor = admin }),
    add_tracked-IsIndex s.addr_index_page s.addr_tracked s.addr_index_count address h.0,
  )

  pub allow_address_with_tier-Keeps :
      (admin address tier : ℕ) → Keeps (allow_address_with_tier e admin address tier)
  unfolding allow_address_with_tier mark_allowed append_status_history track_address add_tracked
  allow_address_with_tier-Keeps admin address tier s k h = ground (
    arith,
    require_admin-Ensures e admin s,
    require_not_paused-Ensures s,
    h,
    length-popped (s.status_history address),
    length-push_back (popped (s.status_history address))
        (record { status = AddressState.allowed; timestamp = e.now; actor = admin }),
    add_tracked-IsIndex s.addr_index_page s.addr_tracked s.addr_index_count address h.0,
  )

  pub allow_address_until-Keeps :
      (admin address expires_at : ℕ) → Keeps (allow_address_until e admin address expires_at)
  unfolding allow_address_until append_status_history track_address add_tracked
  allow_address_until-Keeps admin address expires_at s k h = ground (
    arith,
    require_admin-Ensures e admin s,
    require_not_paused-Ensures s,
    h,
    length-popped (s.status_history address),
    length-push_back (popped (s.status_history address))
        (record { status = AddressState.allowed; timestamp = e.now; actor = admin }),
    add_tracked-IsIndex s.addr_index_page s.addr_tracked s.addr_index_count address h.0,
  )

  pub block_address-Keeps :
      (caller address : ℕ) (reason : Option BlockReason)
      → Keeps (block_address e caller address reason)
  unfolding block_address record_block_placer append_status_history track_address add_tracked
  block_address-Keeps caller address reason s k h = ground (
    arith,
    require_admin_or_operator-Ensures e caller s,
    h,
    length-popped (s.status_history address),
    length-push_back (popped (s.status_history address))
        (record { status = AddressState.blocked; timestamp = e.now; actor = caller }),
    add_tracked-IsIndex s.addr_index_page s.addr_tracked s.addr_index_count address h.0,
  )

  pub block_address_until-Keeps :
      (caller address unblock_at : ℕ) (reason : Option BlockReason)
      → Keeps (block_address_until e caller address unblock_at reason)
  unfolding block_address_until record_block_placer append_status_history track_address add_tracked
  block_address_until-Keeps caller address unblock_at reason s k h = ground (
    arith,
    require_admin_or_operator-Ensures e caller s,
    h,
    length-popped (s.status_history address),
    length-push_back (popped (s.status_history address))
        (record { status = AddressState.blocked; timestamp = e.now; actor = caller }),
    add_tracked-IsIndex s.addr_index_page s.addr_tracked s.addr_index_count address h.0,
  )

  pub clear_address-Keeps : (caller address : ℕ) → Keeps (clear_address e caller address)
  unfolding clear_address cleared require_operator_placed_block append_status_history track_address
      add_tracked
  clear_address-Keeps caller address s k h = ground (
    arith,
    require_admin_or_operator-Ensures e caller s,
    h,
    length-popped (s.status_history address),
    length-push_back (popped (s.status_history address))
        (record { status = AddressState.allowed; timestamp = e.now; actor = caller }),
    add_tracked-IsIndex s.addr_index_page s.addr_tracked s.addr_index_count address h.0,
  )

  pub revoke_allow-Keeps : (admin address : ℕ) → Keeps (revoke_allow e admin address)
  unfolding revoke_allow append_status_history track_address add_tracked
  revoke_allow-Keeps admin address s k h = ground (
    arith,
    require_admin-Ensures e admin s,
    require_not_paused-Ensures s,
    h,
    length-popped (s.status_history address),
    length-push_back (popped (s.status_history address))
        (record { status = AddressState.blocked; timestamp = e.now; actor = admin }),
    add_tracked-IsIndex s.addr_index_page s.addr_tracked s.addr_index_count address h.0,
  )

-- ===== src/Compliance/Keeping/Others.antt =====
-- Batches, the sweep and the roles.
use comebackhere_contracts.Prelude.{
  ℕ, ◌+◌, List, [], ◌∷◌, arith, length, without, push_back-Distinct, without-Distinct, ◌≤◌, put,
}
use comebackhere_contracts.Prelude.Int.{ℤ}
use comebackhere_contracts.Host.{Env}
use comebackhere_contracts.Compliance.Types.{AddressState}
use comebackhere_contracts.Compliance.Storage.{State}
use comebackhere_contracts.Compliance.Guards.{
  popped, add_tracked, append_status_history, track_address, record_block_placer,
  check_bulk_allow_cooldown, check_bulk_block_cooldown,
}
use comebackhere_contracts.Compliance.Index.{add_tracked-IsIndex}
use comebackhere_contracts.Compliance.Keeping.{
  length-popped, length-push_back, IsSound, Keeps, Keeps-bind, require_admin-Ensures,
  require_admin_or_operator-Ensures, require_not_paused-Ensures,
}
use comebackhere_contracts.Compliance.Listing.{
  allow_one, allow_each, bulk_allow_addresses, block_one, block_each, bulk_block_addresses,
  mark_allowed,
}
use comebackhere_contracts.Compliance.Sweep.{expire_one, sweep_each, sweep_expired}
use comebackhere_contracts.Compliance.Guards.{address_index}
use comebackhere_contracts.Compliance.Roles.{
  set_tier_limit, set_jurisdiction, migrate, transfer_admin, cancel_admin_transfer, accept_admin,
  pause_with_reason, pause, unpause, set_blocklist_root, set_operator, add_operator,
  remove_operator,
}

-- Removing an operator shortens the list.
length-without : (xs : List ℕ) (a : ℕ) → length (without xs a) ≤ length xs
length-without [] a = omega arith
length-without (x ∷ xs) a = ground (arith, length-without xs a)

module _ {L : Type 0} (e : Env L) where
  allow_one-Keeps : (admin address : ℕ) → Keeps (allow_one e admin address)
  unfolding allow_one mark_allowed append_status_history track_address add_tracked
  allow_one-Keeps admin address s k h = ground (
    arith,
    h,
    length-popped (s.status_history address),
    length-push_back (popped (s.status_history address))
        (record { status = AddressState.allowed; timestamp = e.now; actor = admin }),
    add_tracked-IsIndex s.addr_index_page s.addr_tracked s.addr_index_count address h.0,
  )

  block_one-Keeps : (admin address : ℕ) → Keeps (block_one e admin address)
  unfolding block_one record_block_placer append_status_history track_address add_tracked
  block_one-Keeps admin address s k h = ground (
    arith,
    h,
    length-popped (s.status_history address),
    length-push_back (popped (s.status_history address))
        (record { status = AddressState.blocked; timestamp = e.now; actor = admin }),
    add_tracked-IsIndex s.addr_index_page s.addr_tracked s.addr_index_count address h.0,
  )

  allow_each-Keeps : (admin : ℕ) (addresses : List ℕ) → Keeps (allow_each e admin addresses)
  unfolding allow_each
  allow_each-Keeps admin [] s k h = h
  allow_each-Keeps admin (address ∷ rest) s k h =
      Keeps-bind k (allow_one e admin address s) _ (allow_one-Keeps admin address s k h)
        λ _. allow_each-Keeps admin rest

  block_each-Keeps : (admin : ℕ) (addresses : List ℕ) → Keeps (block_each e admin addresses)
  unfolding block_each
  block_each-Keeps admin [] s k h = h
  block_each-Keeps admin (address ∷ rest) s k h =
      Keeps-bind k (block_one e admin address s) _ (block_one-Keeps admin address s k h)
        λ _. block_each-Keeps admin rest

  pub bulk_allow_addresses-Keeps :
      (admin : ℕ) (addresses : List ℕ) → Keeps (bulk_allow_addresses e admin addresses)
  unfolding bulk_allow_addresses check_bulk_allow_cooldown
  bulk_allow_addresses-Keeps admin addresses s k h = ground (
    arith,
    require_admin-Ensures e admin s,
    require_not_paused-Ensures s,
    allow_each-Keeps admin addresses
        (record s { last_bulk_allow = put admin e.now s.last_bulk_allow }) k h,
  )

  pub bulk_block_addresses-Keeps :
      (admin : ℕ) (addresses : List ℕ) → Keeps (bulk_block_addresses e admin addresses)
  unfolding bulk_block_addresses check_bulk_block_cooldown
  bulk_block_addresses-Keeps admin addresses s k h = ground (
    arith,
    require_admin-Ensures e admin s,
    block_each-Keeps admin addresses
        (record s { last_bulk_block = put admin e.now s.last_bulk_block }) k h,
  )

  expire_one-IsSound :
      (caller limit address : ℕ) (s : State) (k : ℕ)
      → IsSound s k
      → IsSound (expire_one e caller limit address s) k
  unfolding expire_one append_status_history
  expire_one-IsSound caller limit address s k h = ground (
    arith,
    h,
    length-popped (s.status_history address),
    length-push_back (popped (s.status_history address))
        (record { status = AddressState.expired; timestamp = e.now; actor = caller }),
  )

  sweep_each-IsSound :
      (caller limit : ℕ) (index : List ℕ) (swept : ℕ) (s : State) (k : ℕ)
      → IsSound s k
      → IsSound (sweep_each e caller limit index swept s).1 k
  unfolding sweep_each
  sweep_each-IsSound caller limit [] swept s k h = h
  sweep_each-IsSound caller limit (address ∷ rest) swept s k h = ground (
    arith,
    h,
    sweep_each-IsSound caller limit rest swept s k h,
    sweep_each-IsSound caller limit rest (swept + 1) (expire_one e caller limit address s) k
        (expire_one-IsSound caller limit address s k h),
  )

  pub sweep_expired-Keeps : (caller limit : ℕ) → Keeps (sweep_expired e caller limit)
  unfolding sweep_expired
  sweep_expired-Keeps caller limit s k h = ground (
    arith,
    require_admin_or_operator-Ensures e caller s,
    sweep_each-IsSound caller limit (address_index s) 0 s k h,
  )

  pub set_tier_limit-Keeps :
      (admin tier : ℕ) (limit : ℤ) → Keeps (set_tier_limit e admin tier limit)
  unfolding set_tier_limit
  set_tier_limit-Keeps admin tier limit s k h = ground (arith, require_admin-Ensures e admin s, h)

  pub set_jurisdiction-Keeps :
      (admin address : ℕ) (code : List ℕ) → Keeps (set_jurisdiction e admin address code)
  unfolding set_jurisdiction
  set_jurisdiction-Keeps admin address code s k h =
      ground (arith, require_admin-Ensures e admin s, h)

  pub migrate-Keeps : (admin : ℕ) → Keeps (migrate e admin)
  unfolding migrate
  migrate-Keeps admin s k h = ground (arith, require_admin-Ensures e admin s, h)

  pub transfer_admin-Keeps : (admin new_admin : ℕ) → Keeps (transfer_admin e admin new_admin)
  unfolding transfer_admin
  transfer_admin-Keeps admin new_admin s k h = ground (arith, require_admin-Ensures e admin s, h)

  pub cancel_admin_transfer-Keeps : (admin : ℕ) → Keeps (cancel_admin_transfer e admin)
  unfolding cancel_admin_transfer
  cancel_admin_transfer-Keeps admin s k h = ground (arith, require_admin-Ensures e admin s, h)

  pub pause_with_reason-Keeps :
      (admin : ℕ) (reason : List ℕ) → Keeps (pause_with_reason e admin reason)
  unfolding pause_with_reason
  pause_with_reason-Keeps admin reason s k h = ground (arith, require_admin-Ensures e admin s, h)

  pub pause-Keeps : (admin : ℕ) → Keeps (pause e admin)
  unfolding pause pause_with_reason
  pause-Keeps admin s k h = ground (arith, require_admin-Ensures e admin s, h)

  pub unpause-Keeps : (admin : ℕ) → Keeps (unpause e admin)
  unfolding unpause
  unpause-Keeps admin s k h = ground (arith, require_admin-Ensures e admin s, h)

  pub set_blocklist_root-Keeps :
      (admin : ℕ) (root : List ℕ) → Keeps (set_blocklist_root e admin root)
  unfolding set_blocklist_root
  set_blocklist_root-Keeps admin root s k h = ground (arith, require_admin-Ensures e admin s, h)

  pub set_operator-Keeps : (admin operator : ℕ) → Keeps (set_operator e admin operator)
  unfolding set_operator
  set_operator-Keeps admin operator s k h = ground (arith, require_admin-Ensures e admin s, h)

  pub add_operator-Keeps : (admin operator : ℕ) → Keeps (add_operator e admin operator)
  unfolding add_operator
  add_operator-Keeps admin operator s k h = ground (
    arith,
    require_admin-Ensures e admin s,
    h,
    push_back-Distinct s.operators operator,
    length-push_back s.operators operator,
  )

  pub remove_operator-Keeps : (admin operator : ℕ) → Keeps (remove_operator e admin operator)
  unfolding remove_operator
  remove_operator-Keeps admin operator s k h = ground (
    arith,
    require_admin-Ensures e admin s,
    h,
    without-Distinct s.operators operator,
    length-without s.operators operator,
  )

  pub accept_admin-Keeps : (new_admin : ℕ) → Keeps (accept_admin e new_admin)
  unfolding accept_admin
  accept_admin-Keeps new_admin s k h = ground (arith, h)

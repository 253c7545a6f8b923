-- ===== src/Compliance/Histories.antt =====
-- What holds of the compliance contract after any calls, failed ones included.
use comebackhere_contracts.Prelude.{
  ℕ, ◌≤◌, ◌≡◌, ◌||◌, not, true, List, [], ◌∷◌, length, contains, Distinct, arith,
}
use mathlib.Core.Path.{subst}
use comebackhere_contracts.Host.{Env, Call, Result, ok, err, Ensures, pure, ◌>>◌}
use comebackhere_contracts.Compliance.Storage.{State}
use comebackhere_contracts.Compliance.Guards.{
  address_index, max_tracked_addresses, max_status_history,
}
use comebackhere_contracts.Compliance.Roles.{initialize, max_operators}
use comebackhere_contracts.Compliance.Machine.{Op, call, step, run, deployed}
use comebackhere_contracts.Compliance.Index.{empty-IsIndex}
use comebackhere_contracts.Compliance.Keeping.{IsSound, Keeps}
use comebackhere_contracts.Compliance.Keeping.Listing.{
  allow_address-Keeps, allow_address_with_tier-Keeps, allow_address_until-Keeps,
  block_address-Keeps, block_address_until-Keeps, clear_address-Keeps, revoke_allow-Keeps,
}
use comebackhere_contracts.Compliance.Keeping.Others.{
  bulk_allow_addresses-Keeps, bulk_block_addresses-Keeps, sweep_expired-Keeps, set_tier_limit-Keeps,
  set_jurisdiction-Keeps, migrate-Keeps, transfer_admin-Keeps, cancel_admin_transfer-Keeps,
  accept_admin-Keeps, pause_with_reason-Keeps, pause-Keeps, unpause-Keeps, set_blocklist_root-Keeps,
  set_operator-Keeps, add_operator-Keeps, remove_operator-Keeps,
}

-- The value that a call returns does not matter.
dropped-Keeps : {A : Type 0} (m : Call State A) → Keeps m → Keeps (m >> pure tt)
dropped-Keeps {A} m h s k sound = drop (m s) (h s k sound)
  where
    drop :
        (r : Result (A × State))
        → Ensures (λ _ s'. IsSound s' k) r
        → Ensures (λ _ s'. IsSound s' k) (elim r [ ok x ↦ ok (tt, x.1) | err e ↦ err e ])
    drop (ok x) j = j
    drop (err e) j = tt

module _ {L : Type 0} where
  call-Keeps : (e : Env L) (op : Op) → Keeps (call e op)
  unfolding call
  call-Keeps e (Op.allow_address admin address) = allow_address-Keeps e admin address
  call-Keeps e (Op.revoke_allow admin address) = revoke_allow-Keeps e admin address
  call-Keeps e (Op.bulk_allow_addresses admin addresses) =
      bulk_allow_addresses-Keeps e admin addresses
  call-Keeps e (Op.bulk_block_addresses admin addresses) =
      bulk_block_addresses-Keeps e admin addresses
  call-Keeps e (Op.allow_address_with_tier admin address tier) =
      allow_address_with_tier-Keeps e admin address tier
  call-Keeps e (Op.allow_address_until admin address expires_at) =
      allow_address_until-Keeps e admin address expires_at
  call-Keeps e (Op.block_address caller address reason) =
      block_address-Keeps e caller address reason
  call-Keeps e (Op.block_address_until caller address unblock_at reason) =
      block_address_until-Keeps e caller address unblock_at reason
  call-Keeps e (Op.clear_address caller address) = clear_address-Keeps e caller address
  call-Keeps e (Op.sweep_expired caller limit) =
      dropped-Keeps _ (sweep_expired-Keeps e caller limit)
  call-Keeps e (Op.set_tier_limit admin tier limit) = set_tier_limit-Keeps e admin tier limit
  call-Keeps e (Op.set_jurisdiction admin address code) =
      set_jurisdiction-Keeps e admin address code
  call-Keeps e (Op.transfer_admin admin new_admin) = transfer_admin-Keeps e admin new_admin
  call-Keeps e (Op.set_operator admin operator) = set_operator-Keeps e admin operator
  call-Keeps e (Op.add_operator admin operator) = add_operator-Keeps e admin operator
  call-Keeps e (Op.remove_operator admin operator) = remove_operator-Keeps e admin operator
  call-Keeps e (Op.migrate admin) = dropped-Keeps _ (migrate-Keeps e admin)
  call-Keeps e (Op.cancel_admin_transfer admin) = cancel_admin_transfer-Keeps e admin
  call-Keeps e (Op.accept_admin new_admin) = accept_admin-Keeps e new_admin
  call-Keeps e (Op.pause admin) = pause-Keeps e admin
  call-Keeps e (Op.unpause admin) = unpause-Keeps e admin
  call-Keeps e (Op.pause_with_reason admin reason) = pause_with_reason-Keeps e admin reason
  call-Keeps e (Op.set_blocklist_root admin root) = set_blocklist_root-Keeps e admin root

  step-IsSound : (e : Env L) (op : Op) (s : State) (k : ℕ) → IsSound s k → IsSound (step e op s) k
  unfolding step
  step-IsSound e op s k h = outcome (call e op s) (call-Keeps e op s k h)
    where
      outcome :
          (r : Result (Unit {0} × State))
          → Ensures (λ _ s'. IsSound s' k) r
          → IsSound (elim r [ ok x ↦ x.1 | err f ↦ s ]) k
      outcome (ok x) j = j
      outcome (err f) j = h

  run-IsSound :
      (calls : List (Env L × Op)) (s : State) (k : ℕ) → IsSound s k → IsSound (run calls s) k
  unfolding run
  run-IsSound [] s k h = h
  run-IsSound ((e, op) ∷ rest) s k h = run-IsSound rest (step e op s) k (step-IsSound e op s k h)

  initialize-IsSound :
      (e : Env L) (admin k : ℕ) → Ensures (λ _ s. IsSound s k) (initialize e admin deployed)
  unfolding initialize
  initialize-IsSound e admin k = ground (arith, empty-IsIndex)

  -- After `initialize` on a fresh contract and any calls: the pages of the address index make up a
  -- list of `AddrIndexCount`, at most 2000, different addresses, which holds exactly the tracked ones;
  -- an address that is allowed or blocked is in it; the log of each address has at most ten entries;
  -- and the operators are at most ten different addresses.
  pub compliance_run_sound :
      (e : Env L) (admin : ℕ) (calls : List (Env L × Op)) (s : State) (k : ℕ)
      → initialize e admin deployed ≡ ok (tt, s)
      → let t = run calls s in
        Distinct (address_index t)
        × (contains (address_index t) k ≡ t.addr_tracked k)
        × (length (address_index t) ≡ t.addr_index_count)
        × (t.addr_index_count ≤ max_tracked_addresses)
        × ((contains (address_index t) k || not (t.allowed k || t.blocked k)) ≡ true)
        × (length (t.status_history k) ≤ max_status_history)
        × Distinct t.operators
        × (length t.operators ≤ max_operators)
  unfolding address_index
  compliance_run_sound e admin calls s k init =
      let base : IsSound s k =
        subst (λ r. Ensures (λ _ t. IsSound t k) r) init (initialize-IsSound e admin k) in
      let h = run-IsSound calls s k base in
      (
        h.0.distinct,
        h.0.member k,
        h.0.size,
        h.0.bounded,
        ground (arith, h.0.member k, h),
        h.1,
        h.3,
        h.2,
      )

  -- After `initialize` on a fresh contract and any calls, `BlockCount` is zero, whatever was blocked:
  -- no entrypoint increments it.
  pub block_count_stays_zero :
      (e : Env L) (admin : ℕ) (calls : List (Env L × Op)) (s : State)
      → initialize e admin deployed ≡ ok (tt, s)
      → (run calls s).block_count ≡ 0
  block_count_stays_zero e admin calls s init =
      let base : IsSound s 0 =
        subst (λ r. Ensures (λ _ t. IsSound t 0) r) init (initialize-IsSound e admin 0) in
      (run-IsSound calls s 0 base).5

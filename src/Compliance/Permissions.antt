-- ===== src/Compliance/Permissions.antt =====
-- Who may call what (contracts/compliance/src/lib.rs).
use comebackhere_contracts.Prelude.{
  ℕ, ◌≡◌, refl, true, false, Bool, ◌||◌, ◌&&◌, List, [], ◌∷◌, contains, arith, ◌∙◌, ap,
}
use comebackhere_contracts.Host.{Env, Result, ok, err, Ensures}
use comebackhere_contracts.Compliance.Storage.{State}
use comebackhere_contracts.Compliance.Guards.{holds}
use comebackhere_contracts.Compliance.Keeping.{
  require_admin-Ensures, require_admin_or_operator-Ensures,
}
use comebackhere_contracts.Compliance.Listing
use comebackhere_contracts.Compliance.Sweep
use comebackhere_contracts.Compliance.Roles
use comebackhere_contracts.Compliance.Machine.{Op, call, step, run}

-- the address that a call names as its caller
abbrev pub caller_of : Op → ℕ
caller_of (Op.allow_address admin address) = admin
caller_of (Op.revoke_allow admin address) = admin
caller_of (Op.bulk_allow_addresses admin addresses) = admin
caller_of (Op.bulk_block_addresses admin addresses) = admin
caller_of (Op.allow_address_with_tier admin address tier) = admin
caller_of (Op.allow_address_until admin address expires_at) = admin
caller_of (Op.block_address caller address reason) = caller
caller_of (Op.block_address_until caller address unblock_at reason) = caller
caller_of (Op.clear_address caller address) = caller
caller_of (Op.sweep_expired caller limit) = caller
caller_of (Op.set_tier_limit admin tier limit) = admin
caller_of (Op.set_jurisdiction admin address code) = admin
caller_of (Op.transfer_admin admin new_admin) = admin
caller_of (Op.set_operator admin operator) = admin
caller_of (Op.add_operator admin operator) = admin
caller_of (Op.remove_operator admin operator) = admin
caller_of (Op.migrate admin) = admin
caller_of (Op.cancel_admin_transfer admin) = admin
caller_of (Op.accept_admin new_admin) = new_admin
caller_of (Op.pause admin) = admin
caller_of (Op.unpause admin) = admin
caller_of (Op.pause_with_reason admin reason) = admin
caller_of (Op.set_blocklist_root admin root) = admin

abbrev pub is_staff : State → ℕ → Bool
is_staff s a = holds s.admin a || contains s.operators a || holds s.operator a

-- Blocking, clearing and sweeping are open to operators, the acceptance of the role to the nominee,
-- all else to the administrator.
abbrev pub may_call : State → Op → Bool
may_call s (Op.block_address caller address reason) = is_staff s caller
may_call s (Op.block_address_until caller address unblock_at reason) = is_staff s caller
may_call s (Op.clear_address caller address) = is_staff s caller
may_call s (Op.sweep_expired caller limit) = is_staff s caller
may_call s (Op.accept_admin new_admin) = holds s.pending_admin new_admin
may_call s op = holds s.admin (caller_of op)

module _ {L : Type 0} where
  call-may_call :
      (e : Env L) (op : Op) (s : State)
      → Ensures (λ _ _. (e.signed (caller_of op) ≡ true) × (may_call s op ≡ true)) (call e op s)
  unfolding call Listing.allow_address Listing.revoke_allow Listing.bulk_allow_addresses
      Listing.bulk_block_addresses Listing.allow_address_with_tier Listing.allow_address_until
      Listing.block_address Listing.block_address_until Listing.clear_address Sweep.sweep_expired
      Roles.set_tier_limit Roles.set_jurisdiction Roles.transfer_admin Roles.set_operator
      Roles.add_operator Roles.remove_operator Roles.migrate Roles.cancel_admin_transfer
      Roles.accept_admin Roles.pause Roles.unpause Roles.pause_with_reason Roles.set_blocklist_root
  call-may_call e (Op.allow_address admin address) s =
      ground (arith, require_admin-Ensures e admin s)
  call-may_call e (Op.revoke_allow admin address) s =
      ground (arith, require_admin-Ensures e admin s)
  call-may_call e (Op.bulk_allow_addresses admin addresses) s =
      ground (arith, require_admin-Ensures e admin s)
  call-may_call e (Op.bulk_block_addresses admin addresses) s =
      ground (arith, require_admin-Ensures e admin s)
  call-may_call e (Op.allow_address_with_tier admin address tier) s =
      ground (arith, require_admin-Ensures e admin s)
  call-may_call e (Op.allow_address_until admin address expires_at) s =
      ground (arith, require_admin-Ensures e admin s)
  call-may_call e (Op.block_address caller address reason) s =
      ground (arith, require_admin_or_operator-Ensures e caller s)
  call-may_call e (Op.block_address_until caller address unblock_at reason) s =
      ground (arith, require_admin_or_operator-Ensures e caller s)
  call-may_call e (Op.clear_address caller address) s =
      ground (arith, require_admin_or_operator-Ensures e caller s)
  call-may_call e (Op.sweep_expired caller limit) s =
      ground (arith, require_admin_or_operator-Ensures e caller s)
  call-may_call e (Op.set_tier_limit admin tier limit) s =
      ground (arith, require_admin-Ensures e admin s)
  call-may_call e (Op.set_jurisdiction admin address code) s =
      ground (arith, require_admin-Ensures e admin s)
  call-may_call e (Op.transfer_admin admin new_admin) s =
      ground (arith, require_admin-Ensures e admin s)
  call-may_call e (Op.set_operator admin operator) s =
      ground (arith, require_admin-Ensures e admin s)
  call-may_call e (Op.add_operator admin operator) s =
      ground (arith, require_admin-Ensures e admin s)
  call-may_call e (Op.remove_operator admin operator) s =
      ground (arith, require_admin-Ensures e admin s)
  call-may_call e (Op.migrate admin) s = ground (arith, require_admin-Ensures e admin s)
  call-may_call e (Op.cancel_admin_transfer admin) s =
      ground (arith, require_admin-Ensures e admin s)
  call-may_call e (Op.accept_admin new_admin) s = ground (arith)
  call-may_call e (Op.pause admin) s = ground (arith, require_admin-Ensures e admin s)
  call-may_call e (Op.unpause admin) s = ground (arith, require_admin-Ensures e admin s)
  call-may_call e (Op.pause_with_reason admin reason) s =
      ground (arith, require_admin-Ensures e admin s)
  call-may_call e (Op.set_blocklist_root admin root) s =
      ground (arith, require_admin-Ensures e admin s)

  step_refused :
      (e : Env L) (op : Op) (s : State)
      → (e.signed (caller_of op) && may_call s op) ≡ false
      → step e op s ≡ s
  unfolding step
  step_refused e op s refused = outcome (call e op s) (call-may_call e op s)
    where
      outcome :
          (r : Result (Unit {0} × State))
          → Ensures (λ _ _. (e.signed (caller_of op) ≡ true) × (may_call s op ≡ true)) r
          → elim r [ ok x ↦ x.1 | err f ↦ s ] ≡ s
      outcome (ok x) h = ground (arith, h)
      outcome (err f) h = refl

  -- no call among them that its caller has signed and may make in the state `s`
  abbrev pub IsRefused : List (Env L × Op) → State → Type 0
  IsRefused [] s = Unit
  IsRefused ((e, op) ∷ rest) s =
      ((e.signed (caller_of op) && may_call s op) ≡ false) × IsRefused rest s

  -- Calls that their callers have not signed, or are not entitled to, change nothing, however many:
  -- blocking, clearing and sweeping want the administrator or an operator, accepting the role wants
  -- the nominee, and every other call wants the administrator.
  pub refused_calls_change_nothing :
      (calls : List (Env L × Op)) (s : State) → IsRefused calls s → run calls s ≡ s
  unfolding run
  refused_calls_change_nothing [] s refused = refl
  refused_calls_change_nothing ((e, op) ∷ rest) s refused =
      ap (run rest) (step_refused e op s refused.0) ∙ refused_calls_change_nothing rest s refused.1

-- ===== src/Compliance/Machine.antt =====
-- The entrypoints of contracts/compliance/src/lib.rs that change the storage, as data, and runs of
-- them. A failed call leaves the storage as it was.
use comebackhere_contracts.Prelude.{ℕ, false, Option, none, List, [], ◌∷◌}
use comebackhere_contracts.Prelude.Int.{ℤ}
use comebackhere_contracts.Host.{Env, Call, Result, ok, err, ◌>>◌, pure}
use comebackhere_contracts.Compliance.Types.{BlockReason}
use comebackhere_contracts.Compliance.Storage.{State}
use comebackhere_contracts.Compliance.Listing
use comebackhere_contracts.Compliance.Sweep
use comebackhere_contracts.Compliance.Roles

pub data Op : Type 0 where
  allow_address revoke_allow : ℕ → ℕ → Op
  bulk_allow_addresses bulk_block_addresses : ℕ → List ℕ → Op
  allow_address_with_tier allow_address_until : ℕ → ℕ → ℕ → Op
  block_address : ℕ → ℕ → Option BlockReason → Op
  block_address_until : ℕ → ℕ → ℕ → Option BlockReason → Op
  clear_address sweep_expired : ℕ → ℕ → Op
  set_tier_limit : ℕ → ℕ → ℤ → Op
  set_jurisdiction : ℕ → ℕ → List ℕ → Op
  transfer_admin set_operator add_operator remove_operator : ℕ → ℕ → Op
  migrate cancel_admin_transfer accept_admin pause unpause : ℕ → Op
  pause_with_reason set_blocklist_root : ℕ → List ℕ → Op

abbrev drop_value : {A : Type 0} → Call State A → Call State (Unit {0})
drop_value m = m >> pure tt

unfoldable pub call : {L : Type 0} → Env L → Op → Call State (Unit {0})
call e (Op.allow_address admin address) = Listing.allow_address e admin address
call e (Op.revoke_allow admin address) = Listing.revoke_allow e admin address
call e (Op.bulk_allow_addresses admin addresses) = Listing.bulk_allow_addresses e admin addresses
call e (Op.bulk_block_addresses admin addresses) = Listing.bulk_block_addresses e admin addresses
call e (Op.allow_address_with_tier admin address tier) =
    Listing.allow_address_with_tier e admin address tier
call e (Op.allow_address_until admin address expires_at) =
    Listing.allow_address_until e admin address expires_at
call e (Op.block_address caller address reason) = Listing.block_address e caller address reason
call e (Op.block_address_until caller address unblock_at reason) =
    Listing.block_address_until e caller address unblock_at reason
call e (Op.clear_address caller address) = Listing.clear_address e caller address
call e (Op.sweep_expired caller limit) = drop_value (Sweep.sweep_expired e caller limit)
call e (Op.set_tier_limit admin tier limit) = Roles.set_tier_limit e admin tier limit
call e (Op.set_jurisdiction admin address code) = Roles.set_jurisdiction e admin address code
call e (Op.transfer_admin admin new_admin) = Roles.transfer_admin e admin new_admin
call e (Op.set_operator admin operator) = Roles.set_operator e admin operator
call e (Op.add_operator admin operator) = Roles.add_operator e admin operator
call e (Op.remove_operator admin operator) = Roles.remove_operator e admin operator
call e (Op.migrate admin) = drop_value (Roles.migrate e admin)
call e (Op.cancel_admin_transfer admin) = Roles.cancel_admin_transfer e admin
call e (Op.accept_admin new_admin) = Roles.accept_admin e new_admin
call e (Op.pause admin) = Roles.pause e admin
call e (Op.unpause admin) = Roles.unpause e admin
call e (Op.pause_with_reason admin reason) = Roles.pause_with_reason e admin reason
call e (Op.set_blocklist_root admin root) = Roles.set_blocklist_root e admin root

abbrev pub after : State → Result (Unit {0} × State) → State
after s (ok r) = r.1
after s (err e) = s

unfoldable pub step : {L : Type 0} → Env L → Op → State → State
unfolding call
step e op s = after s (call e op s)

unfoldable pub run : {L : Type 0} → List (Env L × Op) → State → State
run [] s = s
run ((e, op) ∷ rest) s = run rest (step e op s)

-- The storage of a contract that was just deployed.
abbrev pub deployed : State
deployed = record {
  admin = none;
  pending_admin = none;
  operator = none;
  allowed = λ _. false;
  blocked = λ _. false;
  allowed_until = λ _. none;
  blocked_until = λ _. none;
  block_reason = λ _. none;
  schema_version = none;
  paused = false;
  allow_count = 0;
  block_count = 0;
  tier = λ _. 0;
  jurisdiction = λ _. none;
  last_bulk_allow = λ _. none;
  last_bulk_block = λ _. none;
  addr_tracked = λ _. false;
  addr_index_page = λ _. [];
  addr_index_count = 0;
  tier_limit = λ _. none;
  status_history = λ _. [];
  pause_reason = none;
  blocklist_root = none;
  blocked_by = λ _. none;
  operators = [];
  events = [];
}

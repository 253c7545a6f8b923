-- ===== src/Tests/Listings.antt =====
-- The theorems on the compliance contract, at concrete calls.
use comebackhere_contracts.Prelude.{
  ℕ, ◌≡◌, ◌≤◌, ◌↔◌, inl, refl, true, false, not, ◌||◌, none, some, List, [], ◌∷◌, arith, put,
  contains, length, Distinct, ◌==◌, if◌then◌else◌,
}
use comebackhere_contracts.Prelude.Int.{pos}
use comebackhere_contracts.Host.{Env, Ensures, ok, succeeds, ◌>>◌}
use comebackhere_contracts.Compliance.Storage.{State}
use comebackhere_contracts.Compliance.Guards.{
  address_index, collect_pages, max_tracked_addresses, max_status_history,
}
use comebackhere_contracts.Compliance.Decision.{
  is_allowed, is_allowed_at, is_allowed_for_amount, address_status_at, bulk_check_addresses,
  bulk_get_address_status,
}
use comebackhere_contracts.Compliance.Decision.Precedence.{
  IsPermitted, IsWithin, is_allowed_for_amount_iff, bulk_reads_match,
}
use comebackhere_contracts.Compliance.Listing.{block_address, clear_address}
use comebackhere_contracts.Compliance.Listing.Overrides.{operator_lifts_any_block}
use comebackhere_contracts.Compliance.Sweep.{sweep_expired}
use comebackhere_contracts.Compliance.Sweep.Effects.{sweep_complete}
use comebackhere_contracts.Compliance.Roles.{initialize, max_operators}
use comebackhere_contracts.Compliance.Machine.{Op, run, deployed}
use comebackhere_contracts.Compliance.Permissions.{refused_calls_change_nothing}
use comebackhere_contracts.Compliance.Histories.{compliance_run_sound}
use comebackhere_contracts.Tests.{world}

-- Administrator 1 and operator 2; address 7 is allowed until 50, address 8 has no end.
abbrev pub register : State
register = record deployed {
  admin = some 1;
  operator = some 2;
  operators = 2 ∷ [];
  allowed = λ a. a == 7 || a == 8;
  allowed_until = put 7 50 (λ _. none);
  tier_limit = put 0 (pos 100) (λ _. none);
  addr_tracked = λ a. a == 7 || a == 8;
  addr_index_page = λ n. if n == 0 then 7 ∷ 8 ∷ [] else [];
  addr_index_count = 2;
}

-- where address 8 is blocked by the administrator, until 30
abbrev register_with_block : State
register_with_block = record register {
  blocked = λ a. a == 8;
  blocked_until = put 8 30 (λ _. none);
  blocked_by = put 8 1 (λ _. none);
}

is_allowed_for_amount_iff_example :
    (is_allowed_for_amount (world 20) register 7 (pos 90) ≡ true)
    ↔ (IsPermitted register 7 20 × IsWithin (pos 90) (some (pos 100)))
is_allowed_for_amount_iff_example = is_allowed_for_amount_iff (world 20) register 7 (pos 90)

bulk_reads_match_example :
    (bulk_check_addresses (world 60) (7 ∷ 8 ∷ []) register ≡ ok (false ∷ true ∷ [], register))
    × (bulk_get_address_status (world 60) (7 ∷ 8 ∷ []) register
        ≡ ok (address_status_at register 7 60 ∷ address_status_at register 8 60 ∷ [], register))
unfolding is_allowed is_allowed_at
bulk_reads_match_example = bulk_reads_match (world 60) register (7 ∷ 8 ∷ []) (omega arith)

abbrev intrusions : List (Env ℕ × Op)
intrusions =
    (world 20, Op.allow_address 9 9)
    ∷ (world 30, Op.clear_address 9 8)
    ∷ (world 40, Op.accept_admin 9)
    ∷ []

refused_calls_change_nothing_example : run intrusions register_with_block ≡ register_with_block
refused_calls_change_nothing_example =
    refused_calls_change_nothing intrusions register_with_block (refl, (refl, (refl, tt)))

abbrev first_calls : List (Env ℕ × Op)
first_calls = (world 20, Op.allow_address 1 7) ∷ (world 30, Op.block_address 1 8 none) ∷ []

abbrev initialized : State
initialized = record deployed { admin = some 1; paused = false; schema_version = some 2 }

compliance_run_sound_example :
    let t = run first_calls initialized in
    Distinct (address_index t)
    × (contains (address_index t) 8 ≡ t.addr_tracked 8)
    × (length (address_index t) ≡ t.addr_index_count)
    × (t.addr_index_count ≤ max_tracked_addresses)
    × ((contains (address_index t) 8 || not (t.allowed 8 || t.blocked 8)) ≡ true)
    × (length (t.status_history 8) ≤ max_status_history)
    × Distinct t.operators
    × (length t.operators ≤ max_operators)
unfolding initialize
compliance_run_sound_example = compliance_run_sound (world 10) 1 first_calls initialized 8 refl

sweep_complete_example :
    Ensures
      (λ _ s.
        (s.allowed 7 ≡ false)
        × (s.allowed_until 7 ≡ none)
        × (s.allowed 8 ≡ register.allowed 8)
        × (s.allowed_until 8 ≡ register.allowed_until 8))
      (sweep_expired (world 60) 2 0 register)
unfolding address_index collect_pages
sweep_complete_example =
    sweep_complete (world 60) 2 0 register 7 50 8 refl refl refl refl (omega arith) (inl refl)

operator_lifts_any_block_example :
    (succeeds
        ((block_address (world 20) 2 8 none >> clear_address (world 20) 2 8) register_with_block)
      ≡ true)
    × Ensures
        (λ _ s. is_allowed_at s 8 21 ≡ true)
        ((block_address (world 20) 2 8 none >> clear_address (world 20) 2 8) register_with_block)
operator_lifts_any_block_example =
    operator_lifts_any_block (world 20) 8 2 none register_with_block 21 refl refl refl

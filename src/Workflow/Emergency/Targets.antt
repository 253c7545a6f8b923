-- ===== src/Workflow/Emergency/Targets.antt =====
-- Which sets of contracts the emergency pause accepts (contracts/settlement-workflow/src/lib.rs).
use comebackhere_contracts.Prelude.{
  ℕ, ◌≡◌, ◌↔◌, refl, Bool, true, not, ◌&&◌, none, some, List, [], ◌∷◌, contains, length, is_empty,
  push_back, leb, arith, contains-push_back,
}
use comebackhere_contracts.Host.{Env, ok, Ensures}
use comebackhere_contracts.Workflow.Storage.{State, Event}
use comebackhere_contracts.Workflow.Guards.{max_pause_targets}
use comebackhere_contracts.Workflow.Emergency.{
  validate_each, validate_pause_targets, initialize_emergency_pause,
}

abbrev pub is_distinct : List ℕ → Bool
is_distinct [] = true
is_distinct (x ∷ xs) = not (contains xs x) && is_distinct xs

abbrev disjoint : List ℕ → List ℕ → Bool
disjoint seen [] = true
disjoint seen (x ∷ xs) = not (contains seen x) && disjoint seen xs

-- Not empty, at most eight, without this contract's own address and without a repetition.
abbrev pub is_sweepable : ℕ → List ℕ → Bool
is_sweepable self_address targets =
    not (is_empty targets)
    && leb (length targets) max_pause_targets
    && not (contains targets self_address)
    && is_distinct targets

disjoint-push_back :
    (seen : List ℕ) (x : ℕ) (xs : List ℕ)
    → disjoint (push_back seen x) xs ≡ (not (contains xs x) && disjoint seen xs)
disjoint-push_back seen x [] = refl
disjoint-push_back seen x (y ∷ xs) =
    ground (arith, disjoint-push_back seen x xs, contains-push_back seen x y)

disjoint-empty : (xs : List ℕ) → disjoint [] xs ≡ true
disjoint-empty [] = refl
disjoint-empty (x ∷ xs) = disjoint-empty xs

module _ {W : Type 0} where
  validate_each_lem :
      (self_address : ℕ) (targets seen : List ℕ) (s : State W)
      → (validate_each self_address targets seen s ≡ ok (tt, s)) ↔ (
          (not (contains targets self_address) && is_distinct targets && disjoint seen targets)
          ≡ true)
  unfolding validate_each
  validate_each_lem self_address [] seen s = ground arith
  validate_each_lem self_address (target ∷ rest) seen s = ground (
    arith,
    validate_each_lem self_address rest (push_back seen target) s,
    disjoint-push_back seen target rest,
  )

  -- The validation accepts exactly the sets that can be swept.
  pub validate_pause_targets_lem :
      {L : Type 0} (e : Env L) (targets : List ℕ) (s : State W)
      → (validate_pause_targets e targets s ≡ ok (tt, s)) ↔ (is_sweepable e.self targets ≡ true)
  unfolding validate_pause_targets
  validate_pause_targets_lem e targets s =
      ground (arith, validate_each_lem e.self targets [] s, disjoint-empty targets)

  -- While no emergency pause is active, any address that signs becomes the administrator of the
  -- emergency pause, with any set that can be swept, whoever was its administrator before.
  pub initialize_emergency_pause_lem :
      {L : Type 0} (e : Env L) (admin : ℕ) (targets : List ℕ) (s : State W)
      → e.signed admin ≡ true
      → s.emergency_paused_at ≡ none
      → is_sweepable e.self targets ≡ true
      → initialize_emergency_pause e admin targets s
        ≡ ok (
          tt,
          record s {
            emergency_pause_admin = some admin;
            emergency_pause_targets = some targets;
            events = Event.emergency_pause_configured admin targets ∷ s.events;
          },
        )
  unfolding initialize_emergency_pause
  initialize_emergency_pause_lem e admin targets s signed idle valid =
      ground (arith, validate_pause_targets_lem e targets s)

  validate_each-Ensures :
      (self_address : ℕ) (targets seen : List ℕ) (s : State W)
      → Ensures
          (λ done after.
            (after ≡ s)
            × ((not (contains targets self_address) && is_distinct targets && disjoint seen targets)
                ≡ true))
          (validate_each self_address targets seen s)
  unfolding validate_each
  validate_each-Ensures self_address [] seen s = ground arith
  validate_each-Ensures self_address (target ∷ rest) seen s = ground (
    arith,
    validate_each-Ensures self_address rest (push_back seen target) s,
    disjoint-push_back seen target rest,
  )

  pub validate_pause_targets-Ensures :
      {L : Type 0} (e : Env L) (targets : List ℕ) (s : State W)
      → Ensures
          (λ done after. (after ≡ s) × (is_sweepable e.self targets ≡ true))
          (validate_pause_targets e targets s)
  unfolding validate_pause_targets
  validate_pause_targets-Ensures e targets s =
      ground (arith, validate_each-Ensures e.self targets [] s)

-- ===== src/Workflow/Emergency/Incident.antt =====
-- Which contracts are paused after an emergency pause and after its end
-- (contracts/settlement-workflow/src/lib.rs). `is_paused` is what the other contracts answer; that
-- a successful `pause` or `unpause` sets it for its own contract, and for no other, is assumed.
use comebackhere_contracts.Prelude.{
  ℕ, ◌≡◌, refl, Bool, true, false, not, ◌&&◌, ◌||◌, none, some, List, [], ◌∷◌, contains, ◌==◌,
  arith, contains-push_back, Option-cases, inl, inr,
}
use comebackhere_contracts.Host.{Env, ok, Ensures}
use comebackhere_contracts.Workflow.Storage.{State, Contracts}
use comebackhere_contracts.Workflow.Guards.{require_pause_admin, pause_targets}
use comebackhere_contracts.Workflow.Emergency.{reversed, emergency_pause_all, resume_all}
use comebackhere_contracts.Workflow.Emergency.Sweeps.{sweep, pause_each-sweep, unpause_each-sweep}

contains-reversed : (xs : List ℕ) (a : ℕ) → contains (reversed xs) a ≡ contains xs a
contains-reversed [] a = refl
contains-reversed (x ∷ xs) a =
    ground (arith, contains-reversed xs a, contains-push_back (reversed xs) x a)

module _ {W L : Type 0} (e : Env L) (c : Contracts W) (is_paused : ℕ → W → Bool)
    (pausing : (t a : ℕ) (w v : W)
      → c.pause t a w ≡ some v
      → (u : ℕ) → is_paused u v ≡ (t == u || is_paused u w))
    (u : ℕ) where
  sweep-paused :
      (targets : List ℕ) (w v : W)
      → sweep (λ t w. c.pause t e.self w) targets w ≡ some v
      → is_paused u v ≡ (contains targets u || is_paused u w)
  sweep-paused [] w v h = ground (arith, h)
  sweep-paused (t ∷ rest) w v h = elim (Option-cases (c.pause t e.self w)) [
    | inl x ↦ ground (arith, h, x)
    | inr (m, x) ↦ ground (arith, h, x, sweep-paused rest m v, pausing t e.self w m x u)
  ]

  -- After a successful emergency pause every configured contract is paused, the others are as
  -- before, and the time is recorded; its result lists the configured contracts.
  pub emergency_pause_all_pauses :
      (admin : ℕ) (s : State W)
      → Ensures
          (λ paused after.
            (s.emergency_pause_targets ≡ some paused)
            × (after.emergency_paused_at ≡ some e.now)
            × (after.emergency_pause_targets ≡ some paused)
            × (is_paused u after.world ≡ (contains paused u || is_paused u s.world)))
          (emergency_pause_all e c admin s)
  unfolding emergency_pause_all require_pause_admin pause_targets
  emergency_pause_all_pauses admin s = elim (Option-cases s.emergency_pause_targets) [
    | inl x ↦ ground (arith, x)
    | inr (ts, x) ↦ elim (Option-cases (sweep (λ t w. c.pause t e.self w) ts s.world)) [
      | inl y ↦ ground (arith, x, y, pause_each-sweep e c ts [] s)
      | inr (v, y) ↦ ground (arith, x, y, pause_each-sweep e c ts [] s, sweep-paused ts s.world v y)
    ]
  ]

module _ {W L : Type 0} (e : Env L) (c : Contracts W) (is_paused : ℕ → W → Bool)
    (unpausing : (t a : ℕ) (w v : W)
      → c.unpause t a w ≡ some v
      → (u : ℕ) → is_paused u v ≡ (not (t == u) && is_paused u w))
    (u : ℕ) where
  sweep-unpaused :
      (targets : List ℕ) (w v : W)
      → sweep (λ t w. c.unpause t e.self w) targets w ≡ some v
      → is_paused u v ≡ (not (contains targets u) && is_paused u w)
  sweep-unpaused [] w v h = ground (arith, h)
  sweep-unpaused (t ∷ rest) w v h = elim (Option-cases (c.unpause t e.self w)) [
    | inl x ↦ ground (arith, h, x)
    | inr (m, x) ↦ ground (arith, h, x, sweep-unpaused rest m v, unpausing t e.self w m x u)
  ]

  pub resume_all_resumes :
      (admin min_delay_secs : ℕ) (s : State W)
      → Ensures
          (λ resumed after.
            (after.emergency_paused_at ≡ none)
            × (after.emergency_pause_targets ≡ s.emergency_pause_targets)
            × ((targets : List ℕ) × (s.emergency_pause_targets ≡ some targets)
                × (resumed ≡ reversed targets)
                × (is_paused u after.world ≡ (not (contains targets u) && is_paused u s.world))))
          (resume_all e c admin min_delay_secs s)
  unfolding resume_all require_pause_admin pause_targets
  resume_all_resumes admin min_delay_secs s = elim (Option-cases s.emergency_pause_targets) [
    | inl x ↦ ground (arith, x)
    | inr (ts, x) ↦
        elim (Option-cases (sweep (λ t w. c.unpause t e.self w) (reversed ts) s.world)) [
          | inl y ↦ ground (arith, x, y, unpause_each-sweep e c (reversed ts) [] s)
          | inr (v, y) ↦ ground (
            arith,
            x,
            y,
            unpause_each-sweep e c (reversed ts) [] s,
            sweep-unpaused (reversed ts) s.world v y,
            contains-reversed ts u,
          )
        ]
  ]

module _ {W L : Type 0} (e later : Env L) (c : Contracts W) (is_paused : ℕ → W → Bool)
    (pausing : (t a : ℕ) (w v : W)
      → c.pause t a w ≡ some v
      → (u : ℕ) → is_paused u v ≡ (t == u || is_paused u w))
    (unpausing : (t a : ℕ) (w v : W)
      → c.unpause t a w ≡ some v
      → (u : ℕ) → is_paused u v ≡ (not (t == u) && is_paused u w)) where
  pause_then_resume-at :
      (admin other min_delay_secs : ℕ) (paused resumed : List ℕ) (s s1 s2 : State W)
      → emergency_pause_all e c admin s ≡ ok (paused, s1)
      → resume_all later c other min_delay_secs s1 ≡ ok (resumed, s2)
      → (u : ℕ)
      → (resumed ≡ reversed paused)
        × (s2.emergency_paused_at ≡ none)
        × (is_paused u s2.world ≡ (not (contains paused u) && is_paused u s.world))
  pause_then_resume-at admin other min_delay_secs paused resumed s s1 s2 first second u = ground (
    arith,
    first,
    second,
    emergency_pause_all_pauses e c is_paused pausing u admin s,
    resume_all_resumes later c is_paused unpausing u other min_delay_secs s1,
  )

  -- Let an emergency pause succeed, and then a resume of the state it left, where a successful `pause`
  -- or `unpause` changes only what its own contract answers. A target that answered before
  -- the emergency pause that it was paused is paused after it, but it is among the resumed
  -- contracts and answers afterwards that it is not paused: its own earlier pause is lifted too. The
  -- resumed contracts are all paused ones, in reverse; no emergency pause is active; and any address
  -- answers `is_paused` as before the emergency pause if it is no target, and with no if it is one.
  pub resume_all_lifts_earlier_pause :
      (admin other min_delay_secs : ℕ) (paused resumed : List ℕ) (s s1 s2 : State W) (target : ℕ)
      → emergency_pause_all e c admin s ≡ ok (paused, s1)
      → resume_all later c other min_delay_secs s1 ≡ ok (resumed, s2)
      → contains paused target ≡ true
      → is_paused target s.world ≡ true
      → (is_paused target s1.world ≡ true)
        × (contains resumed target ≡ true)
        × (is_paused target s2.world ≡ false)
        × (resumed ≡ reversed paused)
        × (s2.emergency_paused_at ≡ none)
        × ((u : ℕ) → is_paused u s2.world ≡ (not (contains paused u) && is_paused u s.world))
  resume_all_lifts_earlier_pause admin other min_delay_secs paused resumed s s1 s2 target first
        second listed before =
      let at =
        pause_then_resume-at admin other min_delay_secs paused resumed s s1 s2 first second in
      (
        ground
            (arith, first, before, emergency_pause_all_pauses e c is_paused pausing target admin s),
        ground (arith, (at target).0, contains-reversed paused target, listed),
        ground (arith, (at target).2, listed),
        (at target).0,
        (at target).1,
        λ u. (at u).2,
      )

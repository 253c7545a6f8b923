-- ===== src/Workflow/Machine/Reached.antt =====
-- The states that the settlement workflow comes to, and what no call changes in the middle of an
-- emergency pause (contracts/settlement-workflow/src/lib.rs).
use mathlib.Core.Path.{subst}
use comebackhere_contracts.Prelude.{
  sym, ℕ, ◌≡◌, Bool, true, false, ◌||◌, Option, none, some, arith, leb, ◌==◌,
}
use comebackhere_contracts.Prelude.Int.{saturating_add}
use comebackhere_contracts.Host.{Env, Ensures, Ensures-ok}
use comebackhere_contracts.Workflow.Storage.{State, Contracts}
use comebackhere_contracts.Workflow.Guards.{require_pause_admin}
use comebackhere_contracts.Workflow.Admin
use comebackhere_contracts.Workflow.Emergency.{is_some, resume_all}
use comebackhere_contracts.Workflow.Machine.{call, left, Reachable}
use comebackhere_contracts.Workflow.Machine.Invariant.{IsSound, left-IsSound}

-- whether the delay has passed since the time of the pause; a delay of 0 always has
abbrev pub elapsed : Option ℕ → ℕ → ℕ → Bool
elapsed none delay now = false
elapsed (some paused_at) delay now = delay == 0 || leb (saturating_add paused_at delay) now

module _ {W L : Type 0} (c : Contracts W) (self_address compliance treasury : ℕ) where
  constructed-IsSound :
      (e : Env L) (admin : ℕ) (w : W)
      → Ensures
          (λ done s. IsSound self_address compliance treasury s)
          (Admin.constructed e admin compliance treasury (Admin.undeployed w))
  unfolding Admin.constructed Admin.undeployed
  constructed-IsSound e admin w = ground arith

  -- In every state that the deployed workflow comes to, its compliance and treasury contracts are
  -- those of its deployment, it has an administrator, the configured contracts can be swept and
  -- come with an administrator of the emergency pause, and an active emergency pause has both.
  pub reachable-IsSound :
      (s : State W)
      → Reachable L c self_address compliance treasury s
      → IsSound self_address compliance treasury s
  reachable-IsSound s (Reachable.deployed e admin w _ start) =
      Ensures-ok (λ done t. IsSound self_address compliance treasury t) _ tt s start
        (constructed-IsSound e admin w)
  reachable-IsSound _ (Reachable.called e op s before same) =
      subst (λ a. IsSound a compliance treasury (left s (call e c op s))) same
        (left-IsSound e c compliance treasury s
          (subst (λ a. IsSound a compliance treasury s) (sym same) (reachable-IsSound s before)) op)
  reachable-IsSound _ (Reachable.changed w s before) = ground (arith, reachable-IsSound s before)

module _ {W L : Type 0} (e : Env L) (c : Contracts W) where
  -- A resume that succeeds had an active emergency pause, and did not come before the delay, from
  -- the time of that pause, that its caller asked for.
  pub resume_all_waits :
      (admin min_delay_secs : ℕ) (s : State W)
      → Ensures
          (λ resumed after.
            (is_some s.emergency_paused_at ≡ true)
            × (s.emergency_pause_admin ≡ some admin)
            × (elapsed s.emergency_paused_at min_delay_secs e.now ≡ true))
          (resume_all e c admin min_delay_secs s)
  unfolding resume_all require_pause_admin
  resume_all_waits admin min_delay_secs s = ground arith

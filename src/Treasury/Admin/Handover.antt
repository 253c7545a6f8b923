-- ===== src/Treasury/Admin/Handover.antt =====
-- The two-step change of the administrator (contracts/treasury/src/admin.rs).
use comebackhere_contracts.Prelude.{ℕ, ◌+◌, ◌≤◌, ◌<◌, ◌≡◌, true, none, some, ◌∷◌, arith, ◌∙◌}
use comebackhere_contracts.Host.{Env, Ensures, Ensures-ok, Ensures-map, ok}
use comebackhere_contracts.Multisig.Storage.{State, Event}
use comebackhere_contracts.Treasury.Admin.{transfer_admin, accept_admin}
use comebackhere_contracts.Prelude.Int.{saturating_add, u64_max}
use comebackhere_contracts.Treasury.Guards.Passed.{require_admin-Ensures}

module _ {L : Type 0} where
  transfer_admin-Ensures :
      (e : Env L) (admin nominee expiry_secs : ℕ) (s : State L)
      → Ensures
          (λ _ s'.
            (s'.admin ≡ some admin)
            × (s'.pending_admin ≡ some (nominee, saturating_add e.now expiry_secs)))
          (transfer_admin e admin nominee expiry_secs s)
  unfolding transfer_admin
  transfer_admin-Ensures e admin nominee expiry_secs s =
      ground (arith, require_admin-Ensures e admin s)

  accept_admin-Ensures :
      (e : Env L) (caller nominee expires_at : ℕ) (s : State L)
      → s.pending_admin ≡ some (nominee, expires_at)
      → Ensures
          (λ _ s'.
            (caller ≡ nominee)
            × (e.signed nominee ≡ true)
            × (e.now < expires_at)
            × (s'.admin ≡ some nominee)
            × (s'.pending_admin ≡ none))
          (accept_admin e caller s)
  unfolding accept_admin
  accept_admin-Ensures e caller nominee expires_at s pending = ground arith

  accept_admin_succeeds :
      (e : Env L) (nominee expires_at : ℕ) (s : State L)
      → s.pending_admin ≡ some (nominee, expires_at)
      → e.signed nominee ≡ true
      → e.now < expires_at
      → accept_admin e nominee s
        ≡ ok (
          tt,
          record s {
            admin = some nominee;
            pending_admin = none;
            events = Event.admin_transferred nominee ∷ s.events;
          },
        )
  unfolding accept_admin
  accept_admin_succeeds e nominee expires_at s pending signed early = ground arith

module _ {L : Type 0} (e : Env L) (admin nominee expiry_secs : ℕ) (s s₁ : State L) where
  -- After a nomination, as long as the stored nomination is the same, a successful acceptance is
  -- one by the nominee, who has signed it, before the nomination's time has run out; the nominee is
  -- then the administrator and no nomination is left.
  pub admin_handover :
      (e₂ : Env L) (caller : ℕ) (s₂ : State L)
      → transfer_admin e admin nominee expiry_secs s ≡ ok (tt, s₁)
      → s₂.pending_admin ≡ s₁.pending_admin
      → Ensures
          (λ _ s₃.
            (caller ≡ nominee)
            × (e₂.signed nominee ≡ true)
            × (e₂.now < e.now + expiry_secs)
            × (s₃.admin ≡ some nominee)
            × (s₃.pending_admin ≡ none))
          (accept_admin e₂ caller s₂)
  admin_handover e₂ caller s₂ made same =
      let nominated =
        Ensures-ok _ _ tt s₁ made (transfer_admin-Ensures e admin nominee expiry_secs s) in
      Ensures-map _ _ (accept_admin e₂ caller s₂)
        (λ _ s₃ h. (h.0, h.1, ground (arith, h), h.3, h.4))
        (accept_admin-Ensures e₂ caller nominee _ s₂ (same ∙ nominated.1))

  -- As long as the stored nomination is the same, and its time does not pass the largest `u64`, the
  -- nominee's signed acceptance before that time succeeds and makes the nominee the administrator.
  pub admin_handover_succeeds :
      (e₂ : Env L) (s₂ : State L)
      → transfer_admin e admin nominee expiry_secs s ≡ ok (tt, s₁)
      → s₂.pending_admin ≡ s₁.pending_admin
      → e₂.signed nominee ≡ true
      → e.now + expiry_secs ≤ u64_max
      → e₂.now < e.now + expiry_secs
      → accept_admin e₂ nominee s₂
        ≡ ok (
          tt,
          record s₂ {
            admin = some nominee;
            pending_admin = none;
            events = Event.admin_transferred nominee ∷ s₂.events;
          },
        )
  admin_handover_succeeds e₂ s₂ made same signed fits early =
      let nominated =
        Ensures-ok _ _ tt s₁ made (transfer_admin-Ensures e admin nominee expiry_secs s) in
      accept_admin_succeeds e₂ nominee _ s₂ (same ∙ nominated.1) signed (ground arith)

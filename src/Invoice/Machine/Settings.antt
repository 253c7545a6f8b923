-- ===== src/Invoice/Machine/Settings.antt =====
-- What the administration of contracts/invoice/src/entrypoints/admin.rs does to a stored invoice.
use comebackhere_contracts.Prelude.{ℕ, ◌+◌, ◌≡◌, inl, inr, true, arith, Option-cases}
use comebackhere_contracts.Prelude.Int.{ℤ}
use comebackhere_contracts.Host.{Env, Ensures}
use comebackhere_contracts.Invoice.Types.{Invoice}
use comebackhere_contracts.Invoice.Storage.{State}
use comebackhere_contracts.Invoice.Guards.{require_admin}
use comebackhere_contracts.Invoice.Admin
use comebackhere_contracts.Invoice.Machine.Keeping.{is_consistent, is_sound, Follows, Onward}

later-consistent :
    (k : ℕ) (a : Invoice) (expires_at : ℕ)
    → is_consistent k a ≡ true
    → is_consistent k (record a { expires_at = expires_at }) ≡ true
unfolding is_consistent
later-consistent k a expires_at h = h

module _ {L : Type 0} (e : Env L) (k : ℕ) (s : State L)
    (h : is_sound s.invoice_count k (s.invoice k) ≡ true)
    (same : Follows (s.invoice k) (s.invoice k)) where
  pub set_grace_window-Onward :
      (admin seconds : ℕ) → Ensures (λ _ t. Onward k s t) (Admin.set_grace_window e admin seconds s)
  unfolding Admin.set_grace_window require_admin
  set_grace_window-Onward admin seconds = ground (arith, h, same)

  pub set_refund_window-Onward :
      (admin seconds : ℕ)
      → Ensures (λ _ t. Onward k s t) (Admin.set_refund_window e admin seconds s)
  unfolding Admin.set_refund_window require_admin
  set_refund_window-Onward admin seconds = ground (arith, h, same)

  pub set_refund_network_fee-Onward :
      (admin : ℕ) (fee : ℤ)
      → Ensures (λ _ t. Onward k s t) (Admin.set_refund_network_fee e admin fee s)
  unfolding Admin.set_refund_network_fee require_admin
  set_refund_network_fee-Onward admin fee = ground (arith, h, same)

  pub transfer_admin-Onward :
      (admin new_admin : ℕ)
      → Ensures (λ _ t. Onward k s t) (Admin.transfer_admin e admin new_admin s)
  unfolding Admin.transfer_admin require_admin
  transfer_admin-Onward admin new_admin = ground (arith, h, same)

  pub accept_admin-Onward :
      (new_admin : ℕ) → Ensures (λ _ t. Onward k s t) (Admin.accept_admin e new_admin s)
  unfolding Admin.accept_admin
  accept_admin-Onward new_admin = ground (arith, h, same)

  pub pause-Onward : (admin : ℕ) → Ensures (λ _ t. Onward k s t) (Admin.pause e admin s)
  unfolding Admin.pause require_admin
  pause-Onward admin = ground (arith, h, same)

  pub unpause-Onward : (admin : ℕ) → Ensures (λ _ t. Onward k s t) (Admin.unpause e admin s)
  unfolding Admin.unpause require_admin
  unpause-Onward admin = ground (arith, h, same)

  pub extend_expiry-Onward :
      (admin id additional : ℕ)
      → Ensures (λ _ t. Onward k s t) (Admin.extend_expiry e admin id additional s)
  unfolding Admin.extend_expiry require_admin
  extend_expiry-Onward admin id additional = elim (Option-cases (s.invoice id)) [
    | inl x ↦ ground (arith, x)
    | inr (a, x) ↦ ground (arith, h, x, same, later-consistent k a (a.expires_at + additional))
  ]

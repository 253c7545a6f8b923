-- ===== src/Invoice/Admin.antt =====
-- Initialization, the settings, pausing, the handover of the administrator and the extension of an
-- expiry (contracts/invoice/src/entrypoints/admin.rs). The settings whose keys no modelled entrypoint
-- reads are left out.
use comebackhere_contracts.Prelude.{
  ℕ, ◌+◌, Bool, true, false, not, ◌||◌, Option, none, some, ltb, ◌==◌, if◌then◌else◌,
}
use comebackhere_contracts.Prelude.Int.{ℤ, pos, ltb_ℤ, u64_max}
use comebackhere_contracts.Errors.Invoice.{InvoiceError}
use comebackhere_contracts.Host.{Env, Call, ◌>>=◌, ◌>>◌, gets, modify, require_auth}
use comebackhere_contracts.Invoice.Types.{is_pending}
use comebackhere_contracts.Invoice.Storage.{State, Event}
use comebackhere_contracts.Invoice.Guards.{
  reject_if, or_reject, emit, require_admin, load_invoice, store_invoice,
}

abbrev max_refund_network_fee : ℕ
max_refund_network_fee = 100000000

abbrev is_set : Option ℕ → Bool
is_set none = false
is_set (some a) = true

-- `old.checked_add(additional).filter(|new| *new > old)`
abbrev later_expiry : ℕ → ℕ → Option ℕ
later_expiry old additional =
    if ltb u64_max (old + additional)
    then none
    else if ltb old (old + additional)
    then some (old + additional)
    else none

module _ {L : Type 0} (e : Env L) where
  unfoldable pub initialize : ℕ → Call (State L) (Unit {0})
  initialize admin = do
    already ← gets (λ s. is_set s.admin)
    reject_if already InvoiceError.already_initialized
    require_auth e admin
    modify (λ s. record s { admin = some admin; invoice_count = 0; paused = false })

  unfoldable pub set_grace_window : ℕ → ℕ → Call (State L) (Unit {0})
  set_grace_window admin seconds = do
    require_admin e admin
    old_seconds ← gets (λ s. s.grace_window)
    modify (λ s. record s { grace_window = seconds })
    emit (Event.grace_window_updated old_seconds seconds)

  unfoldable pub set_refund_window : ℕ → ℕ → Call (State L) (Unit {0})
  set_refund_window admin seconds = do
    require_admin e admin
    modify (λ s. record s { refund_window = seconds })

  unfoldable pub set_refund_network_fee : ℕ → ℤ → Call (State L) (Unit {0})
  set_refund_network_fee admin fee = do
    require_admin e admin
    reject_if (ltb_ℤ fee (pos 0) || ltb_ℤ (pos max_refund_network_fee) fee)
        InvoiceError.invalid_amount
    old_fee ← gets (λ s. s.refund_network_fee)
    modify (λ s. record s { refund_network_fee = fee })
    emit (Event.refund_network_fee_updated old_fee fee)

  unfoldable pub transfer_admin : ℕ → ℕ → Call (State L) (Unit {0})
  transfer_admin admin new_admin = do
    require_admin e admin
    modify (λ s. record s { pending_admin = some new_admin })

  unfoldable pub accept_admin : ℕ → Call (State L) (Unit {0})
  accept_admin new_admin = do
    require_auth e new_admin
    stored ← gets (λ s. s.pending_admin)
    pending ← or_reject stored InvoiceError.no_pending_admin
    reject_if (not (pending == new_admin)) InvoiceError.unauthorized
    modify (λ s. record s { admin = some new_admin; pending_admin = none })

  unfoldable pub pause : ℕ → Call (State L) (Unit {0})
  pause admin = do
    require_admin e admin
    modify (λ s. record s { paused = true })
    emit (Event.contract_paused admin)

  unfoldable pub unpause : ℕ → Call (State L) (Unit {0})
  unpause admin = do
    require_admin e admin
    modify (λ s. record s { paused = false })
    emit (Event.contract_unpaused admin)

  unfoldable pub extend_expiry : ℕ → ℕ → ℕ → Call (State L) (Unit {0})
  extend_expiry admin id additional_seconds = do
    require_admin e admin
    invoice ← load_invoice id
    reject_if (not (is_pending invoice.status)) InvoiceError.not_pending
    expires_at ←
        or_reject (later_expiry invoice.expires_at additional_seconds) InvoiceError.expiry_overflow
    modify (store_invoice id (record invoice { expires_at = expires_at }))
    emit (Event.invoice_expiry_extended id invoice.expires_at expires_at)

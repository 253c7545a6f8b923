-- ===== src/Invoice/Templates.antt =====
-- Recurring invoice templates (contracts/invoice/src/entrypoints/template.rs).
use comebackhere_contracts.Prelude.{
  ℕ, zero, suc, ◌+◌, ◌<◌, ◌≡◌, ◌⊎◌, inl, Bool, true, not, ◌&&◌, ◌||◌, Option, none, some, List, [],
  ◌∷◌, push_back, length, put, assign, ltb, ◌==◌, if◌then◌else◌, arith,
}
use comebackhere_contracts.Prelude.Int.{ℤ, u64_max}
use comebackhere_contracts.Errors.Invoice.{InvoiceError}
use comebackhere_contracts.Host.{Env, Call, ◌>>=◌, ◌>>◌, pure, gets, modify, require_auth}
use comebackhere_contracts.Invoice.Types.{
  MaybeAddress, MaybeBytes, RecurrenceInterval, InvoiceTemplate, period_seconds,
}
use comebackhere_contracts.Invoice.Storage.{State, Event}
use comebackhere_contracts.Invoice.Guards.{
  reject_if, or_reject, emit, holds, require_not_paused, require_positive_amount,
  require_usdc_precision, require_expiry_not_too_long, require_hash_not_too_long,
  require_valid_payment_link_hash,
}
use comebackhere_contracts.Invoice.Lifecycle.{checked_add_u64, create_invoice_record}

abbrev template_keeper_batch_size : ℕ
template_keeper_batch_size = 20

-- The loop that advances a run past `now`, for a number of rounds.
unfoldable pub advance : ℕ → ℕ → ℕ → ℕ → ℕ
advance zero now period next_run_at = next_run_at
advance (suc rounds) now period next_run_at =
    let later = advance rounds now period (next_run_at + period) in
    if ltb now next_run_at
    then next_run_at
    else if ltb u64_max (next_run_at + period)
    then u64_max
    else later

-- With a positive period, as many rounds as the time left, and one more, are enough: the run comes to
-- lie after `now`, or is the largest time there is.
pub advance_passes :
    (rounds now period next_run_at : ℕ)
    → 0 < period
    → now < next_run_at + rounds
    → (now < advance rounds now period next_run_at)
      ⊎ (advance rounds now period next_run_at ≡ u64_max)
unfolding advance
advance_passes zero now period next_run_at positive enough = inl (omega arith)
advance_passes (suc rounds) now period next_run_at positive enough =
    ground (arith, positive, enough, advance_passes rounds now period (next_run_at + period))

module _ {L : Type 0} where
  abbrev pub store_template : ℕ → InvoiceTemplate → State L → State L
  store_template id template s = record s { template = put id template s.template }

  abbrev index_template : ℕ → ℕ → State L → State L
  index_template merchant id s = record s {
    merchant_templates =
        assign merchant (push_back (s.merchant_templates merchant) id) s.merchant_templates;
  }

module _ {L : Type 0} (e : Env L) where
  unfoldable pub create_template :
      ℕ → ℤ → ℤ → RecurrenceInterval → ℕ → MaybeBytes → MaybeBytes → Call (State L) ℕ
  create_template merchant amount_usdc gross_usdc interval expires_in_seconds metadata_hash
        payment_link_hash =
      do
        require_auth e merchant
        require_not_paused
        require_positive_amount amount_usdc gross_usdc
        require_usdc_precision amount_usdc gross_usdc
        require_hash_not_too_long metadata_hash
        require_hash_not_too_long payment_link_hash
        require_valid_payment_link_hash payment_link_hash
        reject_if (expires_in_seconds == 0) InvoiceError.zero_duration
        require_expiry_not_too_long expires_in_seconds
        count ← gets (λ s. s.template_count)
        id ← or_reject (checked_add_u64 count 1) InvoiceError.invoice_count_overflow
        next_run_at ←
            or_reject (checked_add_u64 e.now (period_seconds interval)) InvoiceError.expiry_overflow
        let template : InvoiceTemplate = record {
          id = id;
          merchant = merchant;
          amount_usdc = amount_usdc;
          gross_usdc = gross_usdc;
          interval = interval;
          expires_in_seconds = expires_in_seconds;
          metadata_hash = metadata_hash;
          payment_link_hash = payment_link_hash;
          active = true;
          next_run_at = next_run_at;
        }
        modify (store_template id template)
        modify (λ s. record s { template_count = id })
        modify (index_template merchant id)
        emit (Event.template_created id template)
        pure id

  unfoldable pub set_template_active : ℕ → ℕ → Bool → Call (State L) (Unit {0})
  set_template_active caller id active = do
    require_auth e caller
    found ← gets (λ s. s.template id)
    template ← or_reject found InvoiceError.not_found
    by_admin ← gets (λ s. holds s.admin caller)
    reject_if (not (caller == template.merchant) && not by_admin) InvoiceError.unauthorized
    modify (store_template id (record template { active = active }))
    emit (Event.template_activated id active)

  -- The invoice of a template, which has no nonce and no token.
  abbrev pub create_from : InvoiceTemplate → Call (State L) ℕ
  create_from template =
      create_invoice_record e template.merchant template.amount_usdc template.gross_usdc
        template.expires_in_seconds template.metadata_hash template.payment_link_hash 0
        MaybeAddress.none

  unfoldable pub generate_from_template : ℕ → ℕ → Call (State L) ℕ
  generate_from_template merchant template_id = do
    require_auth e merchant
    require_not_paused
    found ← gets (λ s. s.template template_id)
    template ← or_reject found InvoiceError.not_found
    reject_if (not (template.merchant == merchant)) InvoiceError.unauthorized
    reject_if (not template.active) InvoiceError.template_disabled
    invoice_id ← create_from template
    emit (Event.template_generated template_id invoice_id)
    pure invoice_id

  -- What is left to do for a due template once its invoice is created.
  abbrev pub reschedule : ℕ → InvoiceTemplate → ℕ → ℕ → Call (State L) ℕ
  reschedule id template generated invoice_id = do
    modify (
        store_template id (record template {
          next_run_at =
              advance (suc e.now) e.now (period_seconds template.interval) template.next_run_at;
        }))
    emit (Event.template_generated id invoice_id)
    pure (generated + 1)

  -- The body of the loop of the keeper, on what is stored under the id.
  unfoldable pub generate_found : ℕ → ℕ → Option InvoiceTemplate → Call (State L) ℕ
  generate_found id generated none = pure generated
  generate_found id generated (some template) =
      if not template.active || ltb e.now template.next_run_at
      then pure generated
      else create_from template >>= reschedule id template generated

  unfoldable pub generate_each : List ℕ → ℕ → Call (State L) ℕ
  generate_each [] generated = pure generated
  generate_each (id ∷ rest) generated =
      λ s. (generate_found id generated (s.template id) >>= (λ count. generate_each rest count)) s

  unfoldable pub generate_due_invoices : List ℕ → Call (State L) ℕ
  generate_due_invoices template_ids = do
    reject_if (ltb template_keeper_batch_size (length template_ids)) InvoiceError.batch_too_large
    require_not_paused
    generate_each template_ids 0

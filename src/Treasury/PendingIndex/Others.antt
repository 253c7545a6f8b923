-- ===== src/Treasury/PendingIndex/Others.antt =====
-- Batches of approvals and cancellations, and disputes, keep the index of the pending settlements.
use comebackhere_contracts.Prelude.{
  ℕ, Bool, Option, List, arith, contains-push_back, contains-without, Option-cases, inl, inr,
}
use comebackhere_contracts.Prelude.Int.{ℤ}
use comebackhere_contracts.Host.{Env, Ensures}
use comebackhere_contracts.Multisig.{record_approval, signer_weight}
use comebackhere_contracts.Multisig.Types.{Dispute}
use comebackhere_contracts.Multisig.Storage.{State, Event}
use comebackhere_contracts.Treasury.Guards.{write_settlement}
use comebackhere_contracts.Treasury.Guards.Passed.{
  require_not_paused-Ensures, require_admin-Ensures, require_authorized_signer-Ensures,
}
use comebackhere_contracts.Treasury.Proposals.{approve_one, batch_approve_settlements}
use comebackhere_contracts.Treasury.Closing.{cancel_one, batch_cancel_settlements}
use comebackhere_contracts.Treasury.Disputes.{
  hold_if_pending, release_found, release_settlement_hold_if_no_open_disputes, raise_dispute,
  expire_dispute, resolve_dispute, close_dispute, split_dispute, pay_split, settle_split,
  resolve_dispute_split, vote_dispute_resolution,
}
use comebackhere_contracts.Treasury.Lifecycle.Disputing.{pay_split-Ensures}
use comebackhere_contracts.Treasury.PendingIndex.{
  IsIndexed, KeepsIndex, KeepsIndex-bind, for_each_settlement-KeepsIndex,
}

module _ {L : Type 0} (e : Env L) where
  approve_one-IsIndexed :
      (signer weight id : ℕ) (s : State L) (k : ℕ)
      → IsIndexed s k
      → Ensures (λ _ s'. IsIndexed s' k) (approve_one signer weight id (s.settlement id) s)
  unfolding approve_one write_settlement
  approve_one-IsIndexed signer weight id s k h = ground (
    arith,
    contains-push_back s.pending_settlement_index id k,
    contains-without s.pending_settlement_index id k,
  )

  pub batch_approve_settlements-KeepsIndex :
      (signer : ℕ) (ids : List ℕ) → KeepsIndex (batch_approve_settlements e signer ids)
  unfolding batch_approve_settlements
  batch_approve_settlements-KeepsIndex signer ids s k h = ground (
    arith,
    require_not_paused-Ensures s,
    require_authorized_signer-Ensures e signer s,
    for_each_settlement-KeepsIndex (approve_one signer (signer_weight s signer))
        (approve_one-IsIndexed signer (signer_weight s signer)) ids s k h,
  )

  cancel_one-IsIndexed :
      (id : ℕ) (s : State L) (k : ℕ)
      → IsIndexed s k
      → Ensures (λ _ s'. IsIndexed s' k) (cancel_one id (s.settlement id) s)
  unfolding cancel_one write_settlement
  cancel_one-IsIndexed id s k h = ground (
    arith,
    contains-push_back s.pending_settlement_index id k,
    contains-without s.pending_settlement_index id k,
  )

  pub batch_cancel_settlements-KeepsIndex :
      (admin : ℕ) (ids : List ℕ) → KeepsIndex (batch_cancel_settlements e admin ids)
  unfolding batch_cancel_settlements
  batch_cancel_settlements-KeepsIndex admin ids s k h = ground (
    arith,
    require_admin-Ensures e admin s,
    for_each_settlement-KeepsIndex cancel_one cancel_one-IsIndexed ids s k h,
  )

  hold_if_pending-IsIndexed :
      (id : ℕ) (s : State L) (k : ℕ)
      → IsIndexed s k
      → Ensures (λ _ s'. IsIndexed s' k) (hold_if_pending id (s.settlement id) s)
  unfolding hold_if_pending write_settlement
  hold_if_pending-IsIndexed id s k h = ground (
    arith,
    contains-push_back s.pending_settlement_index id k,
    contains-without s.pending_settlement_index id k,
  )

  pub raise_dispute-KeepsIndex :
      (claimant id counterparty : ℕ) (amount : ℤ) (expires_at : ℕ) (evidence : Option (List ℕ))
      → KeepsIndex (raise_dispute e claimant id counterparty amount expires_at evidence)
  unfolding raise_dispute
  raise_dispute-KeepsIndex claimant id counterparty amount expires_at evidence s k h =
      ground (arith, require_not_paused-Ensures s, hold_if_pending-IsIndexed id s k h)

  close_dispute-KeepsIndex :
      (id : ℕ) (closed : Dispute) (event : Event)
      → KeepsIndex (close_dispute {L = L} id closed event)
  unfolding close_dispute release_settlement_hold_if_no_open_disputes release_found write_settlement
  close_dispute-KeepsIndex id closed event s k h = ground (
    arith,
    contains-push_back s.pending_settlement_index closed.settlement_id k,
    contains-without s.pending_settlement_index closed.settlement_id k,
  )

  pub expire_dispute-KeepsIndex : (admin id : ℕ) → KeepsIndex (expire_dispute e admin id)
  unfolding expire_dispute
  expire_dispute-KeepsIndex admin id s k h =
      grind (arith, require_admin-Ensures e admin s, close_dispute-KeepsIndex)

  pub resolve_dispute-KeepsIndex :
      (admin id : ℕ) (in_favor_of_claimant : Bool) (memo : Option (List ℕ))
      → KeepsIndex (resolve_dispute e admin id in_favor_of_claimant memo)
  unfolding resolve_dispute
  resolve_dispute-KeepsIndex admin id in_favor_of_claimant memo s k h = grind (
    arith,
    require_admin-Ensures e admin s,
    require_not_paused-Ensures s,
    close_dispute-KeepsIndex,
  )

  settle_split-KeepsIndex :
      (id claimant_bps token : ℕ) (memo : Option (List ℕ)) (d : Dispute)
      → KeepsIndex (settle_split e id claimant_bps token memo d)
  unfolding settle_split
  settle_split-KeepsIndex id claimant_bps token memo d s k h =
      KeepsIndex-bind k (pay_split e token claimant_bps d s) _
        (ground (arith, pay_split-Ensures e token claimant_bps d s))
        λ _. close_dispute-KeepsIndex id (split_dispute claimant_bps memo d) _

  pub resolve_dispute_split-KeepsIndex :
      (admin id claimant_bps token : ℕ) (memo : Option (List ℕ))
      → KeepsIndex (resolve_dispute_split e admin id claimant_bps token memo)
  unfolding resolve_dispute_split
  resolve_dispute_split-KeepsIndex admin id claimant_bps token memo s k h =
      elim (Option-cases (s.dispute id)) [
        | inl missing ↦
            ground (arith, require_admin-Ensures e admin s, require_not_paused-Ensures s)
        | inr (d, found) ↦ ground (
          arith,
          require_admin-Ensures e admin s,
          require_not_paused-Ensures s,
          settle_split-KeepsIndex id claimant_bps token memo d s k h,
        )
      ]

  pub vote_dispute_resolution-KeepsIndex :
      (signer id : ℕ) (in_favor_of_claimant : Bool)
      → KeepsIndex (vote_dispute_resolution e signer id in_favor_of_claimant)
  unfolding vote_dispute_resolution record_approval
  vote_dispute_resolution-KeepsIndex signer id in_favor_of_claimant s k h =
      ground (arith, require_not_paused-Ensures s, require_authorized_signer-Ensures e signer s)

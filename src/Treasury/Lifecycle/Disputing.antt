-- ===== src/Treasury/Lifecycle/Disputing.antt =====
-- Raising and settling disputes keeps to the life cycle of the settlements.
use comebackhere_contracts.Prelude.{ℕ, Bool, Option, List, inl, inr, Option-cases, ◌≡◌, arith}
use comebackhere_contracts.Prelude.Int.{ℤ}
use comebackhere_contracts.Host.{Env, Ensures}
use comebackhere_contracts.Multisig.{record_approval}
use comebackhere_contracts.Multisig.Types.{Dispute}
use comebackhere_contracts.Multisig.Storage.{State, Event}
use comebackhere_contracts.Treasury.Guards.{write_settlement}
use comebackhere_contracts.Treasury.Guards.Passed.{
  require_not_paused-Ensures, require_admin-Ensures, require_authorized_signer-Ensures,
}
use comebackhere_contracts.Treasury.Disputes.{
  hold_if_pending, release_found, release_settlement_hold_if_no_open_disputes, raise_dispute,
  expire_dispute, resolve_dispute, close_dispute, split_dispute, pay_split, settle_split,
  resolve_dispute_split, vote_dispute_resolution,
}
use comebackhere_contracts.Treasury.Lifecycle.{Keeps, Onward-bind}

module _ {L : Type 0} (e : Env L) where
  pub raise_dispute-Keeps :
      (claimant id counterparty : ℕ) (amount : ℤ) (expires_at : ℕ) (evidence : Option (List ℕ))
      → Keeps (raise_dispute e claimant id counterparty amount expires_at evidence)
  unfolding raise_dispute hold_if_pending write_settlement
  raise_dispute-Keeps claimant id counterparty amount expires_at evidence s k h =
      ground (arith, require_not_paused-Ensures s)

  close_dispute-Keeps :
      (id : ℕ) (closed : Dispute) (event : Event) → Keeps (close_dispute {L = L} id closed event)
  unfolding close_dispute release_settlement_hold_if_no_open_disputes release_found write_settlement
  close_dispute-Keeps id closed event s k h = ground arith

  pub expire_dispute-Keeps : (admin id : ℕ) → Keeps (expire_dispute e admin id)
  unfolding expire_dispute close_dispute release_settlement_hold_if_no_open_disputes release_found
      write_settlement
  expire_dispute-Keeps admin id s k h = ground (arith, require_admin-Ensures e admin s)

  pub resolve_dispute-Keeps :
      (admin id : ℕ) (in_favor_of_claimant : Bool) (memo : Option (List ℕ))
      → Keeps (resolve_dispute e admin id in_favor_of_claimant memo)
  unfolding resolve_dispute close_dispute release_settlement_hold_if_no_open_disputes release_found
      write_settlement
  resolve_dispute-Keeps admin id in_favor_of_claimant memo s k h =
      ground (arith, require_admin-Ensures e admin s, require_not_paused-Ensures s)

  -- The payouts of a split change the token contracts only.
  pub pay_split-Ensures :
      (token claimant_bps : ℕ) (d : Dispute) (s : State L)
      → Ensures (λ _ s'. s' ≡ record s { ledger = s'.ledger }) (pay_split e token claimant_bps d s)
  unfolding pay_split
  pay_split-Ensures token claimant_bps d s = ground arith

  settle_split-Keeps :
      (id claimant_bps token : ℕ) (memo : Option (List ℕ)) (d : Dispute)
      → Keeps (settle_split e id claimant_bps token memo d)
  unfolding settle_split
  settle_split-Keeps id claimant_bps token memo d s k h =
      Onward-bind k s (pay_split e token claimant_bps d s) _
        (ground (arith, pay_split-Ensures token claimant_bps d s))
        λ _. close_dispute-Keeps id (split_dispute claimant_bps memo d) _

  pub resolve_dispute_split-Keeps :
      (admin id claimant_bps token : ℕ) (memo : Option (List ℕ))
      → Keeps (resolve_dispute_split e admin id claimant_bps token memo)
  unfolding resolve_dispute_split
  resolve_dispute_split-Keeps admin id claimant_bps token memo s k h =
      elim (Option-cases (s.dispute id)) [
        | inl missing ↦
            ground (arith, require_admin-Ensures e admin s, require_not_paused-Ensures s)
        | inr (d, found) ↦ ground (
          arith,
          require_admin-Ensures e admin s,
          require_not_paused-Ensures s,
          settle_split-Keeps id claimant_bps token memo d s k h,
        )
      ]

  pub vote_dispute_resolution-Keeps :
      (signer id : ℕ) (in_favor_of_claimant : Bool)
      → Keeps (vote_dispute_resolution e signer id in_favor_of_claimant)
  unfolding vote_dispute_resolution record_approval
  vote_dispute_resolution-Keeps signer id in_favor_of_claimant s k h =
      ground (arith, require_not_paused-Ensures s, require_authorized_signer-Ensures e signer s)

-- ===== src/Treasury/Payments/Batch.antt =====
-- What `batch_execute_settlements` does not test (contracts/treasury/src/settlements.rs).
use comebackhere_contracts.Prelude.{
  ℕ, ◌<◌, ◌≡◌, ◌≢◌, some, [], ◌∷◌, put, arith, contains, true, false,
}
use comebackhere_contracts.Errors.{error, execution_deadline_exceeded}
use comebackhere_contracts.Host.{Env, ok, err}
use comebackhere_contracts.Multisig.{require_authorized_signer, meets_threshold}
use comebackhere_contracts.Multisig.Types.{Settlement, SettlementStatus}
use comebackhere_contracts.Multisig.Storage.{State, Event}
use comebackhere_contracts.Treasury.Guards.{require_not_paused, for_each_settlement}
use comebackhere_contracts.Treasury.Execution.{
  check_executable, execute_settlement, execute_one, execute_found, batch_execute_settlements,
  payout_address,
}
use comebackhere_contracts.Treasury.PendingIndex.{stored_pending}
use comebackhere_contracts.Treasury.Payments.{IsActiveSigner, HasQuorum, IsListed, paid}

module _ {L : Type 0} (e : Env L) (signer id token : ℕ) (s : State L) (a : Settlement)
    (ledger : L) where
  -- A pending settlement with a quorum is paid by a batch whatever its deadline and whatever the
  -- compliance contract says: no condition on either is among the hypotheses.
  pub batch_pays :
      IsActiveSigner e s signer
      → s.settlement id ≡ some a
      → a.status ≡ SettlementStatus.pending
      → HasQuorum e s a
      → token ≢ e.self
      → IsListed e s token
      → e.token_transfer token e.self (payout_address s a.merchant_address) a.amount s.ledger
        ≡ some ledger
      → batch_execute_settlements e signer (id ∷ []) token s
        ≡ ok (
          paid a ∷ [],
          record s {
            settlement = put id (paid a) s.settlement;
            events = Event.settlement_executed id (paid a) ∷ s.events;
            ledger = ledger;
          },
        )
  unfolding batch_execute_settlements require_not_paused require_authorized_signer meets_threshold
      for_each_settlement execute_one execute_found
  batch_pays active stored pending quorum foreign listed moved = ground arith

  -- After the deadline of a pending settlement with a quorum, the single call refuses the payment
  -- with `ExecutionDeadlineExceeded` where the batch of that one settlement makes it.
  pub batch_ignores_deadline :
      IsActiveSigner e s signer
      → s.settlement id ≡ some a
      → a.status ≡ SettlementStatus.pending
      → HasQuorum e s a
      → 0 < a.execution_deadline
      → a.execution_deadline < e.now
      → token ≢ e.self
      → IsListed e s token
      → e.token_transfer token e.self (payout_address s a.merchant_address) a.amount s.ledger
        ≡ some ledger
      → (execute_settlement e signer id token s ≡ err (error execution_deadline_exceeded))
        × (batch_execute_settlements e signer (id ∷ []) token s
            ≡ ok (
              paid a ∷ [],
              record s {
                settlement = put id (paid a) s.settlement;
                events = Event.settlement_executed id (paid a) ∷ s.events;
                ledger = ledger;
              },
            ))
  unfolding execute_settlement check_executable require_not_paused require_authorized_signer
      meets_threshold
  batch_ignores_deadline active stored pending quorum set over foreign listed moved =
      (ground arith, batch_pays active stored pending quorum foreign listed moved)

  -- Let an active signer execute a batch of exactly one id, of a pending settlement that has its quorum
  -- and is listed in the index of the pending settlements, in another contract's token that is
  -- allowed and whose transfer succeeds. The batch pays it and leaves it listed there, although the
  -- stored settlement is no longer pending.
  pub batch_leaves_index_stale :
      IsActiveSigner e s signer
      → s.settlement id ≡ some a
      → a.status ≡ SettlementStatus.pending
      → HasQuorum e s a
      → token ≢ e.self
      → IsListed e s token
      → e.token_transfer token e.self (payout_address s a.merchant_address) a.amount s.ledger
        ≡ some ledger
      → contains s.pending_settlement_index id ≡ true
      → (s' : State L) × (batch_execute_settlements e signer (id ∷ []) token s
          ≡ ok (paid a ∷ [], s'))
        × (contains s'.pending_settlement_index id ≡ true)
        × (stored_pending (s'.settlement id) ≡ false)
  batch_leaves_index_stale active stored pending quorum foreign listed moved indexed =
      (_, batch_pays active stored pending quorum foreign listed moved, indexed, ground arith)

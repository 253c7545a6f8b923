-- ===== src/Multisig/Approvals.antt =====
-- Laws of `record_approval` and `revoke_approval` of crates/multisig/src/lib.rs.
use comebackhere_contracts.Prelude.{
  ℕ, ◌+◌, ◌^◌, ◌≤◌, ◌<◌, ◌≡◌, true, false, List, some, arith, contains, Distinct, push_back,
  push_back-Distinct, contains-push_back, remove_first-push_back, put,
}
use comebackhere_contracts.Host.{Env, Ensures, ok}
use comebackhere_contracts.Multisig.Storage.{State}
use comebackhere_contracts.Multisig.{record_approval, revoke_approval, signer_weight}

module _ {L : Type 0} (e : Env L) (approvals : List ℕ) (weight signer : ℕ) (s : State L) where
  -- What one approval does to the accumulators and to the storage.
  pub record_approval-Ensures :
      Ensures
        (λ r s'.
          (s' ≡ record s { signer_last_active = put signer e.now s.signer_last_active })
          × (contains r.0 signer ≡ true)
          × (weight < 2 ^ 32 → r.1 < 2 ^ 32)
          × (weight ≤ r.1)
          × (Distinct approvals → Distinct r.0))
        (record_approval e approvals weight signer s)
  unfolding record_approval
  record_approval-Ensures =
      ground
        (arith, push_back-Distinct approvals signer, contains-push_back approvals signer signer)

  -- A signer who has not approved and whose weight does not push the sum past `u32` is recorded
  -- with that weight; recording the signer again changes neither accumulator; and revoking the
  -- approval, while the weight of the signer is the same, gives back the accumulators from before.
  pub revoke_approval-record_approval :
      contains approvals signer ≡ false
      → weight + signer_weight s signer < 2 ^ 32
      → let recorded = push_back approvals signer in
        let sum = weight + signer_weight s signer in
        let s' : State L = record s {
          signer_last_active = put signer e.now s.signer_last_active;
        } in
        (record_approval e approvals weight signer s ≡ ok ((recorded, sum), s'))
        × (record_approval e recorded sum signer s'
            ≡ ok (
              (recorded, sum),
              record s' { signer_last_active = put signer e.now s'.signer_last_active },
            ))
        × (revoke_approval s' recorded sum signer ≡ some (approvals, weight))
  unfolding record_approval revoke_approval signer_weight
  revoke_approval-record_approval fresh fits = ground (
    arith,
    contains-push_back approvals signer signer,
    remove_first-push_back approvals signer fresh,
  )

-- ===== src/Treasury/Signers.antt =====
-- contracts/treasury/src/signers.rs: the signer registry and signer rotations.
use comebackhere_contracts.Prelude.{
  ℕ, ◌+◌, ◌-◌, ◌^◌, Bool, true, false, not, Option, none, some, List, [], ◌∷◌, get_or, put, Map,
  remove, length, is_empty, contains, without, push_back, ltb, leb, ◌==◌, if◌then◌else◌,
}
use comebackhere_contracts.Prelude.Int.{saturating_add}
use comebackhere_contracts.Errors.{
  invalid_amount, label_too_long, quorum_break, rotation_proposal_cooldown, arithmetic_overflow,
  rotation_not_found, rotation_already_executed,
}
use comebackhere_contracts.Host.{Env, Call, ◌>>=◌, ◌>>◌, pure, gets, modify, fail_if, or_fail}
use comebackhere_contracts.Multisig.{
  signer_weight, require_authorized_signer, record_approval, meets_threshold,
}
use comebackhere_contracts.Multisig.Types.{
  SignerRotationProposal, RotationStatus, is_pending_rotation,
}
use comebackhere_contracts.Multisig.Storage.{State, Event}
use comebackhere_contracts.Treasury.Guards.{emit, require_admin}

abbrev pub u32_max : ℕ
u32_max = 2 ^ 32 - 1

abbrev pub saturating_add_u32 : ℕ → ℕ → ℕ
saturating_add_u32 a b = if ltb u32_max (a + b) then u32_max else a + b

abbrev pub cooldown_secs : ℕ
cooldown_secs = 3600

abbrev pub max_signer_label_len : ℕ
max_signer_label_len = 64

abbrev pub insert_signer : List ℕ → ℕ → List ℕ
insert_signer list signer = if contains list signer then list else push_back list signer

abbrev set_label : ℕ → List ℕ → (ℕ → Option (List ℕ)) → ℕ → Option (List ℕ)
set_label signer label labels j =
    if signer == j then (if is_empty label then none else some label) else labels j

abbrev cooling_down : ℕ → Option ℕ → Bool
cooling_down now none = false
cooling_down now (some last) = ltb now (saturating_add last cooldown_secs)

-- The loop of `remove_signer` over the list, from `total`.
abbrev pub saturating_weight : Map ℕ → List ℕ → ℕ → ℕ
saturating_weight weights [] total = total
saturating_weight weights (signer ∷ rest) total =
    saturating_weight weights rest (saturating_add_u32 total (get_or (weights signer) 0))

module _ {L : Type 0} where
  unfoldable pub set_signer : Env L → ℕ → ℕ → ℕ → Call (State L) (Unit {0})
  set_signer e admin signer weight = do
    require_admin e admin
    fail_if (weight == 0) invalid_amount
    modify (λ s. record s {
      signer = put signer weight s.signer;
      signer_list = insert_signer s.signer_list signer;
    })
    emit (Event.signer_weight_set signer weight)

  unfoldable pub set_signer_label : Env L → ℕ → ℕ → List ℕ → Call (State L) (Unit {0})
  set_signer_label e admin signer label = do
    require_admin e admin
    fail_if (ltb max_signer_label_len (length label)) label_too_long
    modify (λ s. record s { signer_label = set_label signer label s.signer_label })
    emit (Event.signer_label_set signer label)

  unfoldable pub remove_signer : Env L → ℕ → ℕ → Call (State L) (Unit {0})
  remove_signer e admin signer = do
    require_admin e admin
    threshold ← gets (λ s. get_or s.threshold 0)
    weight ← gets (λ s. get_or (s.signer signer) 0)
    total ← gets (λ s. saturating_weight s.signer s.signer_list 0)
    fail_if (ltb (total - weight) threshold) quorum_break
    modify (λ s. record s {
      signer = remove signer s.signer;
      signer_list = without s.signer_list signer;
    })
    emit (Event.signer_removed signer)

  unfoldable pub propose_signer_rotation : Env L → ℕ → ℕ → ℕ → Call (State L) ℕ
  propose_signer_rotation e proposer old_signer new_signer = do
    require_authorized_signer e proposer
    last ← gets (λ s. s.last_rotation_proposal proposer)
    fail_if (cooling_down e.now last) rotation_proposal_cooldown
    modify (λ s. record s { last_rotation_proposal = put proposer e.now s.last_rotation_proposal })
    count ← gets (λ s. s.rotation_count)
    let id = count + 1
    fail_if (leb (2 ^ 64) id) arithmetic_overflow
    approved ← record_approval e [] 0 proposer
    captured ← gets (λ s. signer_weight s old_signer)
    let proposal : SignerRotationProposal = record {
      id = id;
      old_signer = old_signer;
      new_signer = new_signer;
      approvals = approved.0;
      approval_weight = approved.1;
      status = RotationStatus.pending;
      captured_old_weight = captured;
    }
    modify
        (λ s. record s { signer_rotation = put id proposal s.signer_rotation; rotation_count = id })
    emit (Event.rotation_proposed id proposal)
    pure id

  -- `new_signer` takes the captured weight, and then `old_signer` is set to zero.
  abbrev pub rotate : SignerRotationProposal → State L → State L
  rotate p s = record s {
    signer = put p.old_signer 0 (put p.new_signer p.captured_old_weight s.signer);
  }

  unfoldable pub finish_rotation :
      ℕ → SignerRotationProposal → Bool → Call (State L) SignerRotationProposal
  finish_rotation id p false = pure p
  finish_rotation id p true = do
    modify (rotate p)
    let executed = record p { status = RotationStatus.executed }
    emit (Event.rotation_executed id executed)
    pure executed

  unfoldable pub approve_signer_rotation : Env L → ℕ → ℕ → Call (State L) SignerRotationProposal
  approve_signer_rotation e approver id = do
    require_authorized_signer e approver
    found ← gets (λ s. s.signer_rotation id)
    proposal ← or_fail found rotation_not_found
    fail_if (not (is_pending_rotation proposal.status)) rotation_already_executed
    approved ← record_approval e proposal.approvals proposal.approval_weight approver
    let updated = record proposal { approvals = approved.0; approval_weight = approved.1 }
    threshold ← gets (λ s. get_or s.threshold 1)
    final ← finish_rotation id updated (meets_threshold updated.approval_weight threshold)
    modify (λ s. record s { signer_rotation = put id final s.signer_rotation })
    emit (Event.rotation_approved id final)
    pure final

  unfoldable pub cancel_rotation : Env L → ℕ → ℕ → Call (State L) SignerRotationProposal
  cancel_rotation e admin id = do
    require_admin e admin
    found ← gets (λ s. s.signer_rotation id)
    proposal ← or_fail found rotation_not_found
    fail_if (not (is_pending_rotation proposal.status)) rotation_already_executed
    let updated = record proposal { status = RotationStatus.cancelled }
    modify (λ s. record s { signer_rotation = put id updated s.signer_rotation })
    emit (Event.rotation_cancelled id updated)
    pure updated

  unfoldable pub get_all_signers : State L → List ℕ → List (ℕ × ℕ × Option (List ℕ))
  get_all_signers s [] = []
  get_all_signers s (signer ∷ rest) =
      (signer, get_or (s.signer signer) 0, s.signer_label signer) ∷ get_all_signers s rest

-- ===== src/Workflow/Machine.antt =====
-- The entrypoints of contracts/settlement-workflow/src/lib.rs that change the storage, as data, and
-- the states that they reach. A failed call leaves everything as it was.
pub mod Invariant
pub mod Reached
use comebackhere_contracts.Prelude.{ℕ, ◌≡◌, true, Option, some, none, List, sym}
use comebackhere_contracts.Host.{Env, Call, Result, ok, err, ◌>>=◌, ◌>>◌, pure}
use comebackhere_contracts.Workflow.Storage.{State, Contracts}
use comebackhere_contracts.Workflow.Admin
use comebackhere_contracts.Workflow.Gate
use comebackhere_contracts.Workflow.Emergency

pub data Op : Type 0 where
  transfer_admin : ℕ → ℕ → Op
  accept_admin pause unpause : ℕ → Op
  execute_with_compliance : ℕ → ℕ → ℕ → Op
  execute_with_compliance_batch : List ℕ → ℕ → ℕ → Op
  initialize_emergency_pause : ℕ → List ℕ → Op
  emergency_pause_all : ℕ → Op
  resume_all : ℕ → ℕ → Op

unfoldable pub call : {W L : Type 0} → Env L → Contracts W → Op → Call (State W) (Unit {0})
call e c (Op.transfer_admin admin new_admin) = Admin.transfer_admin e admin new_admin
call e c (Op.accept_admin new_admin) = Admin.accept_admin e new_admin
call e c (Op.pause admin) = Admin.pause e admin
call e c (Op.unpause admin) = Admin.unpause e admin
call e c (Op.execute_with_compliance id token merchant) =
    Gate.execute_with_compliance e c id token merchant
call e c (Op.execute_with_compliance_batch ids token merchant) =
    Gate.execute_with_compliance_batch e c ids token merchant >> pure tt
call e c (Op.initialize_emergency_pause admin targets) =
    Emergency.initialize_emergency_pause e admin targets
call e c (Op.emergency_pause_all admin) = Emergency.emergency_pause_all e c admin >> pure tt
call e c (Op.resume_all admin min_delay_secs) =
    Emergency.resume_all e c admin min_delay_secs >> pure tt

-- The storage after a call.
abbrev pub left : {W : Type 0} → State W → Result (Unit {0} × State W) → State W
left s (ok r) = r.1
left s (err f) = s

-- What the contract at the address `self_address` can come to: `changed` is a change of the other
-- contracts by other transactions, between two calls.
pub data Reachable {W : Type 0} (L : Type 0) (c : Contracts W)
    (self_address compliance treasury : ℕ) : State W → Type 0 where
  deployed :
      (e : Env L) (admin : ℕ) (w : W) (s : State W)
      → Admin.constructed e admin compliance treasury (Admin.undeployed w) ≡ ok (tt, s)
      → Reachable L c self_address compliance treasury s
  called :
      (e : Env L) (op : Op) (s : State W)
      → Reachable L c self_address compliance treasury s
      → e.self ≡ self_address
      → Reachable L c self_address compliance treasury (left s (call e c op s))
  changed :
      (w : W) (s : State W)
      → Reachable L c self_address compliance treasury s
      → Reachable L c self_address compliance treasury (record s { world = w })

-- ===== src/Business/Kept.antt =====
-- A predicate of the node's state that the interactors keep, if their ways to act on the state do.
pub mod Confirm
pub mod Validate
pub mod Detect
pub mod Submit
pub mod Signatures
pub mod Node
use validatornode.Common.{ℕ, String, true, Option, some, All, ◌≡◌}
use validatornode.Common.Int.{ℤ}
use mathlib.Core.List.{Memᴰ}
use validatornode.Exec.{
  Exec, ok, reply, Exception, Call, unknown_transfer_error, transfer_interactor_error,
}
use validatornode.Exec.Keeps.{Keeps, Keeps-catch, Keeps-raise, keeps_rules}
use validatornode.Entities.{CrossChainTransfer}
use validatornode.Entities.Dict.{from_dict}
use validatornode.Database.Models.{Database}
use validatornode.Database.Kept.{IsAccess, access_rules}
use validatornode.Business.Client.{
  Env, Task, TaskName, TransferToSubmissionStartRequest, ReadOutgoingTransfersFromBlockResponse,
}
use validatornode.Business.State.{State, db, call, call_db, schedule_task, on_foreign_error}

-- A confirmation has the ID of the submission.
abbrev pub HasSubmission : TaskName → Option String → Type 0
HasSubmission TaskName.confirm_transfer o = (x : String) × (o ≡ some x)
HasSubmission _ o = Unit

-- Two transfers between the same blockchains.
abbrev pub SameBlockchains : CrossChainTransfer → CrossChainTransfer → Type 0
SameBlockchains t t' =
    (t'.source_blockchain ≡ t.source_blockchain)
    × (t'.destination_blockchain ≡ t.destination_blockchain)

-- `Good` is what is known of the transfers that are handed on from one task to the next.
pub record IsKept {W : Type 0} (env : Env W) (P : State W → Type 0)
    (Good : CrossChainTransfer → Type 0) : Type 1 where
  pub on_db : {A : Type 0} (m : Exec Database A) → IsAccess m → Keeps P (db m)
  pub on_call : {A : Type 0} (m : Call W A) → Keeps P (call m)
  pub on_start :
      (b : ℕ) (r : TransferToSubmissionStartRequest)
      → Keeps P (call_db (env.client.start_transfer_to_submission b r))
  pub on_schedule :
      (name : TaskName) (id : ℕ) (t : CrossChainTransfer) (x : Option String)
      → Good t
      → HasSubmission name x
      → Keeps P (schedule_task env name id t x)
  pub outside : (s : State W) (w : W) → P s → P (record s { world = w })
  pub good_same : (t t' : CrossChainTransfer) → SameBlockchains t t' → Good t → Good t'
  pub good_read :
      (b : ℕ) (n : ℤ) (w w' : W) (r : ReadOutgoingTransfersFromBlockResponse)
      → env.is_active b ≡ true
      → env.client.read_outgoing_transfers_from_block b n w ≡ (reply r, w')
      → All Good r.outgoing_transfers
  pub good_task :
      (s s' : State W) (task : Task) (t : CrossChainTransfer)
      → P s
      → Memᴰ task s.tasks
      → from_dict env.is_blockchain task.transfer_dict s ≡ (ok t, s')
      → Good t

pub Keeps-foreign :
    {W A : Type 0} {P : State W → Type 0} (e : Exception)
    → Keeps P (on_foreign_error {W = W} {A = A} e)
Keeps-foreign unknown_transfer_error = Keeps-raise unknown_transfer_error
Keeps-foreign _ = Keeps-raise transfer_interactor_error

pub ruleset method_rules = (access_rules, Keeps-foreign, keeps_rules)

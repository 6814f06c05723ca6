-- ===== src/Business/Transfers/Confirm/Outcomes.antt =====
-- What `confirm_transfer` does with each answer about the submitted transaction.
use validatornode.Common.{
  ℕ, String, Bool, true, false, none, some, [], ◌∷◌, ◌++◌, if◌then◌else◌, ◌≡◌, arith, inl, inr,
}
use validatornode.Exec.{
  ok, failure, reply, Reply, unresolvable_transfer_to_submission_error, Exec-cases, Call-cases,
}
use validatornode.Entities.{CrossChainTransfer, eventual_destination_blockchain}
use validatornode.Database.Models.{
  Transfer, value, source_transaction_detected, source_reversal_transaction_confirmed,
  destination_transaction_confirmed,
}
use validatornode.Database.Access.Updates.{
  reset_transfer_nonce, update_transfer_status, update_transfer_confirmed_destination_transaction,
}
use validatornode.Database.Rows.{
  HasRow, reset_transfer_nonce-HasRow, update_transfer_status-HasRow,
  update_transfer_task_id-HasRow, confirmed-HasRow,
}
use validatornode.Business.Client.{
  Env, TaskName, confirmed, reverted, TransferToSubmissionStatusResponse,
}
use validatornode.Business.State.{State, schedule_task, get_task_interval}
use validatornode.Business.Transfers.Confirm.{
  restart_validation, record_confirmation, on_response, confirm_transfer,
}
use validatornode.Business.Transfers.Tasks.Schedule.{scheduled_task}

-- The answers after which the validation starts again.
pub data IsFailed : Reply TransferToSubmissionStatusResponse → Type 0 where
  unresolvable : IsFailed (failure unresolvable_transfer_to_submission_error)
  is_reverted :
      (r : TransferToSubmissionStatusResponse)
      → r.transaction_submission_completed ≡ true
      → r.transaction_status ≡ some reverted
      → IsFailed (reply r)

module _ {W : Type 0} (env : Env W) (id : ℕ) (t : CrossChainTransfer) where
  restart_validation-HasRow :
      (row : Transfer) (s : State W)
      → HasRow id row s.database
      → (restart_validation env id t s).0 ≡ ok tt
      → (task_id : String) × HasRow id
          (record row {
            nonce = none;
            status_id = value source_transaction_detected;
            task_id = some task_id;
          })
          (restart_validation env id t s).1.database
        × ((restart_validation env id t s).1.tasks
            ≡ s.tasks ++ scheduled_task env TaskName.validate_transfer id t none ∷ [])
  unfolding restart_validation schedule_task get_task_interval
  restart_validation-HasRow row s h done =
      let db₁ = (reset_transfer_nonce id s.database).1 in
      let h₁ = (reset_transfer_nonce-HasRow id row s.database h).1 in
      let db₂ = (update_transfer_status id source_transaction_detected db₁).1 in
      let h₂ =
        update_transfer_status-HasRow id (record row { nonce = none }) db₁ h₁
          source_transaction_detected in
      elim (Call-cases
        (env.apply_async (scheduled_task env TaskName.validate_transfer id t none) s.world)) [
          | inl (f, w, e) ↦ absurd (ground (arith, reset_transfer_nonce-HasRow id row s.database h))
          | inr (task_id, w, e) ↦ (
            task_id,
            ground (
              arith,
              reset_transfer_nonce-HasRow id row s.database h,
              update_transfer_task_id-HasRow id
                  (record row { nonce = none; status_id = value source_transaction_detected }) db₂
                  h₂.1 task_id,
            ),
            ground (arith, reset_transfer_nonce-HasRow id row s.database h),
          )
        ]

  module _ (s : State W) (transaction_id : String) (w : W)
      (active : env.is_active (eventual_destination_blockchain t) ≡ true) where
    abbrev status_call : Reply TransferToSubmissionStatusResponse × W
    status_call =
        env.client.get_transfer_to_submission_status (eventual_destination_blockchain t)
          transaction_id s.world

    -- If the submission could not be resolved, or its transaction was reverted, then a confirmation
    -- that ends without an exception is completed: the transfer's record has no nonce, the status
    -- SOURCE_TRANSACTION_DETECTED and the ID of a new task, and that task, the last one in the
    -- queue, validates the same transfer again.
    pub confirm_transfer-restarts :
        (answer : Reply TransferToSubmissionStatusResponse) (row : Transfer) (b : Bool)
        → status_call ≡ (answer, w)
        → IsFailed answer
        → HasRow id row s.database
        → (confirm_transfer env id transaction_id t s).0 ≡ ok b
        → (b ≡ true)
          × ((task_id : String) × HasRow id
                (record row {
                  nonce = none;
                  status_id = value source_transaction_detected;
                  task_id = some task_id;
                })
                (confirm_transfer env id transaction_id t s).1.database
              × ((confirm_transfer env id transaction_id t s).1.tasks
                  ≡ s.tasks ++ scheduled_task env TaskName.validate_transfer id t none ∷ []))
    unfolding confirm_transfer on_response
    confirm_transfer-restarts answer row b e unresolvable h done =
        elim (Exec-cases (restart_validation env id t (record s { world = w }))) [
          | inl (x, s', p) ↦ absurd (ground arith)
          | inr (u, s', p) ↦
              let (task_id, r, q) =
                restart_validation-HasRow row (record s { world = w }) h (ground arith) in
              (ground arith, (task_id, ground arith, ground arith))
        ]
    confirm_transfer-restarts answer row b e (is_reverted r completed status) h done =
        elim (Exec-cases (restart_validation env id t (record s { world = w }))) [
          | inl (x, s', p) ↦ absurd (ground arith)
          | inr (u, s', p) ↦
              let (task_id, r, q) =
                restart_validation-HasRow row (record s { world = w }) h (ground arith) in
              (ground arith, (task_id, ground arith, ground arith))
        ]

    -- While the submission is not completed, the confirmation returns False and changes nothing but
    -- the world outside.
    pub confirm_transfer-waits :
        (r : TransferToSubmissionStatusResponse)
        → status_call ≡ (reply r, w)
        → r.transaction_submission_completed ≡ false
        → confirm_transfer env id transaction_id t s ≡ (ok false, record s { world = w })
    unfolding confirm_transfer on_response
    confirm_transfer-waits r e pending = ground arith

    -- If the transaction was confirmed, a confirmation that ends without an exception is completed:
    -- it has recorded the destination transfer ID, the transaction and its block, and the confirmed
    -- status of a reversal or of a transfer to the destination; no task is scheduled.
    pub confirm_transfer-confirms :
        (r : TransferToSubmissionStatusResponse) (row : Transfer) (b : Bool) (x : String) (n d : ℕ)
        → status_call ≡ (reply r, w)
        → r.transaction_submission_completed ≡ true
        → r.transaction_status ≡ some confirmed
        → r.transaction_id ≡ some x
        → r.block_number ≡ some n
        → r.destination_transfer_id ≡ some d
        → HasRow id row s.database
        → (confirm_transfer env id transaction_id t s).0 ≡ ok b
        → (b ≡ true)
          × HasRow id
              (record row {
                destination_transfer_id = some d;
                destination_transaction_id = some x;
                destination_block_number = some n;
                status_id =
                    if t.is_reversal_transfer
                    then value source_reversal_transaction_confirmed
                    else value destination_transaction_confirmed;
              })
              (confirm_transfer env id transaction_id t s).1.database
          × ((confirm_transfer env id transaction_id t s).1.tasks ≡ s.tasks)
    unfolding confirm_transfer on_response record_confirmation
    confirm_transfer-confirms r row b x n d e completed status ex en ed h done =
        let s₁ = record s { world = w } in
        let status_id =
          if t.is_reversal_transfer
          then source_reversal_transaction_confirmed
          else destination_transaction_confirmed in
        elim (Exec-cases (update_transfer_confirmed_destination_transaction id d x n s.database)) [
          | inl (y, d', p) ↦ absurd (ground arith)
          | inr (u, d', p) ↦
              let h₁ = confirmed-HasRow id row s.database h d x n (ground arith) in
              let h₂ =
                update_transfer_status-HasRow id
                  (record row {
                    destination_transfer_id = some d;
                    destination_transaction_id = some x;
                    destination_block_number = some n;
                  })
                  d' (ground arith) status_id in
              (ground arith, ground arith, ground arith)
        ]

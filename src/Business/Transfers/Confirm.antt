-- ===== src/Business/Transfers/Confirm.antt =====
-- business/transfers.py: `confirm_transfer`, `__restart_validation` and `get_validator_nonce`.
pub mod Outcomes
use validatornode.Common.{ℕ, String, Bool, true, false, Option, none, some, if◌then◌else◌, arith}
use validatornode.Exec.{
  Exec, Exception, Fault, fault, unresolvable_transfer_to_submission_error, assertion_error, Result,
  unknown_transfer_error, pure, raise, ◌>>=◌, ◌>>◌, catch, or_raise,
}
use validatornode.Entities.{Blockchain, CrossChainTransfer, eventual_destination_blockchain}
use validatornode.Database.Models.{
  TransferStatus, source_transaction_detected, source_reversal_transaction_confirmed,
  destination_transaction_confirmed,
}
use validatornode.Database.Access.Transfers.{read_validator_nonce_by_source_transaction_id}
use validatornode.Database.Access.Updates.{
  reset_transfer_nonce, update_transfer_confirmed_destination_transaction, update_transfer_status,
  update_transfer_task_id,
}
use validatornode.Business.Client.{
  Env, TransactionStatus, unincluded, unconfirmed, confirmed, reverted, validate_transfer,
  TransferToSubmissionStatusResponse,
}
use validatornode.Business.State.{
  State, db, call, or_interactor_error, or_foreign_error, get_blockchain_client, schedule_task,
}

module _ {W : Type 0} (env : Env W) where
  unfoldable pub restart_validation : ℕ → CrossChainTransfer → Exec (State W) (Unit {0})
  restart_validation internal_transfer_id transfer = do
    db (reset_transfer_nonce internal_transfer_id)
    db (update_transfer_status internal_transfer_id source_transaction_detected)
    task_id ← schedule_task env validate_transfer internal_transfer_id transfer none
    db (update_transfer_task_id internal_transfer_id task_id)

  -- A confirmed transaction: the assertions, and the record of the transfer.
  unfoldable pub record_confirmation :
      ℕ → CrossChainTransfer → TransferToSubmissionStatusResponse → Exec (State W) Bool
  record_confirmation internal_transfer_id transfer response = do
    transaction_id ← or_raise response.transaction_id assertion_error
    block_number ← or_raise response.block_number assertion_error
    destination_transfer_id ← or_raise response.destination_transfer_id assertion_error
    db (
        update_transfer_confirmed_destination_transaction internal_transfer_id
          destination_transfer_id transaction_id block_number)
    db (
        update_transfer_status internal_transfer_id (
          if transfer.is_reversal_transfer
          then source_reversal_transaction_confirmed
          else destination_transaction_confirmed))
    pure true

  -- The tests of `transaction_status`, once the submission is completed.
  abbrev pub on_status :
      ℕ
      → CrossChainTransfer
      → TransferToSubmissionStatusResponse
      → Option TransactionStatus
      → Exec (State W) Bool
  on_status internal_transfer_id transfer response (some reverted) =
      restart_validation internal_transfer_id transfer >> pure true
  on_status internal_transfer_id transfer response (some confirmed) =
      record_confirmation internal_transfer_id transfer response
  on_status internal_transfer_id transfer response _ = raise assertion_error

  unfoldable pub on_response :
      ℕ → CrossChainTransfer → TransferToSubmissionStatusResponse → Exec (State W) Bool
  on_response internal_transfer_id transfer response =
      if response.transaction_submission_completed
      then on_status internal_transfer_id transfer response response.transaction_status
      else pure false

  -- `except UnresolvableTransferToSubmissionError`, around the request for the status alone
  abbrev pub on_reply :
      ℕ → CrossChainTransfer → Result TransferToSubmissionStatusResponse → Exec (State W) Bool
  on_reply internal_transfer_id transfer (Result.ok response) =
      on_response internal_transfer_id transfer response
  on_reply internal_transfer_id transfer
        (Result.err (fault unresolvable_transfer_to_submission_error)) =
      restart_validation internal_transfer_id transfer >> pure true
  on_reply internal_transfer_id transfer (Result.err e) = raise e

  unfoldable pub confirm_transfer : ℕ → String → CrossChainTransfer → Exec (State W) Bool
  confirm_transfer internal_transfer_id internal_transaction_id transfer = or_interactor_error (do
    get_blockchain_client env (eventual_destination_blockchain transfer)
    λ s.
        let (r, s') =
          call
            (env.client.get_transfer_to_submission_status (eventual_destination_blockchain transfer)
              internal_transaction_id)
            s in
        on_reply internal_transfer_id transfer r s')

  unfoldable pub get_validator_nonce : Blockchain → String → Exec (State W) ℕ
  get_validator_nonce source_blockchain source_transaction_id = or_foreign_error (do
    validator_nonce ←
        db (read_validator_nonce_by_source_transaction_id source_blockchain source_transaction_id)
    or_raise validator_nonce unknown_transfer_error)

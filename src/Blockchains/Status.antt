-- ===== src/Blockchains/Status.antt =====
-- blockchains/base.py: `get_transfer_to_submission_status`; blockchains/ethereum.py:
-- `_read_transfer_to_transaction_data`.
pub mod Complete
use validatornode.Common.{
  ℕ, String, Bool, true, false, Option, none, some, List, [], ◌∷◌, if◌then◌else◌,
}
use validatornode.Exec.{
  Exec, Fault, fault, other_fault, unresolvable_transfer_to_submission_error, assertion_error, Call,
  Result, ok, err, pure, raise, lift, assert, or_raise, ◌>>=◌, ◌>>◌,
}
use validatornode.Business.Client.{
  TransactionStatus, unincluded, unconfirmed, confirmed, reverted,
  TransferToSubmissionStatusResponse,
}
use validatornode.Blockchains.Ethereum.Nodes.{on_nodes, or_node_error}

-- What pantos.common says of a submission.
pub record SubmissionStatus : Type 0 where
  pub transaction_submission_completed : Bool
  pub transaction_status : Option TransactionStatus
  pub transaction_id : Option String

-- Its call returns a status, or raises a `BlockchainUtilitiesError` or another exception.
pub data StatusReply : Type 0 where
  status : SubmissionStatus → StatusReply
  blockchain_utilities_error : StatusReply
  status_fault : Fault → StatusReply

pub record TransactionData : Type 0 where
  pub block_number : ℕ
  pub destination_transfer_id : Option ℕ

-- A transaction's receipt: the block, and the IDs of the `TransferToSucceeded` events.
pub record Receipt : Type 0 where
  pub block_number : ℕ
  pub destination_transfer_ids : List ℕ

-- `[0]` of the events raises an `IndexError` where there is none.
abbrev pub first_id : Bool → List ℕ → Result (Option ℕ)
first_id false ids = ok none
first_id true [] = err (fault other_fault)
first_id true (id ∷ ids) = ok (some id)

-- `in [TransactionStatus.CONFIRMED, TransactionStatus.REVERTED]`
abbrev pub is_final : Option TransactionStatus → Bool
is_final (some confirmed) = true
is_final (some reverted) = true
is_final _ = false

abbrev pub is_confirmed : Option TransactionStatus → Bool
is_confirmed (some confirmed) = true
is_confirmed _ = false

module _ {W : Type 0} (get_transaction_submission_status : String → W → StatusReply × W)
    (get_transaction_receipt : String → Call W Receipt) where
  unfoldable pub read_transfer_to_transaction_data : String → Bool → Exec W TransactionData
  read_transfer_to_transaction_data transaction_id read_destination_transfer_id = or_node_error (do
    receipt ← on_nodes (get_transaction_receipt transaction_id)
    destination_transfer_id ←
        lift (first_id read_destination_transfer_id receipt.destination_transfer_ids)
    pure (record {
      block_number = receipt.block_number;
      destination_transfer_id = destination_transfer_id;
    }))

  -- From the status on.
  unfoldable pub status_response : SubmissionStatus → Exec W TransferToSubmissionStatusResponse
  unfolding read_transfer_to_transaction_data
  status_response s =
      if s.transaction_submission_completed
      then (do
        assert (is_final s.transaction_status)
        transaction_id ← or_raise s.transaction_id assertion_error
        transaction_data ←
            read_transfer_to_transaction_data transaction_id (is_confirmed s.transaction_status)
        pure (record {
          transaction_submission_completed = true;
          transaction_status = s.transaction_status;
          transaction_id = some transaction_id;
          block_number = some transaction_data.block_number;
          destination_transfer_id = transaction_data.destination_transfer_id;
        }))
      else pure (record {
        transaction_submission_completed = false;
        transaction_status = none;
        transaction_id = none;
        block_number = none;
        destination_transfer_id = none;
      })

  abbrev pub on_status_reply : StatusReply → Exec W TransferToSubmissionStatusResponse
  on_status_reply (status s) = status_response s
  on_status_reply blockchain_utilities_error =
      raise (fault unresolvable_transfer_to_submission_error)
  on_status_reply (status_fault f) = raise (fault f)

  unfoldable pub get_transfer_to_submission_status :
      String → Exec W TransferToSubmissionStatusResponse
  get_transfer_to_submission_status internal_transaction_id w =
      let (r, w') = get_transaction_submission_status internal_transaction_id w in
      on_status_reply r w'

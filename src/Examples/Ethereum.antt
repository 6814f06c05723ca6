-- ===== src/Examples/Ethereum.antt =====
-- The parts of blockchains/ethereum.py around a submission and around event logs, at a client of
-- blockchain 1.
use validatornode.Common.{ℕ, ◌+◌, String, true, some, List, [], ◌∷◌, map, All, ltb, ◌≡◌, refl}
use validatornode.Common.Hex.{hex_value}
use validatornode.Common.Int.{pos}
use validatornode.Exec.{Call, reply, ok, err, fault, source_transfer_id_already_used_error}
use validatornode.Entities.{BlockchainAddress, eventual_destination_blockchain}
use validatornode.Database.Access.Signatures.{Signatures, lookup}
use validatornode.Database.Consistency.{IsConsistent}
use validatornode.Business.Client.{
  TransferToSubmissionStartRequest, TransferToSubmissionStatusResponse, confirmed,
}
use validatornode.Blockchains.Ethereum.Signers.{
  sort_validator_node_signatures, sort_signers, lookup_all,
}
use validatornode.Blockchains.Ethereum.Signers.Order.{sort-IsAscending, IsAscending, AreStored}
use validatornode.Blockchains.Ethereum.Submission.{OnChainTransferToRequest}
use validatornode.Blockchains.Ethereum.Start.{
  VerifyReply, verified, contract_logic_error, start_transfer_to_submission,
}
use validatornode.Blockchains.Ethereum.Start.Errors.{
  IsClientResult, start_transfer_to_submission-IsClientFault, start_transfer_to_submission-refused,
}
use validatornode.Blockchains.Ethereum.Blocks.{range, read_event_logs, read_logs_from_block}
use validatornode.Blockchains.Ethereum.Logs.{
  EventLog, create_outgoing_transfer, create_outgoing_transfers, outgoing_transfer,
  read_outgoing_transfers_from_block,
}
use validatornode.Blockchains.Ethereum.Logs.Transfers.{
  IsOutgoing, read_outgoing_transfers_from_block-IsOutgoing,
}
use validatornode.Blockchains.Status.{
  StatusReply, SubmissionStatus, status, Receipt, get_transfer_to_submission_status,
  status_response, read_transfer_to_transaction_data,
}
use validatornode.Blockchains.Status.Complete.{
  IsComplete, get_transfer_to_submission_status-IsComplete,
}
use validatornode.Examples.{database, database-IsConsistent, outgoing}
use validatornode.Examples.Nonces.{config, count, accepts, before}
use mathlib.Core.List.{Perm}

abbrev signatures : Signatures
signatures = ("0x0b", "second") ∷ ("0x0A", "first") ∷ []

sorted_by_value :
    sort_validator_node_signatures signatures ≡ ok ("0x0A" ∷ "0x0b" ∷ [], "first" ∷ "second" ∷ [])
unfolding sort_validator_node_signatures hex_value sort_signers lookup_all lookup
sorted_by_value = refl

sort-IsAscending_example :
    (sorted : List (ℕ × BlockchainAddress)) × (found : List String)
    × (sort_validator_node_signatures signatures ≡ ok (map (λ x. x.1) sorted, found))
    × Perm sorted ((11, "0x0b") ∷ (10, "0x0A") ∷ [])
    × IsAscending sorted
    × AreStored signatures (map (λ x. x.1) sorted) found
unfolding hex_value
sort-IsAscending_example = sort-IsAscending signatures ((11, "0x0b") ∷ (10, "0x0A") ∷ []) refl

abbrev request : TransferToSubmissionStartRequest
request = record {
  internal_transfer_id = 7;
  incoming_transfer = outgoing;
  validator_nonce = 77;
  validator_node_signatures = signatures;
}

abbrev pub verifies :
    OnChainTransferToRequest → List BlockchainAddress → List String → ℕ → VerifyReply × ℕ
verifies r addresses found w = (verified, w + 1)

abbrev denies :
    OnChainTransferToRequest → List BlockchainAddress → List String → ℕ → VerifyReply × ℕ
denies r addresses found w =
    (contract_logic_error "PantosHub: source transfer ID already used", w + 1)

start_transfer_to_submission-IsClientFault_example :
    IsConsistent (start_transfer_to_submission config count verifies accepts request before).1.0
    × IsClientResult (start_transfer_to_submission config count verifies accepts request before).0
start_transfer_to_submission-IsClientFault_example =
    start_transfer_to_submission-IsClientFault config count verifies accepts request before
      database-IsConsistent

start_transfer_to_submission-refused_example :
    ((start_transfer_to_submission config count denies accepts request before).0
      ≡ err (fault source_transfer_id_already_used_error))
    × ((start_transfer_to_submission config count denies accepts request before).1.0 ≡ database)
unfolding eventual_destination_blockchain
start_transfer_to_submission-refused_example =
    start_transfer_to_submission-refused config count denies accepts request before
      ("0x0A" ∷ "0x0b" ∷ []) ("first" ∷ "second" ∷ []) "PantosHub: source transfer ID already used"
      refl sorted_by_value refl

abbrev pub log : EventLog
log = record {
  event = "TransferFromSucceeded";
  source_transfer_id = 13;
  destination_blockchain_id = 1;
  sender = "alice";
  recipient = "bob";
  source_token = "token0";
  destination_token = "token1";
  amount = 6;
  service_node = "service";
  fee = 1;
  transaction_hash = "tx13";
  block_number = 101;
  block_hash = "hash101";
}

-- Each block has this event.
abbrev logs_of_range : ℕ → ℕ → Call ℕ (List EventLog)
logs_of_range a b w = (reply (log ∷ []), w + 1)

read_outgoing_transfers_from_block-IsOutgoing_example :
    All (IsOutgoing (λ b. ltb b 8) 0) (outgoing_transfer (λ b. ltb b 8) 0 "hub0" log ∷ [])
unfolding read_outgoing_transfers_from_block read_logs_from_block read_event_logs range
    create_outgoing_transfers create_outgoing_transfer
read_outgoing_transfers_from_block-IsOutgoing_example =
    read_outgoing_transfers_from_block-IsOutgoing (λ b. ltb b 8) 0 "hub0" (λ w. (reply 102, w))
      logs_of_range 10 100 0 1
      (record {
        outgoing_transfers = outgoing_transfer (λ b. ltb b 8) 0 "hub0" log ∷ [];
        to_block_number = pos 102;
      })
      refl

abbrev pub completed : String → ℕ → StatusReply × ℕ
completed x w = (
  status (record {
    transaction_submission_completed = true;
    transaction_status = some confirmed;
    transaction_id = some "tx99";
  }),
  w,
)

abbrev pub receipt : String → Call ℕ Receipt
receipt x w = (reply (record { block_number = 55; destination_transfer_ids = 4 ∷ [] }), w)

abbrev response : TransferToSubmissionStatusResponse
response = record {
  transaction_submission_completed = true;
  transaction_status = some confirmed;
  transaction_id = some "tx99";
  block_number = some 55;
  destination_transfer_id = some 4;
}

get_transfer_to_submission_status-IsComplete_example :
    (s : SubmissionStatus) × (w₁ : ℕ) × (completed "submission" 0 ≡ (status s, w₁))
    × IsComplete completed receipt s w₁ response 0
unfolding get_transfer_to_submission_status status_response read_transfer_to_transaction_data
get_transfer_to_submission_status-IsComplete_example =
    get_transfer_to_submission_status-IsComplete completed receipt "submission" 0 0 response refl

-- ===== src/Blockchains/Clients.antt =====
-- The interface `BlockchainClient` (blockchains/base.py) as blockchains/ethereum.py implements it, one
-- client for each blockchain. The subclasses of `EthereumClient` differ from it in the blockchain and
-- the error class only.
pub mod Soundness
pub mod Detection
pub mod Queue
use validatornode.Common.{ℕ, String, Bool, Option, List, ◌≡◌, refl}
use validatornode.Common.Int.{ℤ, pos, negsuc}
use validatornode.Exec.{
  Exec, Result, ok, err, Exception, fault, Fault, other_fault, blockchain_client_error, Reply,
  reply, failure, Call,
}
use validatornode.Entities.{Blockchain, BlockchainAddress}
use validatornode.Database.Models.{Database}
use validatornode.Business.Client.{
  BlockchainClient, TransactionStatus, ReadOutgoingTransfersFromBlockResponse,
}
use validatornode.Blockchains.Status.{StatusReply, Receipt, get_transfer_to_submission_status}
use validatornode.Blockchains.Ethereum.{
  EthereumClient, recover_transfer_to_signer_address, sign_transfer_to_message,
}
use validatornode.Blockchains.Ethereum.Nodes.{
  ContractValue, is_token_active, is_valid_validator_nonce, read_external_token_address,
  read_minimum_validator_node_signatures, read_token_decimals, read_validator_node_addresses,
}
use validatornode.Blockchains.Ethereum.Signers.{is_valid_recipient_address}
use validatornode.Blockchains.Ethereum.Logs.{
  EventLog, read_outgoing_transfers_from_block, read_outgoing_transfers_in_transaction,
}
use validatornode.Blockchains.Ethereum.Submission.{
  SubmissionConfig, OnChainTransferToRequest, TransactionSubmissionStartRequest, SubmissionReply,
}
use validatornode.Blockchains.Ethereum.Start.{VerifyReply, start_transfer_to_submission}

-- A client's configuration and key, and what it calls of web3 and pantos.common.
pub record EthereumNodes (W : Type 0) : Type 0 where
  pub signer : EthereumClient
  pub own_address : BlockchainAddress
  pub submission : SubmissionConfig
  pub outgoing_transfers_number_blocks : ℕ
  pub to_checksum_address : String → Option String
  pub is_equal_address : Option BlockchainAddress → BlockchainAddress → Call W Bool
  pub get_token_record : BlockchainAddress → Call W (List ContractValue)
  pub is_valid_validator_node_nonce : ℕ → Call W Bool
  pub get_external_token_record : BlockchainAddress → Blockchain → Call W (List ContractValue)
  pub get_minimum_validator_node_signatures : Call W ℕ
  pub get_decimals : BlockchainAddress → Call W ContractValue
  pub get_validator_nodes : Call W (List BlockchainAddress)
  pub get_block_number : Call W ℕ
  pub get_logs : ℕ → ℕ → Call W (List EventLog)
  pub get_hub_receipt : String → BlockchainAddress → Call W (String × List EventLog)
  pub read_transaction_status : String → Call W TransactionStatus
  pub get_transaction_submission_status : String → W → StatusReply × W
  pub get_transaction_receipt : String → Call W Receipt
  pub get_transaction_count : Call W ℕ
  pub call_verify_transfer_to :
      OnChainTransferToRequest → List BlockchainAddress → List String → W → VerifyReply × W
  pub start_transaction_submission : TransactionSubmissionStartRequest → W → SubmissionReply × W

abbrev pub to_reply : {A : Type 0} → Result A → Reply A
to_reply (ok a) = reply a
to_reply (err (fault f)) = failure f
to_reply (err e) = failure other_fault

-- An exception is a failure of the call.
pub to_reply_err :
    {A : Type 0} (x : Exception) → (f : Fault) × (to_reply {A = A} (err x) ≡ failure f)
to_reply_err (fault f) = (f, refl)
to_reply_err x = (other_fault, refl)

abbrev pub as_call : {S A : Type 0} → Exec S A → Call S A
as_call m s = let (r, s') = m s in (to_reply r, s')

module _ {W : Type 0} where
  -- `detect_new_transfers` never asks for a negative block.
  abbrev read_from :
      (ℕ → Exec W ReadOutgoingTransfersFromBlockResponse)
      → ℤ
      → Call W ReadOutgoingTransfersFromBlockResponse
  read_from read (pos n) w = as_call (read n) w
  read_from read (negsuc n) w = (failure blockchain_client_error, w)

  abbrev pub ethereum_clients : (ℕ → Bool) → (Blockchain → EthereumNodes W) → BlockchainClient W
  ethereum_clients is_blockchain nodes = record {
    get_own_address = λ b. (nodes b).own_address;
    get_transfer_to_submission_status = λ b x. as_call (
        get_transfer_to_submission_status (nodes b).get_transaction_submission_status
          (nodes b).get_transaction_receipt x);
    is_equal_address = λ b. (nodes b).is_equal_address;
    is_token_active = λ b a. as_call (is_token_active (nodes b).get_token_record a);
    is_valid_recipient_address = λ b. is_valid_recipient_address (nodes b).to_checksum_address;
    is_valid_validator_nonce =
        λ b n. as_call (is_valid_validator_nonce (nodes b).is_valid_validator_node_nonce n);
    read_external_token_address =
        λ b a b'. as_call (read_external_token_address (nodes b).get_external_token_record a b');
    read_minimum_validator_node_signatures = λ b.
        as_call
          (read_minimum_validator_node_signatures (nodes b).get_minimum_validator_node_signatures);
    read_outgoing_transfers_from_block = λ b. read_from (
        read_outgoing_transfers_from_block is_blockchain b (nodes b).get_block_number
          (nodes b).get_logs (nodes b).signer.hub (nodes b).outgoing_transfers_number_blocks);
    read_outgoing_transfers_in_transaction = λ b x a.
        as_call
          (read_outgoing_transfers_in_transaction is_blockchain b (nodes b).get_hub_receipt x a);
    read_token_decimals = λ b a. as_call (read_token_decimals (nodes b).get_decimals a);
    read_transaction_status = λ b. (nodes b).read_transaction_status;
    read_validator_node_addresses =
        λ b. as_call (read_validator_node_addresses (nodes b).get_validator_nodes);
    recover_transfer_to_signer_address =
        λ b r w. (to_reply (recover_transfer_to_signer_address (nodes b).signer r), w);
    sign_transfer_to_message = λ b r w. (to_reply (sign_transfer_to_message (nodes b).signer r), w);
    start_transfer_to_submission = λ b r. as_call (
        start_transfer_to_submission (nodes b).submission (nodes b).get_transaction_count
          (nodes b).call_verify_transfer_to (nodes b).start_transaction_submission r);
  }

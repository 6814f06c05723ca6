-- ===== src/Business/Client.antt =====
-- The interfaces through which the interactors reach the outside: the methods of `BlockchainClient`
-- (blockchains/base.py), of `PrimaryNodeClient` (restclient.py), the task queue, the random
-- numbers and the configuration. A client is known by its blockchain, and its methods act on `W`,
-- the world outside. `start_transfer_to_submission` also assigns nonces in the database.
use validatornode.Common.{ℕ, String, Bool, Option, List}
use validatornode.Common.Int.{ℤ}
use validatornode.Exec.{Call}
use validatornode.Entities.{Blockchain, BlockchainAddress, CrossChainTransfer}
use validatornode.Entities.Dict.{CrossChainTransferDict}
use validatornode.Database.Models.{Database}
use validatornode.Database.Session.{Engine}
use validatornode.Database.Access.Signatures.{Signatures}

pub data TransactionStatus : Type 0 where
  unincluded unconfirmed confirmed reverted : TransactionStatus

pub record ReadOutgoingTransfersFromBlockResponse : Type 0 where
  pub outgoing_transfers : List CrossChainTransfer
  pub to_block_number : ℤ

pub record TransferToSignerAddressRecoveryRequest : Type 0 where
  pub source_blockchain : Blockchain
  pub source_transaction_id : String
  pub source_transfer_id : ℕ
  pub sender_address : BlockchainAddress
  pub recipient_address : BlockchainAddress
  pub source_token_address : BlockchainAddress
  pub destination_token_address : BlockchainAddress
  pub amount : ℕ
  pub validator_nonce : ℕ
  pub signature : String

pub record TransferToMessageSignRequest : Type 0 where
  pub incoming_transfer : CrossChainTransfer
  pub validator_nonce : ℕ
  pub destination_hub_address : BlockchainAddress
  pub destination_forwarder_address : BlockchainAddress

pub record TransferToSubmissionStartRequest : Type 0 where
  pub internal_transfer_id : ℕ
  pub incoming_transfer : CrossChainTransfer
  pub validator_nonce : ℕ
  pub validator_node_signatures : Signatures

pub record TransferToSubmissionStatusResponse : Type 0 where
  pub transaction_submission_completed : Bool
  pub transaction_status : Option TransactionStatus
  pub transaction_id : Option String
  pub block_number : Option ℕ
  pub destination_transfer_id : Option ℕ

pub record BlockchainClient (W : Type 0) : Type 0 where
  pub get_own_address : Blockchain → BlockchainAddress
  pub get_transfer_to_submission_status :
      Blockchain → String → Call W TransferToSubmissionStatusResponse
  pub is_equal_address : Blockchain → Option BlockchainAddress → BlockchainAddress → Call W Bool
  pub is_token_active : Blockchain → BlockchainAddress → Call W Bool
  pub is_valid_recipient_address : Blockchain → BlockchainAddress → Bool
  pub is_valid_validator_nonce : Blockchain → ℕ → Call W Bool
  pub read_external_token_address :
      Blockchain → BlockchainAddress → Blockchain → Call W (Option BlockchainAddress)
  pub read_minimum_validator_node_signatures : Blockchain → Call W ℕ
  pub read_outgoing_transfers_from_block :
      Blockchain → ℤ → Call W ReadOutgoingTransfersFromBlockResponse
  pub read_outgoing_transfers_in_transaction :
      Blockchain → String → BlockchainAddress → Call W (List CrossChainTransfer)
  pub read_token_decimals : Blockchain → BlockchainAddress → Call W ℕ
  -- `get_utilities().read_transaction_status` of pantos.common
  pub read_transaction_status : Blockchain → String → Call W TransactionStatus
  pub read_validator_node_addresses : Blockchain → Call W (List BlockchainAddress)
  pub recover_transfer_to_signer_address :
      Blockchain → TransferToSignerAddressRecoveryRequest → Call W BlockchainAddress
  pub sign_transfer_to_message : Blockchain → TransferToMessageSignRequest → Call W String
  pub start_transfer_to_submission :
      Blockchain → TransferToSubmissionStartRequest → Call (Database × W) String

pub record PrimaryNodeClient (W : Type 0) : Type 0 where
  pub get_validator_nonce : Blockchain → String → Call W ℕ
  pub post_transfer_signature : Blockchain → String → String → Call W (Unit {0})

pub data TaskName : Type 0 where
  confirm_transfer submit_transfer_to_primary_node submit_transfer_onchain : TaskName
  validate_transfer : TaskName

-- The arguments of a task: the internal transaction ID stands in those of `confirm_transfer`.
pub record Task : Type 0 where
  pub name : TaskName
  pub internal_transfer_id : ℕ
  pub internal_transaction_id : Option String
  pub transfer_dict : CrossChainTransferDict
  pub countdown : ℕ

pub record Env (W : Type 0) : Type 0 where
  pub engine : Engine
  pub client : BlockchainClient W
  pub primary_node_client : PrimaryNodeClient W
  -- `random.getrandbits(256)`, and the rounds that the model gives to the loop around it
  pub getrandbits : Call W ℕ
  pub rounds : ℕ
  -- `task.apply_async`, which returns the ID of the task
  pub apply_async : Task → Call W String
  -- the members of the enumeration `Blockchain`
  pub is_blockchain : ℕ → Bool
  -- configuration.py
  pub is_primary_node : Bool
  pub is_active : Blockchain → Bool
  pub hub : Blockchain → BlockchainAddress
  pub forwarder : Blockchain → BlockchainAddress
  pub confirmations : Blockchain → ℕ
  pub from_block : Blockchain → ℕ
  pub retry_interval_in_seconds : TaskName → ℕ
  pub retry_interval_after_error_in_seconds : TaskName → ℕ

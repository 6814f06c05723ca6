-- ===== src/Database/Models.antt =====
-- database/models.py and database/enums.py: the tables, each a list of rows, and the statuses.
-- The time stamps and the names of blockchains and statuses are left out, since no code reads them.
use validatornode.Common.{ℕ, String, Option, List}
use validatornode.Common.Int.{ℤ}
use validatornode.Entities.{Blockchain, BlockchainAddress}

pub data TransferStatus : Type 0 where
  source_transaction_detected source_transaction_reverted : TransferStatus
  source_transaction_invalid : TransferStatus
  destination_transaction_failed destination_transaction_submitted : TransferStatus
  destination_transaction_confirmed : TransferStatus
  source_reversal_transaction_failed source_reversal_transaction_submitted : TransferStatus
  source_reversal_transaction_confirmed : TransferStatus
  source_transaction_detected_new_nonce_assigned : TransferStatus
  destination_transaction_failed_new_nonce_assigned : TransferStatus
  source_reversal_transaction_failed_new_nonce_assigned : TransferStatus

-- `TransferStatus.….value`, which the column `status_id` holds
abbrev pub value : TransferStatus → ℕ
value source_transaction_detected = 0
value source_transaction_reverted = 1
value source_transaction_invalid = 2
value destination_transaction_failed = 3
value destination_transaction_submitted = 4
value destination_transaction_confirmed = 5
value source_reversal_transaction_failed = 6
value source_reversal_transaction_submitted = 7
value source_reversal_transaction_confirmed = 8
value source_transaction_detected_new_nonce_assigned = 100
value destination_transaction_failed_new_nonce_assigned = 103
value source_reversal_transaction_failed_new_nonce_assigned = 106

-- A row of `blockchains`.
pub record BlockchainRow : Type 0 where
  pub id : ℕ
  pub last_block_number : ℤ

-- A row of `hub_contracts`, of `forwarder_contracts` or of `token_contracts`.
pub record Contract : Type 0 where
  pub id : ℕ
  pub blockchain_id : Blockchain
  pub address : BlockchainAddress

pub record ValidatorNode : Type 0 where
  pub id : ℕ
  pub forwarder_contract_id : ℕ
  pub address : BlockchainAddress

pub record ValidatorNodeSignature : Type 0 where
  pub transfer_id : ℕ
  pub validator_node_id : ℕ
  pub signature : String

pub record Transfer : Type 0 where
  pub id : ℕ
  pub source_blockchain_id : Blockchain
  pub destination_blockchain_id : Blockchain
  pub sender_address : BlockchainAddress
  pub recipient_address : BlockchainAddress
  pub source_token_contract_id : ℕ
  pub destination_token_contract_id : ℕ
  pub amount : ℕ
  pub validator_nonce : ℕ
  pub source_hub_contract_id : ℕ
  pub destination_hub_contract_id : Option ℕ
  pub destination_forwarder_contract_id : Option ℕ
  pub task_id : Option String
  pub source_transfer_id : ℕ
  pub destination_transfer_id : Option ℕ
  pub source_transaction_id : String
  pub destination_transaction_id : Option String
  pub source_block_number : ℕ
  pub destination_block_number : Option ℕ
  pub nonce : Option ℕ
  pub status_id : ℕ

pub record Database : Type 0 where
  pub blockchains : List BlockchainRow
  pub hub_contracts : List Contract
  pub forwarder_contracts : List Contract
  pub token_contracts : List Contract
  pub validator_nodes : List ValidatorNode
  pub validator_node_signatures : List ValidatorNodeSignature
  pub transfers : List Transfer

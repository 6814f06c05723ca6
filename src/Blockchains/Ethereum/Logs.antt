-- ===== src/Blockchains/Ethereum/Logs.antt =====
-- blockchains/ethereum.py: `__create_outgoing_transfers`, and the two methods that read transfers.
pub mod Transfers
use validatornode.Common.{
  ℕ, String, Bool, false, not, ◌&&◌, List, [], ◌∷◌, if◌then◌else◌, ◌==◌, str_eq, ltb,
}
use validatornode.Common.Int.{pos}
use validatornode.Exec.{
  Exec, Result, ok, err, assertion_error, value_error, Call, pure, lift, assert, ◌>>=◌, ◌>>◌,
}
use validatornode.Entities.{Blockchain, BlockchainAddress, CrossChainTransfer}
use validatornode.Business.Client.{ReadOutgoingTransfersFromBlockResponse}
use validatornode.Blockchains.Ethereum.Nodes.{on_nodes, or_node_error}
use validatornode.Blockchains.Ethereum.Blocks.{read_logs_from_block}

-- An event log: its arguments, and its transaction and block. The types of the values, which the
-- `isinstance` assertions check, are those that web3 decodes from the contract's interface.
pub record EventLog : Type 0 where
  pub event : String
  pub source_transfer_id : ℕ
  pub destination_blockchain_id : ℕ
  pub sender : BlockchainAddress
  pub recipient : BlockchainAddress
  pub source_token : BlockchainAddress
  pub destination_token : BlockchainAddress
  pub amount : ℕ
  pub service_node : BlockchainAddress
  pub fee : ℕ
  pub transaction_hash : String
  pub block_number : ℕ
  pub block_hash : String

module _ (is_blockchain : ℕ → Bool) (blockchain : Blockchain) (hub_contract_address : String) where
  abbrev pub outgoing_transfer : EventLog → CrossChainTransfer
  outgoing_transfer log = record {
    source_blockchain = blockchain;
    destination_blockchain = log.destination_blockchain_id;
    source_hub_address = hub_contract_address;
    source_transfer_id = log.source_transfer_id;
    source_transaction_id = log.transaction_hash;
    source_block_number = log.block_number;
    source_block_hash = log.block_hash;
    sender_address = log.sender;
    recipient_address = log.recipient;
    source_token_address = log.source_token;
    destination_token_address = log.destination_token;
    amount = log.amount;
    fee = log.fee;
    service_node_address = log.service_node;
    is_reversal_transfer = false;
  }

  unfoldable pub create_outgoing_transfer : EventLog → Result CrossChainTransfer
  create_outgoing_transfer log =
      if not (str_eq log.event "TransferFromSucceeded")
      then err assertion_error
      else if not (is_blockchain log.destination_blockchain_id)
      then err value_error
      else if blockchain == log.destination_blockchain_id
      then err assertion_error
      else ok (outgoing_transfer log)

  abbrev append_transfer :
      Result CrossChainTransfer
      → Result (List CrossChainTransfer)
      → Result (List CrossChainTransfer)
  append_transfer (err e) rest = err e
  append_transfer (ok t) (err e) = err e
  append_transfer (ok t) (ok ts) = ok (t ∷ ts)

  unfoldable pub create_outgoing_transfers : List EventLog → Result (List CrossChainTransfer)
  create_outgoing_transfers [] = ok []
  create_outgoing_transfers (log ∷ logs) =
      append_transfer (create_outgoing_transfer log) (create_outgoing_transfers logs)

module _ {W : Type 0} (is_blockchain : ℕ → Bool) (blockchain : Blockchain) where
  -- `get_block_number` and `get_logs` are those of pantos.common, for the Hub of the configuration.
  unfoldable pub read_outgoing_transfers_from_block :
      Call W ℕ
      → (ℕ → ℕ → Call W (List EventLog))
      → BlockchainAddress
      → ℕ
      → ℕ
      → Exec W ReadOutgoingTransfersFromBlockResponse
  read_outgoing_transfers_from_block get_block_number get_logs hub number_blocks from_block_number =
      or_node_error (do
        latest_block_number ← on_nodes get_block_number
        event_logs ←
            read_logs_from_block (λ a b. on_nodes (get_logs a b)) number_blocks latest_block_number
              from_block_number
        outgoing_transfers ←
            lift (create_outgoing_transfers is_blockchain blockchain hub event_logs)
        pure (record {
          outgoing_transfers = outgoing_transfers;
          to_block_number = pos latest_block_number;
        }))

  -- `get_receipt` is the transaction's hash with the logs of the Hub's events in its receipt.
  unfoldable pub read_outgoing_transfers_in_transaction :
      (String → BlockchainAddress → Call W (String × List EventLog))
      → String
      → BlockchainAddress
      → Exec W (List CrossChainTransfer)
  read_outgoing_transfers_in_transaction get_receipt transaction_id hub_address = or_node_error (do
    receipt ← on_nodes (get_receipt transaction_id hub_address)
    assert (str_eq receipt.0 transaction_id)
    lift (create_outgoing_transfers is_blockchain blockchain hub_address receipt.1))

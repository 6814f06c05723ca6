-- ===== src/Entities/Transfer.antt =====
-- entities.py: the cross-chain transfer, its equality, and its eventual destination.
use validatornode.Common.{ℕ, String, Bool, true, false, ◌&&◌, if◌then◌else◌, ◌==◌, str_eq}

-- A blockchain is known by the value of its member in the enumeration `Blockchain`, which belongs
-- to the package pantos.common.
abbrev pub Blockchain : Type 0
Blockchain = ℕ

abbrev pub BlockchainAddress : Type 0
BlockchainAddress = String

pub record CrossChainTransfer : Type 0 where
  pub source_blockchain : Blockchain
  pub destination_blockchain : Blockchain
  pub source_hub_address : BlockchainAddress
  pub source_transfer_id : ℕ
  pub source_transaction_id : String
  pub source_block_number : ℕ
  pub source_block_hash : String
  pub sender_address : BlockchainAddress
  pub recipient_address : BlockchainAddress
  pub source_token_address : BlockchainAddress
  pub destination_token_address : BlockchainAddress
  pub amount : ℕ
  pub fee : ℕ
  pub service_node_address : BlockchainAddress
  pub is_reversal_transfer : Bool

unfoldable pub eventual_destination_blockchain : CrossChainTransfer → Blockchain
eventual_destination_blockchain t =
    if t.is_reversal_transfer then t.source_blockchain else t.destination_blockchain

unfoldable pub eventual_recipient_address : CrossChainTransfer → BlockchainAddress
eventual_recipient_address t =
    if t.is_reversal_transfer then t.sender_address else t.recipient_address

unfoldable pub eventual_destination_token_address : CrossChainTransfer → BlockchainAddress
eventual_destination_token_address t =
    if t.is_reversal_transfer then t.source_token_address else t.destination_token_address

-- `==` between booleans
abbrev pub bool_eq : Bool → Bool → Bool
bool_eq a b = if a then b else if b then false else true

-- The equality of a dataclass: every field.
unfoldable pub transfer_eq : CrossChainTransfer → CrossChainTransfer → Bool
transfer_eq t u =
    t.source_blockchain == u.source_blockchain
    && (t.destination_blockchain == u.destination_blockchain
        && (str_eq t.source_hub_address u.source_hub_address
            && (t.source_transfer_id == u.source_transfer_id
                && (str_eq t.source_transaction_id u.source_transaction_id
                    && (t.source_block_number == u.source_block_number
                        && (str_eq t.source_block_hash u.source_block_hash
                            && (str_eq t.sender_address u.sender_address
                                && (str_eq t.recipient_address u.recipient_address
                                    && (str_eq t.source_token_address u.source_token_address
                                        && (str_eq t.destination_token_address
                                              u.destination_token_address
                                            && (t.amount == u.amount
                                                && (t.fee == u.fee
                                                    && (str_eq t.service_node_address
                                                          u.service_node_address
                                                        && bool_eq t.is_reversal_transfer
                                                            u.is_reversal_transfer)))))))))))))

-- ===== src/Blockchains/Ethereum.antt =====
-- blockchains/ethereum.py: the message that the validator nodes sign, its signing, and the recovery
-- of a signer.
pub mod Nodes
pub mod Signers
pub mod Start
pub mod Messages
pub mod Submission
pub mod Blocks
pub mod Logs
use validatornode.Common.{
  ℕ, String, Bool, true, false, not, Option, none, some, if◌then◌else◌, ◌==◌, str_eq,
}
use validatornode.Exec.{Result, ok, err, fault, blockchain_client_error, other_fault}
use validatornode.Entities.{
  Blockchain, BlockchainAddress, CrossChainTransfer, eventual_destination_blockchain,
  eventual_recipient_address, eventual_destination_token_address,
}
use validatornode.Business.Client.{
  TransferToMessageSignRequest, TransferToSignerAddressRecoveryRequest,
}

-- The dictionary of `__get_transfer_to_message_data`.
pub record TransferToMessage : Type 0 where
  pub source_blockchain_id : ℕ
  pub source_transfer_id : ℕ
  pub source_transaction_id : String
  pub sender : BlockchainAddress
  pub recipient : BlockchainAddress
  pub source_token : BlockchainAddress
  pub destination_token : BlockchainAddress
  pub amount : ℕ
  pub nonce : ℕ
  pub destination_blockchain_id : ℕ
  pub pantos_hub : BlockchainAddress
  pub pantos_forwarder : BlockchainAddress
  pub pantos_token : BlockchainAddress

-- The dictionary of `__get_eip712_domain_data`; its name is a constant.
pub record DomainData : Type 0 where
  pub version : String
  pub chain_id : ℕ
  pub verifying_contract : BlockchainAddress

-- How `encode_typed_data` and then `recover_message` end: the first raises, the second does, or the
-- signer's address is recovered.
pub data Recovery : Type 0 where
  not_encoded not_recovered : Recovery
  recovered : BlockchainAddress → Recovery

-- A client: its blockchain and configuration, its key, and `sign_typed_data`, which may raise, and
-- the recovery of a signer of the packages web3 and eth_account.
pub record EthereumClient : Type 0 where
  pub blockchain : Blockchain
  pub hub : BlockchainAddress
  pub forwarder : BlockchainAddress
  pub pan_token : BlockchainAddress
  pub chain_id : ℕ
  pub major_protocol_version : String
  pub private_key : String
  pub sign_typed_data : String → DomainData → TransferToMessage → Option String
  pub recover_message : DomainData → TransferToMessage → String → Recovery

module _ (client : EthereumClient) where
  abbrev pub domain_data : DomainData
  domain_data = record {
    version = client.major_protocol_version;
    chain_id = client.chain_id;
    verifying_contract = client.forwarder;
  }

  abbrev pub recovery_message : TransferToSignerAddressRecoveryRequest → TransferToMessage
  recovery_message request = record {
    source_blockchain_id = request.source_blockchain;
    source_transfer_id = request.source_transfer_id;
    source_transaction_id = request.source_transaction_id;
    sender = request.sender_address;
    recipient = request.recipient_address;
    source_token = request.source_token_address;
    destination_token = request.destination_token_address;
    amount = request.amount;
    nonce = request.validator_nonce;
    destination_blockchain_id = client.blockchain;
    pantos_hub = client.hub;
    pantos_forwarder = client.forwarder;
    pantos_token = client.pan_token;
  }

  abbrev or_client_error : {A : Type 0} → Option A → Result A
  or_client_error none = err (fault blockchain_client_error)
  or_client_error (some a) = ok a

  -- The encoding stands outside the `try` block.
  abbrev recovery_result : Recovery → Result BlockchainAddress
  recovery_result not_encoded = err (fault other_fault)
  recovery_result not_recovered = err (fault blockchain_client_error)
  recovery_result (recovered signer_address) = ok signer_address

  unfoldable pub recover_transfer_to_signer_address :
      TransferToSignerAddressRecoveryRequest → Result BlockchainAddress
  recover_transfer_to_signer_address request =
      recovery_result
        (client.recover_message domain_data (recovery_message request) request.signature)

  abbrev pub signed_message : TransferToMessageSignRequest → TransferToMessage
  signed_message request =
      let transfer = request.incoming_transfer in
      record {
        source_blockchain_id = transfer.source_blockchain;
        source_transfer_id = transfer.source_transfer_id;
        source_transaction_id = transfer.source_transaction_id;
        sender = transfer.sender_address;
        recipient = eventual_recipient_address transfer;
        source_token = transfer.source_token_address;
        destination_token = eventual_destination_token_address transfer;
        amount = transfer.amount;
        nonce = request.validator_nonce;
        destination_blockchain_id = eventual_destination_blockchain transfer;
        pantos_hub = request.destination_hub_address;
        pantos_forwarder = request.destination_forwarder_address;
        pantos_token = client.pan_token;
      }

  -- An assertion that fails in the `try` block raises the client's error too.
  unfoldable pub sign_transfer_to_message : TransferToMessageSignRequest → Result String
  sign_transfer_to_message request =
      if not (eventual_destination_blockchain request.incoming_transfer == client.blockchain)
      then err (fault blockchain_client_error)
      else if not (str_eq request.destination_hub_address client.hub)
      then err (fault blockchain_client_error)
      else if not (str_eq request.destination_forwarder_address client.forwarder)
      then err (fault blockchain_client_error)
      else or_client_error
          (client.sign_typed_data client.private_key domain_data (signed_message request))

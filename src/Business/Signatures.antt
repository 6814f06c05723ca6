-- ===== src/Business/Signatures.antt =====
-- business/signatures.py: `SignatureInteractor`, through which a primary node takes the signatures
-- of secondary nodes.
pub mod Atomic
use validatornode.Common.{
  ℕ, String, Bool, true, false, not, Option, none, some, List, if◌then◌else◌, str_eq, any,
}
use validatornode.Exec.{
  Exec, Exception, Result, fault, duplicate_signature_error, invalid_signature_error,
  invalid_signer_error, unknown_transfer_error, signature_interactor_error, pure, raise, raise_if,
  skip, ◌>>=◌, ◌>>◌, catch, or_raise,
}
use validatornode.Entities.{Blockchain, BlockchainAddress}
use validatornode.Database.Access.Transfers.{TransferToDataResponse, read_transfer_to_data}
use validatornode.Database.Access.Signatures.{
  create_validator_node_signature, read_validator_node_signature,
}
use validatornode.Business.Client.{Env}
use validatornode.Business.State.{State, db, call, get_blockchain_client}
use validatornode.Business.Transfers.Submit.{is_client_error}

pub record SecondaryNodeSignatureAddRequest : Type 0 where
  pub source_blockchain : Blockchain
  pub source_transaction_id : String
  pub signature : String

-- The `except` clauses: the interactor's own errors pass, all others become its general one.
abbrev pub signature_error : Exception → Exception
signature_error duplicate_signature_error = duplicate_signature_error
signature_error invalid_signature_error = invalid_signature_error
signature_error invalid_signer_error = invalid_signer_error
signature_error unknown_transfer_error = unknown_transfer_error
signature_error _ = signature_interactor_error

-- `except BlockchainClientError` of the recovery
abbrev pub recovery_error : Exception → Exception
recovery_error (fault f) = if is_client_error f then invalid_signature_error else fault f
recovery_error e = e

-- `signer_address not in validator_node_addresses`
abbrev pub is_validator_node_address : BlockchainAddress → List BlockchainAddress → Bool
is_validator_node_address signer_address addresses = any (λ a. str_eq a signer_address) addresses

module _ {W : Type 0} (env : Env W) where
  unfoldable pub recover_transfer_to_signer_address :
      SecondaryNodeSignatureAddRequest → TransferToDataResponse → Exec (State W) BlockchainAddress
  recover_transfer_to_signer_address request transfer_to_data =
      catch
        (call (
          env.client.recover_transfer_to_signer_address transfer_to_data.destination_blockchain
            (record {
              source_blockchain = request.source_blockchain;
              source_transaction_id = request.source_transaction_id;
              source_transfer_id = transfer_to_data.source_transfer_id;
              sender_address = transfer_to_data.sender_address;
              recipient_address = transfer_to_data.recipient_address;
              source_token_address = transfer_to_data.source_token_address;
              destination_token_address = transfer_to_data.destination_token_address;
              amount = transfer_to_data.amount;
              validator_nonce = transfer_to_data.validator_nonce;
              signature = request.signature;
            })))
        (λ e. raise (recovery_error e))

  abbrev pub refuse_existing : Option String → Exec (State W) (Unit {0})
  refuse_existing none = skip
  refuse_existing (some _) = raise duplicate_signature_error

  unfoldable pub verify_signature_not_existing :
      TransferToDataResponse → BlockchainAddress → Exec (State W) (Unit {0})
  verify_signature_not_existing transfer_to_data signer_address = do
    existing_signature ← db (
        read_validator_node_signature transfer_to_data.internal_transfer_id
          transfer_to_data.destination_blockchain
          (env.forwarder transfer_to_data.destination_blockchain) signer_address)
    refuse_existing existing_signature

  unfoldable pub verify_signer_is_validator_node :
      Blockchain → BlockchainAddress → Exec (State W) (Unit {0})
  verify_signer_is_validator_node destination_blockchain signer_address = do
    validator_node_addresses ←
        call (env.client.read_validator_node_addresses destination_blockchain)
    raise_if (not (is_validator_node_address signer_address validator_node_addresses))
        invalid_signer_error

  -- The checks of `add_secondary_node_signature`: the transfer's data and the signer.
  unfoldable pub verify_signature :
      SecondaryNodeSignatureAddRequest → Exec (State W) (TransferToDataResponse × BlockchainAddress)
  verify_signature request = do
    found ← db (read_transfer_to_data request.source_blockchain request.source_transaction_id)
    transfer_to_data ← or_raise found unknown_transfer_error
    get_blockchain_client env transfer_to_data.destination_blockchain
    signer_address ← recover_transfer_to_signer_address request transfer_to_data
    verify_signature_not_existing transfer_to_data signer_address
    verify_signer_is_validator_node transfer_to_data.destination_blockchain signer_address
    pure (transfer_to_data, signer_address)

  unfoldable pub add_secondary_node_signature :
      SecondaryNodeSignatureAddRequest → Exec (State W) (Unit {0})
  add_secondary_node_signature request =
      catch
        (do
          verified ← verify_signature request
          db (
              create_validator_node_signature env.engine verified.0.internal_transfer_id
                verified.0.destination_blockchain (env.forwarder verified.0.destination_blockchain)
                verified.1 request.signature))
        (λ e. raise (signature_error e))

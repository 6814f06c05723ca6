-- ===== src/Blockchains/Ethereum/Start.antt =====
-- blockchains/ethereum.py: `start_transfer_to_submission` as a whole, with
-- `__verify_transfer_to_request`.
pub mod Errors
pub mod Kept
use validatornode.Common.{ℕ, String, Bool, true, false, not, List, if◌then◌else◌, ◌==◌, contains}
use validatornode.Exec.{
  Exec, Exception, Fault, fault, Call, Result, raise, pure, lift, catch, raise_if, ◌>>=◌, ◌>>◌,
  blockchain_client_error, non_matching_forwarder_error, source_transfer_id_already_used_error,
  results_not_matching_error, other_fault,
}
use validatornode.Entities.{
  BlockchainAddress, CrossChainTransfer, eventual_destination_blockchain,
  eventual_recipient_address, eventual_destination_token_address,
}
use validatornode.Business.Client.{TransferToSubmissionStartRequest}
use validatornode.Business.Transfers.Submit.{is_client_error}
use validatornode.Blockchains.Ethereum.Nodes.{node_error}
use validatornode.Blockchains.Ethereum.Signers.{sort_validator_node_signatures}
use validatornode.Blockchains.Ethereum.Submission.{
  SubmissionState, SubmissionConfig, OnChainTransferToRequest, TransactionSubmissionStartRequest,
  SubmissionReply, submit_transfer_to_request,
}

-- What a call of the Hub's `verifyTransferTo` does: it returns, it raises a `ContractLogicError`
-- with a text, or another exception.
pub data VerifyReply : Type 0 where
  verified : VerifyReply
  contract_logic_error : String → VerifyReply
  unverified : Fault → VerifyReply

-- `except ResultsNotMatchingError: raise`, `except EthereumClientError: raise`, `except Exception`
abbrev pub start_error : Exception → Exception
start_error (fault f) = if is_client_error f then fault f else node_error (fault f)
start_error _ = fault blockchain_client_error

unfoldable pub on_chain_request : CrossChainTransfer → ℕ → OnChainTransferToRequest
on_chain_request transfer validator_nonce = record {
  source_blockchain_id = transfer.source_blockchain;
  source_transfer_id = transfer.source_transfer_id;
  source_transaction_id = transfer.source_transaction_id;
  sender = transfer.sender_address;
  recipient = eventual_recipient_address transfer;
  source_token = transfer.source_token_address;
  destination_token = eventual_destination_token_address transfer;
  amount = transfer.amount;
  nonce = validator_nonce;
}

-- The exception for the text of a `ContractLogicError`.
abbrev pub contract_error : String → Exception
contract_error message =
    if contains "PantosHub: Forwarder of Hub and transferred token must match" message
    then fault non_matching_forwarder_error
    else if contains "PantosHub: source transfer ID already used" message
    then fault source_transfer_id_already_used_error
    else fault other_fault

module _ {W : Type 0} (config : SubmissionConfig) (get_transaction_count : Call W ℕ)
    (call_verify_transfer_to : OnChainTransferToRequest
      → List BlockchainAddress
      → List String
      → W
      → VerifyReply × W)
    (start_transaction_submission : TransactionSubmissionStartRequest
      → W
      → SubmissionReply × W) where
  abbrev pub on_verify : VerifyReply → Exec (SubmissionState W) (Unit {0})
  on_verify verified = pure tt
  on_verify (contract_logic_error message) = raise (contract_error message)
  on_verify (unverified f) = raise (fault f)

  unfoldable pub verify_transfer_to_request :
      OnChainTransferToRequest
      → List BlockchainAddress
      → List String
      → Exec (SubmissionState W) (Unit {0})
  verify_transfer_to_request request signer_addresses signatures s =
      let (r, w) = call_verify_transfer_to request signer_addresses signatures s.1 in
      on_verify r (s.0, w)

  -- The `try` block.
  unfoldable pub start_transfer_to :
      TransferToSubmissionStartRequest → Exec (SubmissionState W) String
  unfolding on_chain_request
  start_transfer_to request =
      let on_chain = on_chain_request request.incoming_transfer request.validator_nonce in
      do
        sorted ← lift (sort_validator_node_signatures request.validator_node_signatures)
        verify_transfer_to_request on_chain sorted.0 sorted.1
        submit_transfer_to_request config get_transaction_count start_transaction_submission
            request.internal_transfer_id on_chain sorted.0 sorted.1

  unfoldable pub start_transfer_to_submission :
      TransferToSubmissionStartRequest → Exec (SubmissionState W) String
  start_transfer_to_submission request =
      raise_if
        (not (eventual_destination_blockchain request.incoming_transfer == config.blockchain))
        (fault blockchain_client_error)
      >> catch (start_transfer_to request) (λ e. raise (start_error e))

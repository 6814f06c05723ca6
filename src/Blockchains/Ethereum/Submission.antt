-- ===== src/Blockchains/Ethereum/Submission.antt =====
-- blockchains/ethereum.py: the nonce of a submission, and the start of the transaction.
pub mod Nonces
pub mod Kept
use validatornode.Common.{
  ℕ, ◌+◌, ◌*◌, String, Option, none, some, List, length, if◌then◌else◌, ◌==◌,
}
use validatornode.Exec.{
  Exec, Fault, fault, other_fault, assertion_error, Call, to_result, or_raise, raise, pure, ◌>>=◌,
  ◌>>◌,
}
use validatornode.Entities.{Blockchain, BlockchainAddress}
use validatornode.Database.Models.{Database}
use validatornode.Database.Access.Transfers.{read_transfer_nonce}
use validatornode.Database.Access.Updates.{reset_transfer_nonce}
use validatornode.Database.Access.Nonce.{update_transfer_nonce}

-- `_OnChainTransferToRequest`
pub record OnChainTransferToRequest : Type 0 where
  pub source_blockchain_id : ℕ
  pub source_transfer_id : ℕ
  pub source_transaction_id : String
  pub sender : BlockchainAddress
  pub recipient : BlockchainAddress
  pub source_token : BlockchainAddress
  pub destination_token : BlockchainAddress
  pub amount : ℕ
  pub nonce : ℕ

-- The configuration of a client, with its numbers of other kinds than integers as texts.
pub record SubmissionConfig : Type 0 where
  pub blockchain : Blockchain
  pub hub : BlockchainAddress
  pub min_adaptable_fee_per_gas : ℕ
  pub max_total_fee_per_gas : Option ℕ
  pub adaptable_fee_increase_factor : String
  pub blocks_until_resubmission : ℕ

-- The request of the package pantos.common; its function selector and its ABI are constants.
pub record TransactionSubmissionStartRequest : Type 0 where
  pub contract_address : BlockchainAddress
  pub on_chain_request : OnChainTransferToRequest
  pub signer_addresses : List BlockchainAddress
  pub signatures : List String
  pub gas : ℕ
  pub min_adaptable_fee_per_gas : ℕ
  pub max_total_fee_per_gas : Option ℕ
  pub amount : Option ℕ
  pub nonce : ℕ
  pub adaptable_fee_increase_factor : String
  pub blocks_until_resubmission : ℕ

-- What `start_transaction_submission` of pantos.common does: it returns an ID or raises.
pub data SubmissionReply : Type 0 where
  submitted : String → SubmissionReply
  transaction_nonce_too_low transaction_underpriced : SubmissionReply
  failed : Fault → SubmissionReply

abbrev pub SubmissionState : Type 0 → Type 0
SubmissionState W = Database × W

module _ {W : Type 0} where
  abbrev pub on_database : {A : Type 0} → Exec Database A → Exec (SubmissionState W) A
  on_database m s = let (r, d) = m s.0 in (r, (d, s.1))

  abbrev pub on_world : {A : Type 0} → Call W A → Exec (SubmissionState W) A
  on_world m s = let (r, w) = m s.1 in (to_result r, (s.0, w))

-- 0 is no limit.
abbrev no_limit_if_zero : Option ℕ → Option ℕ
no_limit_if_zero none = none
no_limit_if_zero (some n) = if n == 0 then none else some n

module _ {W : Type 0} (config : SubmissionConfig) (get_transaction_count : Call W ℕ)
    (start_transaction_submission : TransactionSubmissionStartRequest
      → W
      → SubmissionReply × W) where
  unfoldable pub get_nonce : ℕ → Exec (SubmissionState W) ℕ
  get_nonce internal_transfer_id = do
    transaction_count ← on_world get_transaction_count
    on_database (update_transfer_nonce internal_transfer_id config.blockchain transaction_count)
    nonce ← on_database (read_transfer_nonce internal_transfer_id)
    or_raise nonce assertion_error

  abbrev pub submission_request :
      OnChainTransferToRequest
      → List BlockchainAddress
      → List String
      → ℕ
      → TransactionSubmissionStartRequest
  submission_request on_chain_request signer_addresses signatures nonce = record {
    contract_address = config.hub;
    on_chain_request = on_chain_request;
    signer_addresses = signer_addresses;
    signatures = signatures;
    gas = 150000 + length signer_addresses * 100000;
    min_adaptable_fee_per_gas = config.min_adaptable_fee_per_gas;
    max_total_fee_per_gas = no_limit_if_zero config.max_total_fee_per_gas;
    amount = none;
    nonce = nonce;
    adaptable_fee_increase_factor = config.adaptable_fee_increase_factor;
    blocks_until_resubmission = config.blocks_until_resubmission;
  }

  -- `except (TransactionNonceTooLowError, TransactionUnderpricedError)`
  abbrev pub on_submission : ℕ → SubmissionReply → Exec (SubmissionState W) String
  on_submission internal_transfer_id (submitted internal_transaction_id) =
      pure internal_transaction_id
  on_submission internal_transfer_id transaction_nonce_too_low =
      on_database (reset_transfer_nonce internal_transfer_id) >> raise (fault other_fault)
  on_submission internal_transfer_id transaction_underpriced =
      on_database (reset_transfer_nonce internal_transfer_id) >> raise (fault other_fault)
  on_submission internal_transfer_id (failed f) = raise (fault f)

  unfoldable pub start_submission :
      ℕ → TransactionSubmissionStartRequest → Exec (SubmissionState W) String
  start_submission internal_transfer_id request s =
      let (r, w) = start_transaction_submission request s.1 in
      on_submission internal_transfer_id r (s.0, w)

  unfoldable pub submit_transfer_to_request :
      ℕ
      → OnChainTransferToRequest
      → List BlockchainAddress
      → List String
      → Exec (SubmissionState W) String
  submit_transfer_to_request internal_transfer_id on_chain_request signer_addresses signatures = do
    nonce ← get_nonce internal_transfer_id
    start_submission internal_transfer_id
        (submission_request on_chain_request signer_addresses signatures nonce)

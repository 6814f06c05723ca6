-- ===== src/Business/Transfers/Submit.antt =====
-- business/transfers.py: `submit_transfer_onchain` of the primary node,
-- `submit_transfer_to_primary_node` of a secondary node, and their private helpers.
pub mod Counts
pub mod Quorum
pub mod Failure
use validatornode.Common.{
  ℕ, ◌+◌, String, Bool, true, false, none, some, [], ◌∷◌, if◌then◌else◌, leb, str_eq,
}
use validatornode.Exec.{
  Exec, Exception, Result, Fault, fault, non_matching_forwarder_error, blockchain_client_error,
  source_transfer_id_already_used_error, unresolvable_transfer_to_submission_error,
  primary_node_duplicate_signature_error, permanent_transfer_submission_error, assertion_error,
  key_error, transfer_interactor_error, pure, raise, skip, assert, ◌>>=◌, ◌>>◌, catch, or_raise,
}
use validatornode.Entities.{
  Blockchain, BlockchainAddress, CrossChainTransfer, eventual_destination_blockchain,
  eventual_destination_token_address,
}
use validatornode.Database.Models.{
  TransferStatus, source_reversal_transaction_failed, destination_transaction_failed,
  source_reversal_transaction_submitted, destination_transaction_submitted,
}
use validatornode.Database.Access.Transfers.{read_validator_nonce_by_internal_transfer_id}
use validatornode.Database.Access.Signatures.{
  Signatures, insert, lookup, create_validator_node_signature, read_validator_node_signature,
  read_validator_node_signatures,
}
use validatornode.Database.Access.Updates.{
  update_transfer_status, update_transfer_submitted_destination_transaction,
  update_transfer_validator_nonce,
}
use validatornode.Business.Client.{Env, TaskName, TransferToSignerAddressRecoveryRequest}
use validatornode.Business.State.{
  State, db, call, call_db, or_interactor_error, get_blockchain_client, schedule_task,
}

abbrev pub failed_status : CrossChainTransfer → TransferStatus
failed_status t =
    if t.is_reversal_transfer
    then source_reversal_transaction_failed
    else destination_transaction_failed

abbrev pub submitted_status : CrossChainTransfer → TransferStatus
submitted_status t =
    if t.is_reversal_transfer
    then source_reversal_transaction_submitted
    else destination_transaction_submitted

-- `except BlockchainClientError`: the class and its subclasses
abbrev pub is_client_error : Fault → Bool
is_client_error blockchain_client_error = true
is_client_error non_matching_forwarder_error = true
is_client_error source_transfer_id_already_used_error = true
is_client_error unresolvable_transfer_to_submission_error = true
is_client_error _ = false

-- The request of `__sufficient_secondary_node_signatures` for the signer of a stored signature.
abbrev pub recovery_request :
    CrossChainTransfer → ℕ → String → TransferToSignerAddressRecoveryRequest
recovery_request transfer validator_nonce signature = record {
  source_blockchain = transfer.source_blockchain;
  source_transaction_id = transfer.source_transaction_id;
  source_transfer_id = transfer.source_transfer_id;
  sender_address = transfer.sender_address;
  recipient_address = transfer.recipient_address;
  source_token_address = transfer.source_token_address;
  destination_token_address = eventual_destination_token_address transfer;
  amount = transfer.amount;
  validator_nonce = validator_nonce;
  signature = signature;
}

module _ {W : Type 0} (env : Env W) where
  unfoldable pub store_validator_node_signature :
      ℕ → Blockchain → BlockchainAddress → BlockchainAddress → String → Exec (State W) (Unit {0})
  store_validator_node_signature internal_transfer_id destination_blockchain forwarder_address
        node_address signature =
      do
        stored_signature ← db (
            read_validator_node_signature internal_transfer_id destination_blockchain
              forwarder_address node_address)
        elim stored_signature [
          | none ↦ db (
              create_validator_node_signature env.engine internal_transfer_id destination_blockchain
                forwarder_address node_address signature)
          | some _ ↦ skip
        ]

  unfoldable pub sign : CrossChainTransfer → ℕ → Exec (State W) String
  sign transfer validator_nonce =
      let destination = eventual_destination_blockchain transfer in
      call (
        env.client.sign_transfer_to_message destination (record {
          incoming_transfer = transfer;
          validator_nonce = validator_nonce;
          destination_hub_address = env.hub destination;
          destination_forwarder_address = env.forwarder destination;
        }))

  unfoldable pub add_primary_node_signature :
      Signatures → CrossChainTransfer → ℕ → Exec (State W) Signatures
  unfolding sign
  add_primary_node_signature signatures transfer validator_nonce = do
    assert env.is_primary_node
    primary_node_signature ← sign transfer validator_nonce
    pure (
        insert (env.client.get_own_address (eventual_destination_blockchain transfer))
          primary_node_signature signatures)

  -- One round of the loop over the signatures: what the recovery of the signer's address makes of
  -- the number of valid signatures.
  abbrev pub on_recovery :
      Blockchain → BlockchainAddress → ℕ → Result BlockchainAddress → Exec (State W) ℕ
  on_recovery destination signer_address valid (Result.ok recovered) = do
    equal ← call (env.client.is_equal_address destination (some signer_address) recovered)
    assert equal
    pure (valid + 1)
  on_recovery destination signer_address valid (Result.err (fault f)) =
      if is_client_error f then pure valid else raise (fault f)
  on_recovery destination signer_address valid (Result.err e) = raise e

  unfoldable pub recover_signer : CrossChainTransfer → ℕ → String → Exec (State W) BlockchainAddress
  recover_signer transfer validator_nonce signature = call (
      env.client.recover_transfer_to_signer_address (eventual_destination_blockchain transfer)
        (recovery_request transfer validator_nonce signature))

  unfoldable pub count_valid_signatures : CrossChainTransfer → ℕ → Signatures → ℕ → Exec (State W) ℕ
  unfolding recover_signer
  count_valid_signatures transfer validator_nonce [] valid = pure valid
  count_valid_signatures transfer validator_nonce ((signer_address, signature) ∷ rest) valid =
      let destination = eventual_destination_blockchain transfer in
      (if str_eq signer_address (env.client.get_own_address destination) then pure valid else (λ s.
        let (r, s') = recover_signer transfer validator_nonce signature s in
        on_recovery destination signer_address valid r s'))
      >>= λ valid'. count_valid_signatures transfer validator_nonce rest valid'

  unfoldable pub sufficient_secondary_node_signatures :
      CrossChainTransfer → ℕ → Signatures → Exec (State W) Bool
  unfolding count_valid_signatures
  sufficient_secondary_node_signatures transfer validator_nonce signatures = do
    assert env.is_primary_node
    valid_signatures ← count_valid_signatures transfer validator_nonce signatures 1
    minimum_signatures ← call (
        env.client.read_minimum_validator_node_signatures
          (eventual_destination_blockchain transfer))
    pure (leb minimum_signatures valid_signatures)

  -- The `except` clauses of `__submit_transaction`: the status is written on every failure, and
  -- two failures are permanent.
  abbrev pub submission_error : Exception → Exception
  submission_error (fault non_matching_forwarder_error) = permanent_transfer_submission_error
  submission_error (fault source_transfer_id_already_used_error) =
      permanent_transfer_submission_error
  submission_error e = e

  unfoldable pub submit_transaction :
      ℕ → CrossChainTransfer → ℕ → Signatures → Exec (State W) String
  submit_transaction internal_transfer_id transfer validator_nonce signatures =
      catch
        (call_db (
          env.client.start_transfer_to_submission (eventual_destination_blockchain transfer)
            (record {
              internal_transfer_id = internal_transfer_id;
              incoming_transfer = transfer;
              validator_nonce = validator_nonce;
              validator_node_signatures = signatures;
            })))
        (λ e.
          db (update_transfer_status internal_transfer_id (failed_status transfer))
          >> raise (submission_error e))

  -- What both submissions write: the own signature, the contracts, and the status.
  unfoldable pub record_submission : ℕ → CrossChainTransfer → String → Exec (State W) (Unit {0})
  unfolding store_validator_node_signature
  record_submission internal_transfer_id transfer signature =
      let destination = eventual_destination_blockchain transfer in
      do
        store_validator_node_signature internal_transfer_id destination (env.forwarder destination)
            (env.client.get_own_address destination) signature
        db (
            update_transfer_submitted_destination_transaction env.engine internal_transfer_id
              (env.hub destination) (env.forwarder destination))
        db (update_transfer_status internal_transfer_id (submitted_status transfer))

  -- `except __PermanentTransferSubmissionError: return True`, and `except Exception`
  abbrev pub on_submission_error : Exception → Exec (State W) Bool
  on_submission_error permanent_transfer_submission_error = pure true
  on_submission_error _ = raise transfer_interactor_error

  -- From the sufficient signatures on.
  unfoldable pub submit_with_signatures :
      ℕ → CrossChainTransfer → ℕ → Signatures → Exec (State W) Bool
  submit_with_signatures internal_transfer_id transfer validator_nonce available_signatures = do
    signatures ← add_primary_node_signature available_signatures transfer validator_nonce
    internal_transaction_id ←
        submit_transaction internal_transfer_id transfer validator_nonce signatures
    own_signature ←
        or_raise
          (lookup (env.client.get_own_address (eventual_destination_blockchain transfer))
            signatures)
          key_error
    record_submission internal_transfer_id transfer own_signature
    schedule_task env TaskName.confirm_transfer internal_transfer_id transfer
        (some internal_transaction_id)
    pure true

  unfoldable pub submit_transfer_onchain_body : ℕ → CrossChainTransfer → Exec (State W) Bool
  submit_transfer_onchain_body internal_transfer_id transfer = do
    get_blockchain_client env (eventual_destination_blockchain transfer)
    found ← db (read_validator_nonce_by_internal_transfer_id internal_transfer_id)
    validator_nonce ← or_raise found assertion_error
    available_signatures ← db (read_validator_node_signatures internal_transfer_id)
    sufficient ← sufficient_secondary_node_signatures transfer validator_nonce available_signatures
    if sufficient
        then submit_with_signatures internal_transfer_id transfer validator_nonce
            available_signatures
        else pure false

  unfoldable pub submit_transfer_onchain : ℕ → CrossChainTransfer → Exec (State W) Bool
  submit_transfer_onchain internal_transfer_id transfer =
      catch
        (if env.is_primary_node
          then submit_transfer_onchain_body internal_transfer_id transfer
          else (do
            schedule_task env TaskName.submit_transfer_to_primary_node internal_transfer_id transfer
                none
            pure true))
        on_submission_error

  -- `except PrimaryNodeDuplicateSignatureError` is passed over; the clause for an invalid signer
  -- raises the error again.
  abbrev pub on_post_error : Exception → Exec (State W) (Unit {0})
  on_post_error (fault primary_node_duplicate_signature_error) = skip
  on_post_error e = raise e

  unfoldable pub submit_signature : ℕ → CrossChainTransfer → Exec (State W) Bool
  submit_signature internal_transfer_id transfer = do
    validator_nonce ← call (
        env.primary_node_client.get_validator_nonce transfer.source_blockchain
          transfer.source_transaction_id)
    db (update_transfer_validator_nonce internal_transfer_id validator_nonce)
    get_blockchain_client env (eventual_destination_blockchain transfer)
    signature ← sign transfer validator_nonce
    catch
        (call (
          env.primary_node_client.post_transfer_signature transfer.source_blockchain
            transfer.source_transaction_id signature))
        on_post_error
    record_submission internal_transfer_id transfer signature
    pure true

  unfoldable pub submit_transfer_to_primary_node : ℕ → CrossChainTransfer → Exec (State W) Bool
  submit_transfer_to_primary_node internal_transfer_id transfer = or_interactor_error (
      if env.is_primary_node
      then (do
        schedule_task env TaskName.submit_transfer_onchain internal_transfer_id transfer none
        pure true)
      else submit_signature internal_transfer_id transfer)

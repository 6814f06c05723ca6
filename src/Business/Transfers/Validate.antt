-- ===== src/Business/Transfers/Validate.antt =====
-- business/transfers.py: `validate_transfer` and its private checks. The proofs are in the modules
-- below.
pub mod Source
pub mod Safety
pub mod Reversal
pub mod Scheduling
pub mod Outcomes
use validatornode.Common.{
  ℕ, String, Bool, true, false, not, Option, none, some, List, [], ◌∷◌, if◌then◌else◌, ◌==◌, any,
}
use validatornode.Exec.{
  Exec, Exception, permanent_transfer_validation_error, transitory_transfer_validation_error,
  transfer_interactor_error, pure, raise, raise_if, skip, ◌>>=◌, ◌>>◌, catch,
}
use validatornode.Entities.{
  Blockchain, BlockchainAddress, CrossChainTransfer, eventual_destination_blockchain,
  eventual_recipient_address, eventual_destination_token_address, transfer_eq,
}
use validatornode.Database.Models.{
  TransferStatus, source_transaction_invalid, source_transaction_reverted,
}
use validatornode.Database.Access.Updates.{
  update_reversal_transfer, update_transfer_source_transaction, update_transfer_status,
}
use validatornode.Business.Client.{
  Env, TransactionStatus, unincluded, unconfirmed, confirmed, reverted, submit_transfer_onchain,
  submit_transfer_to_primary_node,
}
use validatornode.Business.State.{
  State, db, call, or_foreign_error, get_blockchain_client, schedule_task,
}

-- What the loop of `__validate_transfer_in_source_transaction` writes to the transfer.
unfoldable pub with_source_of : CrossChainTransfer → CrossChainTransfer → CrossChainTransfer
with_source_of t found = record t {
  source_transfer_id = found.source_transfer_id;
  source_block_number = found.source_block_number;
  source_block_hash = found.source_block_hash;
}

-- The loop, up to its `break`: the transfer as the matching iteration leaves it. An iteration
-- writes over what the one before wrote.
unfoldable pub find_in_transaction :
    CrossChainTransfer → List CrossChainTransfer → Option CrossChainTransfer
find_in_transaction t [] = none
find_in_transaction t (found ∷ rest) =
    let t' = with_source_of t found in
    let later = find_in_transaction t' rest in if transfer_eq t' found then some t' else later

module _ {W : Type 0} (env : Env W) where
  -- `if transaction_status in [UNINCLUDED, UNCONFIRMED]`, `if … is REVERTED`, and the assertion
  abbrev pub on_source_status : ℕ → TransactionStatus → Exec (State W) (Unit {0})
  on_source_status internal_transfer_id unincluded = raise transitory_transfer_validation_error
  on_source_status internal_transfer_id unconfirmed = raise transitory_transfer_validation_error
  on_source_status internal_transfer_id reverted =
      db (update_transfer_status internal_transfer_id source_transaction_reverted)
      >> raise permanent_transfer_validation_error
  on_source_status internal_transfer_id confirmed = skip

  unfoldable pub validate_source_transaction_status :
      ℕ → CrossChainTransfer → Exec (State W) (Unit {0})
  validate_source_transaction_status internal_transfer_id transfer = do
    transaction_status ← call (
        env.client.read_transaction_status transfer.source_blockchain
          transfer.source_transaction_id)
    on_source_status internal_transfer_id transaction_status

  -- After the loop: the record is updated, or the transfer is not in its transaction.
  abbrev pub on_search : ℕ → Option CrossChainTransfer → Exec (State W) CrossChainTransfer
  on_search internal_transfer_id none = raise transfer_interactor_error
  on_search internal_transfer_id (some t) =
      db (
        update_transfer_source_transaction internal_transfer_id t.source_transfer_id
          t.source_block_number)
      >> pure t

  -- Returns the transfer, whose source data may have been rewritten.
  unfoldable pub validate_transfer_in_source_transaction :
      ℕ → CrossChainTransfer → Exec (State W) CrossChainTransfer
  validate_transfer_in_source_transaction internal_transfer_id transfer = do
    transfers_in_transaction ← call (
        env.client.read_outgoing_transfers_in_transaction transfer.source_blockchain
          transfer.source_transaction_id transfer.source_hub_address)
    if any (λ u. transfer_eq transfer u) transfers_in_transaction
        then pure transfer
        else on_search internal_transfer_id (find_in_transaction transfer transfers_in_transaction)

  unfoldable pub validate_source_token_registration :
      ℕ → CrossChainTransfer → Exec (State W) (Unit {0})
  validate_source_token_registration internal_transfer_id transfer = do
    source_token_active ←
        call (env.client.is_token_active transfer.source_blockchain transfer.source_token_address)
    if source_token_active then skip else (do
      db (update_transfer_status internal_transfer_id source_transaction_invalid)
      raise permanent_transfer_validation_error)

  unfoldable pub validate_transfer_recipient_address :
      CrossChainTransfer → Exec (State W) (Unit {0})
  validate_transfer_recipient_address transfer =
      raise_if
        (not (
          env.client.is_valid_recipient_address transfer.destination_blockchain
            transfer.recipient_address))
        permanent_transfer_validation_error

  unfoldable pub validate_destination_token_registration :
      CrossChainTransfer → Exec (State W) (Unit {0})
  validate_destination_token_registration transfer = do
    destination_token_active ← call (
        env.client.is_token_active transfer.destination_blockchain
          transfer.destination_token_address)
    raise_if (not destination_token_active) permanent_transfer_validation_error

  -- `or` evaluates its second comparison only if the first finds equal addresses.
  unfoldable pub validate_token_addresses : CrossChainTransfer → Exec (State W) (Unit {0})
  validate_token_addresses transfer = do
    source_token_address ← call (
        env.client.read_external_token_address transfer.destination_blockchain
          transfer.destination_token_address transfer.source_blockchain)
    destination_token_address ← call (
        env.client.read_external_token_address transfer.source_blockchain
          transfer.source_token_address transfer.destination_blockchain)
    source_equal ← call (
        env.client.is_equal_address transfer.source_blockchain source_token_address
          transfer.source_token_address)
    raise_if (not source_equal) permanent_transfer_validation_error
    destination_equal ← call (
        env.client.is_equal_address transfer.destination_blockchain destination_token_address
          transfer.destination_token_address)
    raise_if (not destination_equal) permanent_transfer_validation_error

  unfoldable pub validate_token_decimals : CrossChainTransfer → Exec (State W) (Unit {0})
  validate_token_decimals transfer = do
    source_token_decimals ←
        call
          (env.client.read_token_decimals transfer.source_blockchain transfer.source_token_address)
    destination_token_decimals ← call (
        env.client.read_token_decimals transfer.destination_blockchain
          transfer.destination_token_address)
    raise_if (not (source_token_decimals == destination_token_decimals))
        permanent_transfer_validation_error

  -- `except __TransferValidationError as error`: a permanent one reverses the transfer.
  abbrev pub or_reversal : CrossChainTransfer → Exception → Exec (State W) CrossChainTransfer
  or_reversal transfer permanent_transfer_validation_error =
      pure (record transfer { is_reversal_transfer = true })
  or_reversal transfer e = raise e

  -- The four checks in the `try` block.
  unfoldable pub check_destination : CrossChainTransfer → Exec (State W) (Unit {0})
  check_destination transfer = do
    validate_transfer_recipient_address transfer
    validate_destination_token_registration transfer
    validate_token_addresses transfer
    validate_token_decimals transfer

  -- Returns the transfer, whose flag may have been set.
  unfoldable pub validate_destination_blockchain_feasibility :
      CrossChainTransfer → Exec (State W) CrossChainTransfer
  validate_destination_blockchain_feasibility transfer =
      catch (check_destination transfer >> pure transfer) (or_reversal transfer)

  -- `except __TransferValidationError as error: return error.is_permanent()`
  abbrev pub on_validation_error : Exception → Exec (State W) Bool
  on_validation_error permanent_transfer_validation_error = pure true
  on_validation_error transitory_transfer_validation_error = pure false
  on_validation_error e = raise e

  -- The end of the `try` block: a reversal is recorded, and the submission is scheduled.
  unfoldable pub schedule_submission : ℕ → CrossChainTransfer → Exec (State W) Bool
  schedule_submission internal_transfer_id transfer = do
    if transfer.is_reversal_transfer
        then db (
            update_reversal_transfer env.engine internal_transfer_id
              (eventual_destination_blockchain transfer) (eventual_recipient_address transfer)
              (eventual_destination_token_address transfer))
        else skip
    schedule_task env
        (if env.is_primary_node then submit_transfer_onchain else submit_transfer_to_primary_node)
        internal_transfer_id transfer none
    pure true

  -- The `try` block of `validate_transfer`.
  unfoldable pub validation : ℕ → CrossChainTransfer → Exec (State W) Bool
  validation internal_transfer_id transfer = do
    get_blockchain_client env transfer.source_blockchain
    get_blockchain_client env transfer.destination_blockchain
    validate_source_transaction_status internal_transfer_id transfer
    found ← validate_transfer_in_source_transaction internal_transfer_id transfer
    validate_source_token_registration internal_transfer_id found
    feasible ← validate_destination_blockchain_feasibility found
    schedule_submission internal_transfer_id feasible

  unfoldable pub validate_transfer : ℕ → CrossChainTransfer → Exec (State W) Bool
  validate_transfer internal_transfer_id transfer =
      or_foreign_error (catch (validation internal_transfer_id transfer) on_validation_error)

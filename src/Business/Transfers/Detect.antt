-- ===== src/Business/Transfers/Detect.antt =====
-- business/transfers.py: `detect_new_transfers` and `__find_unused_validator_nonce`.
pub mod Nonces
pub mod Registration
pub mod Records
pub mod Completeness
pub mod Repetition
use validatornode.Common.{
  ℕ, zero, suc, Bool, Option, none, some, List, [], ◌∷◌, if◌then◌else◌, length, ◌==◌,
}
use validatornode.Common.Int.{ℤ, pos, ◌-ℤ◌, ltb_ℤ, eqb_ℤ, max_ℤ}
use validatornode.Exec.{
  Exec, transfer_interactor_error, out_of_rounds, pure, raise, skip, assert, ◌>>=◌, ◌>>◌,
}
use validatornode.Entities.{Blockchain, CrossChainTransfer}
use validatornode.Database.Access.Transfers.{
  TransferCreationRequest, create_transfer, read_blockchain_last_block_number, read_transfer_id,
}
use validatornode.Database.Access.Updates.{
  update_blockchain_last_block_number, update_transfer_task_id,
}
use validatornode.Business.Client.{Env, validate_transfer, ReadOutgoingTransfersFromBlockResponse}
use validatornode.Business.State.{
  State, db, call, or_foreign_error, get_blockchain_client, schedule_task,
}

module _ {W : Type 0} (env : Env W) where
  -- `while True`, in the rounds that the model gives to it
  unfoldable pub draw_validator_nonce : ℕ → Blockchain → Exec (State W) ℕ
  draw_validator_nonce zero destination_blockchain = raise out_of_rounds
  draw_validator_nonce (suc rounds) destination_blockchain = do
    validator_nonce ← call env.getrandbits
    valid ← call (env.client.is_valid_validator_nonce destination_blockchain validator_nonce)
    elim valid [
      | Bool.true ↦ pure validator_nonce
      | Bool.false ↦ draw_validator_nonce rounds destination_blockchain
    ]

  unfoldable pub find_unused_validator_nonce : Blockchain → Exec (State W) ℕ
  unfolding draw_validator_nonce
  find_unused_validator_nonce destination_blockchain = do
    get_blockchain_client env destination_blockchain
    draw_validator_nonce env.rounds destination_blockchain

  unfoldable pub creation_request : CrossChainTransfer → ℕ → TransferCreationRequest
  creation_request t validator_nonce = record {
    source_blockchain = t.source_blockchain;
    destination_blockchain = t.destination_blockchain;
    sender_address = t.sender_address;
    recipient_address = t.recipient_address;
    source_token_address = t.source_token_address;
    destination_token_address = t.destination_token_address;
    amount = t.amount;
    validator_nonce = validator_nonce;
    source_hub_address = t.source_hub_address;
    source_transfer_id = t.source_transfer_id;
    source_transaction_id = t.source_transaction_id;
    source_block_number = t.source_block_number;
  }

  -- The body of `if internal_transfer_id is None`.
  unfoldable pub register_transfer : CrossChainTransfer → Exec (State W) (Unit {0})
  unfolding find_unused_validator_nonce creation_request
  register_transfer found_transfer = do
    validator_nonce ← find_unused_validator_nonce found_transfer.destination_blockchain
    internal_transfer_id ←
        db (create_transfer env.engine (creation_request found_transfer validator_nonce))
    task_id ← schedule_task env validate_transfer internal_transfer_id found_transfer none
    db (update_transfer_task_id internal_transfer_id task_id)

  -- One round of the loop over the found transfers.
  unfoldable pub process_transfer : CrossChainTransfer → Exec (State W) (Unit {0})
  unfolding register_transfer
  process_transfer found_transfer = do
    internal_transfer_id ←
        db (read_transfer_id found_transfer.source_blockchain found_transfer.source_transaction_id)
    elim internal_transfer_id [ none ↦ register_transfer found_transfer | some _ ↦ skip ]

  unfoldable pub process_transfers : List CrossChainTransfer → Exec (State W) (Unit {0})
  unfolding process_transfer
  process_transfers [] = skip
  process_transfers (found_transfer ∷ rest) =
      process_transfer found_transfer >>= λ _. process_transfers rest

  -- `max(last_block_number - confirmations, from_block)`
  unfoldable pub from_block_number : Blockchain → ℤ → ℤ
  from_block_number source_blockchain last_block_number =
      max_ℤ (last_block_number -ℤ pos (env.confirmations source_blockchain))
        (pos (env.from_block source_blockchain))

  -- Where the first block to read lies above the most recent block.
  unfoldable pub on_no_new_block :
      ℤ → ReadOutgoingTransfersFromBlockResponse → Exec (State W) (Unit {0})
  on_no_new_block from_block response = do
    assert (length response.outgoing_transfers == 0)
    if eqb_ℤ (from_block -ℤ pos 1) response.to_block_number
        then skip
        else raise transfer_interactor_error

  unfoldable pub on_transfers_response :
      Blockchain → ℤ → ReadOutgoingTransfersFromBlockResponse → Exec (State W) (Unit {0})
  unfolding on_no_new_block
  on_transfers_response source_blockchain from_block response =
      if ltb_ℤ response.to_block_number from_block then on_no_new_block from_block response else (do
        process_transfers response.outgoing_transfers
        db (update_blockchain_last_block_number source_blockchain response.to_block_number))

  unfoldable pub detect_new_transfers : Blockchain → Exec (State W) (Unit {0})
  unfolding on_transfers_response from_block_number
  detect_new_transfers source_blockchain = do
    get_blockchain_client env source_blockchain
    or_foreign_error (do
      last_block_number ← db (read_blockchain_last_block_number source_blockchain)
      let from_block = from_block_number source_blockchain last_block_number
      response ← call (env.client.read_outgoing_transfers_from_block source_blockchain from_block)
      on_transfers_response source_blockchain from_block response)

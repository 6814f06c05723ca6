-- ===== src/Database/Access/Transfers.antt =====
-- database/access.py: the creation of a transfer and the functions that read transfers.
use validatornode.Common.{
  ℕ, String, Bool, ◌&&◌, Option, none, some, List, ◌∷◌, map, flat_map, ◌==◌, str_eq, select, find,
}
use validatornode.Common.Int.{ℤ}
use validatornode.Exec.{
  Exec, Exception, pure, raise, or_raise, ◌>>=◌, ◌>>◌, catch, modify, assertion_error,
  integrity_error, unique_validator_nonce, validator_nonce_not_unique_error,
}
use validatornode.Entities.{Blockchain, BlockchainAddress}
use validatornode.Database.Models.{Database, Contract, Transfer, value, source_transaction_detected}
use validatornode.Database.Session.{Engine, one_or_none, transaction, check_constraints}
use validatornode.Database.Access.Contracts.{hub, token, read_or_create_contract}

pub record TransferCreationRequest : Type 0 where
  pub source_blockchain : Blockchain
  pub destination_blockchain : Blockchain
  pub sender_address : BlockchainAddress
  pub recipient_address : BlockchainAddress
  pub source_token_address : BlockchainAddress
  pub destination_token_address : BlockchainAddress
  pub amount : ℕ
  pub validator_nonce : ℕ
  pub source_hub_address : BlockchainAddress
  pub source_transfer_id : ℕ
  pub source_transaction_id : String
  pub source_block_number : ℕ

abbrev pub transfer_id : Transfer → ℕ
transfer_id t = t.id

-- The new row, whose nullable columns are NULL.
unfoldable pub new_transfer : ℕ → TransferCreationRequest → ℕ → ℕ → ℕ → Transfer
new_transfer id request source_token destination_token source_hub = record {
  id = id;
  source_blockchain_id = request.source_blockchain;
  destination_blockchain_id = request.destination_blockchain;
  sender_address = request.sender_address;
  recipient_address = request.recipient_address;
  source_token_contract_id = source_token;
  destination_token_contract_id = destination_token;
  amount = request.amount;
  validator_nonce = request.validator_nonce;
  source_hub_contract_id = source_hub;
  destination_hub_contract_id = none;
  destination_forwarder_contract_id = none;
  task_id = none;
  source_transfer_id = request.source_transfer_id;
  destination_transfer_id = none;
  source_transaction_id = request.source_transaction_id;
  destination_transaction_id = none;
  source_block_number = request.source_block_number;
  destination_block_number = none;
  nonce = none;
  status_id = value source_transaction_detected;
}

-- `except sqlalchemy.exc.IntegrityError` of `create_transfer`
abbrev pub creation_error : Exception → Exception
creation_error (integrity_error unique_validator_nonce) = validator_nonce_not_unique_error
creation_error e = e

module _ (engine : Engine) where
  -- The insertion, once the three contracts are known; their keys are foreign keys that hold.
  unfoldable pub insert_transfer : TransferCreationRequest → ℕ → ℕ → ℕ → Exec Database ℕ
  unfolding new_transfer
  insert_transfer request source_token destination_token source_hub db =
      let id = engine.next_id (map transfer_id db.transfers) in
      (do
        modify (λ d. record d {
          transfers =
              new_transfer id request source_token destination_token source_hub ∷ d.transfers;
        })
        check_constraints
        pure id)
        db

  unfoldable pub create_transfer : TransferCreationRequest → Exec Database ℕ
  create_transfer request =
      catch
        (transaction (do
          source_token ←
              read_or_create_contract engine token request.source_blockchain
                request.source_token_address
          destination_token ←
              read_or_create_contract engine token request.destination_blockchain
                request.destination_token_address
          source_hub ←
              read_or_create_contract engine hub request.source_blockchain
                request.source_hub_address
          insert_transfer request source_token destination_token source_hub))
        (λ e. raise (creation_error e))

-- `filter_by(source_blockchain_id=…, source_transaction_id=…)`
abbrev pub is_source : Blockchain → String → Transfer → Bool
is_source blockchain transaction_id t =
    t.source_blockchain_id == blockchain && str_eq t.source_transaction_id transaction_id

abbrev pub has_id : ℕ → Transfer → Bool
has_id id t = t.id == id

unfoldable pub read_blockchain_last_block_number : Blockchain → Exec Database ℤ
read_blockchain_last_block_number blockchain db =
    (do
      row ← or_raise (find (λ r. r.id == blockchain) db.blockchains) assertion_error
      pure row.last_block_number)
      db

unfoldable pub read_transfer_id : Blockchain → String → Exec Database (Option ℕ)
read_transfer_id blockchain transaction_id db =
    (one_or_none (map transfer_id (select (is_source blockchain transaction_id) db.transfers)), db)

-- A nullable column of one row: `scalar_one_or_none` returns None for NULL too.
abbrev pub join_null : Option (Option ℕ) → Option ℕ
join_null none = none
join_null (some o) = o

unfoldable pub read_transfer_nonce : ℕ → Exec Database (Option ℕ)
read_transfer_nonce internal_transfer_id =
    (λ (db : Database).
      (one_or_none (map (λ t. t.nonce) (select (has_id internal_transfer_id) db.transfers)), db))
    >>= λ found. pure (join_null found)

unfoldable pub read_validator_nonce_by_internal_transfer_id : ℕ → Exec Database (Option ℕ)
read_validator_nonce_by_internal_transfer_id internal_transfer_id db = (
  one_or_none (map (λ t. t.validator_nonce) (select (has_id internal_transfer_id) db.transfers)),
  db,
)

unfoldable pub read_validator_nonce_by_source_transaction_id :
    Blockchain → String → Exec Database (Option ℕ)
read_validator_nonce_by_source_transaction_id blockchain transaction_id db = (
  one_or_none
      (map (λ t. t.validator_nonce) (select (is_source blockchain transaction_id) db.transfers)),
  db,
)

pub record TransferToDataResponse : Type 0 where
  pub internal_transfer_id : ℕ
  pub destination_blockchain : Blockchain
  pub source_transfer_id : ℕ
  pub sender_address : BlockchainAddress
  pub recipient_address : BlockchainAddress
  pub source_token_address : BlockchainAddress
  pub destination_token_address : BlockchainAddress
  pub amount : ℕ
  pub validator_nonce : ℕ

unfoldable pub transfer_to_data : Transfer → Contract → Contract → TransferToDataResponse
transfer_to_data t source_token destination_token = record {
  internal_transfer_id = t.id;
  destination_blockchain = t.destination_blockchain_id;
  source_transfer_id = t.source_transfer_id;
  sender_address = t.sender_address;
  recipient_address = t.recipient_address;
  source_token_address = source_token.address;
  destination_token_address = destination_token.address;
  amount = t.amount;
  validator_nonce = t.validator_nonce;
}

-- The joins with the two token contracts of a transfer.
unfoldable pub join_token_contracts : Database → Transfer → List TransferToDataResponse
unfolding transfer_to_data
join_token_contracts db t =
    flat_map
      (λ source_token.
        map (λ destination_token. transfer_to_data t source_token destination_token)
          (select (λ c. c.id == t.destination_token_contract_id) db.token_contracts))
      (select (λ c. c.id == t.source_token_contract_id) db.token_contracts)

unfoldable pub read_transfer_to_data :
    Blockchain → String → Exec Database (Option TransferToDataResponse)
unfolding join_token_contracts
read_transfer_to_data blockchain transaction_id db = (
  one_or_none (
      flat_map (join_token_contracts db)
        (select (is_source blockchain transaction_id) db.transfers)),
  db,
)

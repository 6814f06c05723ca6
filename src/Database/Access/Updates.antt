-- ===== src/Database/Access/Updates.antt =====
-- database/access.py: the functions that update a blockchain or a transfer, but for the nonce.
use validatornode.Common.{
  ℕ, String, none, some, map, if◌then◌else◌, ◌==◌, select, update_where, find,
}
use validatornode.Common.Int.{ℤ, ltb_ℤ, eqb_ℤ}
use validatornode.Exec.{
  Exec, raise, lift, or_raise, ◌>>=◌, ◌>>◌, modify, skip, assertion_error, database_error,
}
use validatornode.Entities.{Blockchain, BlockchainAddress}
use validatornode.Database.Models.{Database, Transfer, TransferStatus, value}
use validatornode.Database.Session.{Engine, scalar_one, transaction, check_constraints}
use validatornode.Database.Access.Contracts.{hub, forwarder, token, read_or_create_contract}
use validatornode.Database.Access.Transfers.{has_id}

-- `UPDATE transfers SET … WHERE id = …`
abbrev pub update_transfer : ℕ → (Transfer → Transfer) → Exec Database (Unit {0})
update_transfer id f =
    modify (λ db. record db { transfers = update_where (has_id id) f db.transfers })

-- `transfer = session.get(Transfer, id)` and `assert transfer is not None`
abbrev pub assert_transfer : ℕ → Exec Database Transfer
assert_transfer id db = or_raise (find (has_id id) db.transfers) assertion_error db

unfoldable pub update_blockchain_last_block_number : Blockchain → ℤ → Exec Database (Unit {0})
update_blockchain_last_block_number blockchain last_block_number = transaction (λ db.
    (do
      row ← or_raise (find (λ r. r.id == blockchain) db.blockchains) assertion_error
      if ltb_ℤ last_block_number row.last_block_number
          then raise database_error
          else if eqb_ℤ row.last_block_number last_block_number
          then skip
          else modify (λ d. record d {
            blockchains =
                update_where (λ r. r.id == blockchain)
                  (λ r. record r { last_block_number = last_block_number }) d.blockchains;
          }))
      db)

unfoldable pub update_reversal_transfer :
    Engine → ℕ → Blockchain → BlockchainAddress → BlockchainAddress → Exec Database (Unit {0})
update_reversal_transfer engine internal_transfer_id destination_blockchain recipient_address
      destination_token_address =
    transaction (do
      destination_token ←
          read_or_create_contract engine token destination_blockchain destination_token_address
      update_transfer internal_transfer_id (λ t. record t {
        destination_blockchain_id = destination_blockchain;
        recipient_address = recipient_address;
        destination_token_contract_id = destination_token;
      })
      check_constraints)

unfoldable pub update_transfer_confirmed_destination_transaction :
    ℕ → ℕ → String → ℕ → Exec Database (Unit {0})
update_transfer_confirmed_destination_transaction internal_transfer_id destination_transfer_id
      destination_transaction_id block_number =
    transaction (do
      update_transfer internal_transfer_id (λ t. record t {
        destination_transfer_id = some destination_transfer_id;
        destination_transaction_id = some destination_transaction_id;
        destination_block_number = some block_number;
      })
      check_constraints)

unfoldable pub update_transfer_submitted_destination_transaction :
    Engine → ℕ → BlockchainAddress → BlockchainAddress → Exec Database (Unit {0})
update_transfer_submitted_destination_transaction engine internal_transfer_id hub_address
      forwarder_address =
    transaction (λ db.
      (do
        destination_blockchain ← lift (
            scalar_one (
              map (λ t. t.destination_blockchain_id)
                (select (has_id internal_transfer_id) db.transfers)))
        hub_id ← read_or_create_contract engine hub destination_blockchain hub_address
        forwarder_id ←
            read_or_create_contract engine forwarder destination_blockchain forwarder_address
        update_transfer internal_transfer_id (λ t. record t {
          destination_hub_contract_id = some hub_id;
          destination_forwarder_contract_id = some forwarder_id;
        })
        check_constraints)
        db)

unfoldable pub reset_transfer_nonce : ℕ → Exec Database (Unit {0})
reset_transfer_nonce internal_transfer_id =
    transaction (update_transfer internal_transfer_id (λ t. record t { nonce = none }))

unfoldable pub update_transfer_source_transaction : ℕ → ℕ → ℕ → Exec Database (Unit {0})
update_transfer_source_transaction internal_transfer_id source_transfer_id source_block_number =
    transaction (do
      assert_transfer internal_transfer_id
      update_transfer internal_transfer_id (λ t. record t {
        source_transfer_id = source_transfer_id;
        source_block_number = source_block_number;
      })
      check_constraints)

unfoldable pub update_transfer_status : ℕ → TransferStatus → Exec Database (Unit {0})
update_transfer_status internal_transfer_id status = transaction (do
  assert_transfer internal_transfer_id
  update_transfer internal_transfer_id (λ t. record t { status_id = value status }))

unfoldable pub update_transfer_task_id : ℕ → String → Exec Database (Unit {0})
update_transfer_task_id internal_transfer_id task_id = transaction (do
  assert_transfer internal_transfer_id
  update_transfer internal_transfer_id (λ t. record t { task_id = some task_id })
  check_constraints)

unfoldable pub update_transfer_validator_nonce : ℕ → ℕ → Exec Database (Unit {0})
update_transfer_validator_nonce internal_transfer_id validator_nonce = transaction (do
  update_transfer internal_transfer_id (λ t. record t { validator_nonce = validator_nonce })
  check_constraints)

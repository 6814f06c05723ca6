-- ===== src/Examples/Tables.antt =====
-- The theorems on entities.py and database/access.py, each at a small database.
use validatornode.Common.{ℕ, String, Option, none, some, [], ◌∷◌, ◌≡◌, ◌≢◌, refl, arith}
use validatornode.Common.Int.{pos}
use validatornode.Exec.{ok, err, Exception, database_error, validator_nonce_not_unique_error}
use validatornode.Entities.Dict.{to_dict, from_dict, from_dict-to_dict}
use validatornode.Database.Models.{Database}
use validatornode.Database.Session.{violation, clash, clash_with, check_constraints}
use validatornode.Database.Access.Contracts.{read_or_create_contract}
use validatornode.Database.Access.Transfers.{
  TransferCreationRequest, create_transfer, insert_transfer,
  read_validator_nonce_by_internal_transfer_id, read_transfer_id, read_transfer_nonce,
  read_validator_nonce_by_source_transaction_id, read_blockchain_last_block_number,
}
use validatornode.Database.Access.Updates.{update_blockchain_last_block_number}
use validatornode.Database.Access.Nonce.{minimum_failed_nonce, update_nonces, update_transfer_nonce}
use validatornode.Database.Nonce.Assign.{update_transfer_nonce-assigns}
use validatornode.Database.Blocks.{last_block_number-max}
use validatornode.Database.Creation.{
  read-create_transfer, create_transfer-known, create_transfer-ne-not_unique,
}
use validatornode.Database.Consistency.Reads.{reads-of-one}
use validatornode.Examples.{engine, env, outgoing, outgoing_row, failed_row, database}

from_dict-to_dict_example :
    from_dict env.is_blockchain (to_dict outgoing) database ≡ (ok outgoing, database)
from_dict-to_dict_example = from_dict-to_dict env.is_blockchain outgoing database refl refl

database-violation : violation database.transfers ≡ none
unfolding violation clash_with clash
database-violation = refl

abbrev renumbered : Database
renumbered = record database {
  transfers =
      record outgoing_row { nonce = some 3; status_id = 100 }
      ∷ record failed_row { nonce = none }
      ∷ [];
}

-- The nonce 3 of the failed transfer is used again.
update_transfer_nonce-assigns_example :
    (update_transfer_nonce 7 1 9 database ≡ (ok tt, renumbered))
    × (violation renumbered.transfers ≡ none)
    × (read_transfer_nonce 7 renumbered ≡ (ok (some 3), renumbered))
unfolding update_nonces minimum_failed_nonce
update_transfer_nonce-assigns_example =
    update_transfer_nonce-assigns 7 1 9 database outgoing_row refl ((λ e. refl), ((λ e. refl), tt))
      ((omega arith, tt), (tt, tt)) database-violation

last_block_number-max_example :
    ((update_blockchain_last_block_number 0 (pos 60) database).0 ≡ err database_error)
    × ((read_blockchain_last_block_number 0
          (update_blockchain_last_block_number 0 (pos 60) database).1).0
        ≡ ok (pos 90))
    × ((read_blockchain_last_block_number 1
          (update_blockchain_last_block_number 0 (pos 60) database).1).0
        ≡ (read_blockchain_last_block_number 1 database).0)
last_block_number-max_example =
    last_block_number-max 0 1 (pos 60) database (record { id = 0; last_block_number = pos 90 }) refl
      (omega arith)

-- A transfer that another transaction sent.
abbrev request : TransferCreationRequest
request = record {
  source_blockchain = 0;
  destination_blockchain = 1;
  sender_address = "alice";
  recipient_address = "bob";
  source_token_address = "token0";
  destination_token_address = "token1";
  amount = 8;
  validator_nonce = 77;
  source_hub_address = "hub0";
  source_transfer_id = 13;
  source_transaction_id = "tx13";
  source_block_number = 102;
}

-- One that is known already.
abbrev known_request : TransferCreationRequest
known_request = record request { source_transaction_id = "tx12"; source_transfer_id = 12 }

read-create_transfer_example :
    ((read_transfer_id 0 "tx13" (create_transfer engine request database).1).0 ≡ ok (some 13))
    × ((read_validator_nonce_by_source_transaction_id 0 "tx13"
          (create_transfer engine request database).1).0
        ≡ ok (some 77))
unfolding create_transfer read_or_create_contract insert_transfer check_constraints violation
    clash_with clash
read-create_transfer_example = read-create_transfer engine request database 13 refl refl

create_transfer-known_example :
    (e : Exception) × (create_transfer engine known_request database ≡ (err e, database))
create_transfer-known_example = create_transfer-known engine known_request database (λ e. cc)

-- The validator nonce 77 is that of a transfer to the same blockchain.
create_transfer-ne-not_unique_example :
    (create_transfer engine request database).0 ≢ err validator_nonce_not_unique_error
create_transfer-ne-not_unique_example =
    create_transfer-ne-not_unique engine request database database-violation

reads-of-one_example :
    ((b : ℕ) (x : String) → (o : Option ℕ) × (read_transfer_id b x database ≡ (ok o, database)))
    × ((b : ℕ) (x : String)
        → (o : Option ℕ) × (read_validator_nonce_by_source_transaction_id b x database
            ≡ (ok o, database)))
    × ((id : ℕ)
        → (o : Option ℕ) × (read_validator_nonce_by_internal_transfer_id id database
            ≡ (ok o, database)))
    × ((id : ℕ) → (o : Option ℕ) × (read_transfer_nonce id database ≡ (ok o, database)))
reads-of-one_example = reads-of-one database (((omega arith, tt), (tt, tt)), database-violation)

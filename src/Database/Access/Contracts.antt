-- ===== src/Database/Access/Contracts.antt =====
-- database/access.py: `_read_id`, `_create_with_id` and the functions that call them, on the tables
-- of contracts and of validator nodes.
use validatornode.Common.{
  ℕ, Bool, ◌&&◌, not, Option, none, some, List, ◌∷◌, map, if◌then◌else◌, ◌==◌, str_eq, select, any,
}
use validatornode.Exec.{
  Exec, Exception, pure, raise, or_raise, ◌>>=◌, catch, assertion_error, integrity_error,
  other_constraint,
}
use validatornode.Entities.{Blockchain, BlockchainAddress}
use validatornode.Database.Models.{Database, Contract, ValidatorNode}
use validatornode.Database.Session.{Engine, one_or_none}

-- The model classes with a blockchain and an address.
pub data ContractModel : Type 0 where
  hub forwarder token : ContractModel

abbrev pub contracts : ContractModel → Database → List Contract
contracts hub db = db.hub_contracts
contracts forwarder db = db.forwarder_contracts
contracts token db = db.token_contracts

abbrev pub with_contracts : ContractModel → List Contract → Database → Database
with_contracts hub rows db = record db { hub_contracts = rows }
with_contracts forwarder rows db = record db { forwarder_contracts = rows }
with_contracts token rows db = record db { token_contracts = rows }

abbrev pub has_blockchain : Database → Blockchain → Bool
has_blockchain db b = any (λ r. r.id == b) db.blockchains

abbrev pub is_contract : Blockchain → BlockchainAddress → Contract → Bool
is_contract blockchain address c = c.blockchain_id == blockchain && str_eq c.address address

abbrev pub is_validator_node : ℕ → BlockchainAddress → ValidatorNode → Bool
is_validator_node forwarder_contract_id address n =
    n.forwarder_contract_id == forwarder_contract_id && str_eq n.address address

abbrev contract_id : Contract → ℕ
contract_id c = c.id

abbrev validator_node_id : ValidatorNode → ℕ
validator_node_id n = n.id

unfoldable pub read_contract_id :
    ContractModel → Blockchain → BlockchainAddress → Exec Database (Option ℕ)
read_contract_id model blockchain address db = (
  one_or_none (map contract_id (select (is_contract blockchain address) (contracts model db))),
  db,
)

unfoldable pub read_validator_node_id : ℕ → BlockchainAddress → Exec Database (Option ℕ)
read_validator_node_id forwarder_contract_id address db = (
  one_or_none (
      map validator_node_id
        (select (is_validator_node forwarder_contract_id address) db.validator_nodes)),
  db,
)

-- `except sqlalchemy.exc.IntegrityError` of `_create_with_id`
abbrev on_integrity_error : Exec Database (Option ℕ) → Exception → Exec Database ℕ
on_integrity_error read (integrity_error _) = read >>= λ id. or_raise id assertion_error
on_integrity_error read e = raise e

module _ (engine : Engine) where
  -- The insertion under a savepoint: the blockchain is a foreign key, the pair is unique.
  unfoldable pub insert_contract : ContractModel → Blockchain → BlockchainAddress → Exec Database ℕ
  insert_contract model blockchain address db =
      let rows = contracts model db in
      let id = engine.next_id (map contract_id rows) in
      if has_blockchain db blockchain && not (any (is_contract blockchain address) rows)
      then (pure id (
          with_contracts model
            (record { id = id; blockchain_id = blockchain; address = address } ∷ rows) db))
      else raise (integrity_error other_constraint) db

  unfoldable pub create_contract : ContractModel → Blockchain → BlockchainAddress → Exec Database ℕ
  unfolding insert_contract read_contract_id
  create_contract model blockchain address =
      catch (insert_contract model blockchain address)
        (on_integrity_error (read_contract_id model blockchain address))

  unfoldable pub insert_validator_node : ℕ → BlockchainAddress → Exec Database ℕ
  insert_validator_node forwarder_contract_id address db =
      let rows = db.validator_nodes in
      let id = engine.next_id (map validator_node_id rows) in
      if any (λ c. c.id == forwarder_contract_id) db.forwarder_contracts
        && not (any (is_validator_node forwarder_contract_id address) rows)
      then (pure id (record db {
        validator_nodes =
            record { id = id; forwarder_contract_id = forwarder_contract_id; address = address }
            ∷ rows;
      }))
      else raise (integrity_error other_constraint) db

  unfoldable pub create_validator_node : ℕ → BlockchainAddress → Exec Database ℕ
  unfolding insert_validator_node read_validator_node_id
  create_validator_node forwarder_contract_id address =
      catch (insert_validator_node forwarder_contract_id address)
        (on_integrity_error (read_validator_node_id forwarder_contract_id address))

  -- `id = _read_…_contract_id(…)` and `if id is None: id = _create_…_contract(…)`
  unfoldable pub read_or_create_contract :
      ContractModel → Blockchain → BlockchainAddress → Exec Database ℕ
  unfolding read_contract_id create_contract
  read_or_create_contract model blockchain address = do
    found ← read_contract_id model blockchain address
    elim found [ some id ↦ pure id | none ↦ create_contract model blockchain address ]

  unfoldable pub read_or_create_validator_node : ℕ → BlockchainAddress → Exec Database ℕ
  unfolding read_validator_node_id create_validator_node
  read_or_create_validator_node forwarder_contract_id address = do
    found ← read_validator_node_id forwarder_contract_id address
    elim found [ some id ↦ pure id | none ↦ create_validator_node forwarder_contract_id address ]

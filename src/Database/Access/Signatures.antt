-- ===== src/Database/Access/Signatures.antt =====
-- database/access.py: the functions on validator node signatures.
use validatornode.Common.{
  ℕ, String, ◌&&◌, ◌||◌, not, Option, none, some, List, [], ◌∷◌, map, flat_map, if◌then◌else◌, ◌==◌,
  str_eq, select, any,
}
use validatornode.Exec.{Exec, pure, raise, ◌>>=◌, integrity_error, other_constraint}
use validatornode.Entities.{Blockchain, BlockchainAddress}
use validatornode.Database.Models.{Database, ValidatorNode, ValidatorNodeSignature}
use validatornode.Database.Session.{Engine, one_or_none, transaction}
use validatornode.Database.Access.Contracts.{
  forwarder, is_contract, read_or_create_contract, read_or_create_validator_node,
}

-- The primary key is the pair of keys, a signature stands in one row only, and the transfer is a
-- foreign key. The validator node is a row that the same transaction has read or created.
unfoldable pub insert_signature : ValidatorNodeSignature → Exec Database (Unit {0})
insert_signature row db =
    if any (λ t. t.id == row.transfer_id) db.transfers
      && not (
          any
            (λ s.
              s.transfer_id == row.transfer_id && s.validator_node_id == row.validator_node_id
              || str_eq s.signature row.signature)
            db.validator_node_signatures)
    then (pure tt (record db { validator_node_signatures = row ∷ db.validator_node_signatures }))
    else raise (integrity_error other_constraint) db

-- The statements of `create_validator_node_signature`.
unfoldable pub store_signature :
    Engine
    → ℕ
    → Blockchain
    → BlockchainAddress
    → BlockchainAddress
    → String
    → Exec Database (Unit {0})
store_signature engine internal_transfer_id destination_blockchain forwarder_address node_address
      signature =
    do
      forwarder_id ←
          read_or_create_contract engine forwarder destination_blockchain forwarder_address
      validator_node_id ← read_or_create_validator_node engine forwarder_id node_address
      insert_signature (record {
        transfer_id = internal_transfer_id;
        validator_node_id = validator_node_id;
        signature = signature;
      })

unfoldable pub create_validator_node_signature :
    Engine
    → ℕ
    → Blockchain
    → BlockchainAddress
    → BlockchainAddress
    → String
    → Exec Database (Unit {0})
create_validator_node_signature engine internal_transfer_id destination_blockchain forwarder_address
      node_address signature =
    transaction (
      store_signature engine internal_transfer_id destination_blockchain forwarder_address
        node_address signature)

-- The validator nodes that a signature is joined with.
abbrev pub nodes_of : Database → ValidatorNodeSignature → List ValidatorNode
nodes_of db s = select (λ n. n.id == s.validator_node_id) db.validator_nodes

abbrev pub signatures_of : Database → ℕ → List ValidatorNodeSignature
signatures_of db internal_transfer_id =
    select (λ s. s.transfer_id == internal_transfer_id) db.validator_node_signatures

-- The signatures of one validator node, found through the Forwarder contract's address.
unfoldable pub signature_matches :
    Database
    → Blockchain
    → BlockchainAddress
    → BlockchainAddress
    → ValidatorNodeSignature
    → List String
signature_matches db destination_blockchain forwarder_address node_address s =
    flat_map
      (λ n.
        map (λ _. s.signature)
          (select
            (λ c.
              c.id == n.forwarder_contract_id
              && is_contract destination_blockchain forwarder_address c)
            db.forwarder_contracts))
      (select (λ n. str_eq n.address node_address) (nodes_of db s))

unfoldable pub read_validator_node_signature :
    ℕ → Blockchain → BlockchainAddress → BlockchainAddress → Exec Database (Option String)
unfolding signature_matches
read_validator_node_signature internal_transfer_id destination_blockchain forwarder_address
      node_address db =
    (
      one_or_none (
          flat_map (signature_matches db destination_blockchain forwarder_address node_address)
            (signatures_of db internal_transfer_id)),
      db,
    )

-- A Python dict from addresses to signatures, in insertion order.
abbrev pub Signatures : Type 0
Signatures = List (BlockchainAddress × String)

-- `signatures[address] = signature`
unfoldable pub insert : BlockchainAddress → String → Signatures → Signatures
insert address signature [] = (address, signature) ∷ []
insert address signature ((a, s) ∷ rest) =
    if str_eq a address then (address, signature) ∷ rest else (a, s) ∷ insert address signature rest

-- `signatures[address]`
unfoldable pub lookup : BlockchainAddress → Signatures → Option String
lookup address [] = none
lookup address ((a, s) ∷ rest) = if str_eq a address then some s else lookup address rest

-- The dict comprehension: a later pair replaces an earlier one with its key.
unfoldable pub to_signatures : List (BlockchainAddress × String) → Signatures → Signatures
unfolding insert
to_signatures [] acc = acc
to_signatures ((a, s) ∷ rest) acc = to_signatures rest (insert a s acc)

unfoldable pub read_validator_node_signatures : ℕ → Exec Database Signatures
unfolding to_signatures
read_validator_node_signatures internal_transfer_id db =
    pure
      (to_signatures
        (flat_map (λ s. map (λ n. (n.address, s.signature)) (nodes_of db s))
          (signatures_of db internal_transfer_id))
        [])
      db

-- ===== src/Database/Consistency/Contracts.antt =====
-- The reading and creation of contracts and nodes in database/access.py and
-- the table `transfers`.
use validatornode.Common.{ℕ, String, ◌≡◌, arith, inl, inr}
use validatornode.Exec.{Exec-cases}
use validatornode.Database.Models.{Database, ValidatorNodeSignature}
use validatornode.Database.Session.{Engine}
use validatornode.Database.Access.Contracts.{
  ContractModel, hub, forwarder, token, read_or_create_contract, read_or_create_validator_node,
}
use validatornode.Database.Access.Signatures.{
  insert_signature, store_signature, create_validator_node_signature,
}

module _ (engine : Engine) where
  pub read_or_create_contract-transfers :
      (model : ContractModel) (b : ℕ) (a : String) (db : Database)
      → (read_or_create_contract engine model b a db).1.transfers ≡ db.transfers
  unfolding read_or_create_contract
  read_or_create_contract-transfers hub b a db = ground arith
  read_or_create_contract-transfers forwarder b a db = ground arith
  read_or_create_contract-transfers token b a db = ground arith

  read_or_create_validator_node-transfers :
      (id : ℕ) (a : String) (db : Database)
      → (read_or_create_validator_node engine id a db).1.transfers ≡ db.transfers
  unfolding read_or_create_validator_node
  read_or_create_validator_node-transfers id a db = ground arith

  insert_signature-transfers :
      (row : ValidatorNodeSignature) (db : Database)
      → (insert_signature row db).1.transfers ≡ db.transfers
  unfolding insert_signature
  insert_signature-transfers row db = ground arith

  pub create_validator_node_signature-transfers :
      (id b : ℕ) (f a x : String) (db : Database)
      → (create_validator_node_signature engine id b f a x db).1.transfers ≡ db.transfers
  unfolding create_validator_node_signature store_signature
  create_validator_node_signature-transfers id b f a x db =
      elim (Exec-cases (read_or_create_contract engine forwarder b f db)) [
        | inl (e, d, p) ↦ ground (arith, read_or_create_contract-transfers forwarder b f db)
        | inr (i, d, p) ↦ elim (Exec-cases (read_or_create_validator_node engine i a d)) [
          | inl (e, d', q) ↦ ground (
            arith,
            read_or_create_contract-transfers forwarder b f db,
            read_or_create_validator_node-transfers i a d,
          )
          | inr (n, d', q) ↦
              let row : ValidatorNodeSignature = record {
                transfer_id = id;
                validator_node_id = n;
                signature = x;
              } in
              elim (Exec-cases (insert_signature row d')) [
                | inl (e, d'', r) ↦ ground arith
                | inr (u, d'', r) ↦ ground (
                  arith,
                  read_or_create_contract-transfers forwarder b f db,
                  read_or_create_validator_node-transfers i a d,
                  insert_signature-transfers row d',
                )
              ]
        ]
      ]

-- ===== src/Database/Interleaving.antt =====
-- Transactions of database/access.py for different transfers, from any number of threads and
-- processes, one committed after another.
pub mod Rows
pub mod Nonces
use validatornode.Common.{
  ℕ, String, none, some, List, [], ◌∷◌, any, map, select, ◌==◌, ◌≡◌, ◌≢◌, ◌∙◌, ◌&&◌, false, refl,
  arith, inl, inr, Bool-cases,
}
use validatornode.Common.Int.{ℤ}
use validatornode.Exec.{Exec, ok, Exec-cases, assertion_error, ◌>>=◌, ◌>>◌, modify}
use validatornode.Exec.Keeps.{Keeps, Keeps->>=, Keeps-or_raise, keeps_rules}
use validatornode.Database.Models.{Database, Transfer, TransferStatus}
use validatornode.Database.Session.{Engine, transaction, check_constraints}
use validatornode.Database.Access.Contracts.{ContractModel, read_or_create_contract}
use validatornode.Database.Access.Transfers.{
  has_id, transfer_id, TransferCreationRequest, new_transfer, insert_transfer, create_transfer,
  read_transfer_nonce,
}
use validatornode.Database.Access.Signatures.{create_validator_node_signature}
use validatornode.Database.Access.Nonce.{is_failed, update_transfer_nonce}
use validatornode.Database.Access.Updates.{
  assert_transfer, update_transfer, update_reversal_transfer,
  update_transfer_confirmed_destination_transaction,
  update_transfer_submitted_destination_transaction, reset_transfer_nonce,
  update_transfer_source_transaction, update_transfer_status, update_transfer_task_id,
  update_transfer_validator_nonce, update_blockchain_last_block_number,
}
use validatornode.Database.Consistency.{IsConsistent}
use validatornode.Database.Consistency.Contracts.{
  read_or_create_contract-transfers, create_validator_node_signature-transfers,
}
use validatornode.Database.Consistency.Writes.{
  update_transfer_task_id-IsConsistent, update_transfer_validator_nonce-IsConsistent,
  update_transfer_source_transaction-IsConsistent,
  update_transfer_confirmed_destination_transaction-IsConsistent,
  update_reversal_transfer-IsConsistent, reset_transfer_nonce-IsConsistent,
  update_transfer_status-IsConsistent,
  update_transfer_submitted_destination_transaction-IsConsistent, create_transfer-IsConsistent,
  update_blockchain_last_block_number-IsConsistent, create_validator_node_signature-IsConsistent,
  update_transfer_nonce-IsConsistent,
}
use validatornode.Database.Rows.{HasRow}
use validatornode.Database.Nonce.Held.{select-not_updated, update_nonces-held}

module _ (engine : Engine) (id : ℕ) where
  -- A transaction that is not about the transfer `id`: its function ends as it ends.
  pub data Other (d : Database) : Database → Type 0 where
    create : (r : TransferCreationRequest) → Other d (create_transfer engine r d).1
    signature :
        (i b : ℕ) (f a x : String) → Other d (create_validator_node_signature engine i b f a x d).1
    last_block : (b : ℕ) (n : ℤ) → Other d (update_blockchain_last_block_number b n d).1
    nonce : (i b n : ℕ) → i ≢ id → Other d (update_transfer_nonce i b n d).1
    reset : (i : ℕ) → i ≢ id → Other d (reset_transfer_nonce i d).1
    reversal :
        (i b : ℕ) (r a : String) → i ≢ id → Other d (update_reversal_transfer engine i b r a d).1
    confirmed :
        (i j : ℕ) (x : String) (n : ℕ)
        → i ≢ id
        → Other d (update_transfer_confirmed_destination_transaction i j x n d).1
    submitted :
        (i : ℕ) (h f : String)
        → i ≢ id
        → Other d (update_transfer_submitted_destination_transaction engine i h f d).1
    source : (i j n : ℕ) → i ≢ id → Other d (update_transfer_source_transaction i j n d).1
    status : (i : ℕ) (s : TransferStatus) → i ≢ id → Other d (update_transfer_status i s d).1
    task_id : (i : ℕ) (x : String) → i ≢ id → Other d (update_transfer_task_id i x d).1
    validator_nonce : (i n : ℕ) → i ≢ id → Other d (update_transfer_validator_nonce i n d).1

  pub data Interleaved (d : Database) : Database → Type 0 where
    start : Interleaved d d
    then : {d₁ d₂ : Database} → Interleaved d d₁ → Other d₁ d₂ → Interleaved d d₂

  pub Other-IsConsistent : {d d' : Database} → Other d d' → IsConsistent d → IsConsistent d'
  Other-IsConsistent (create r) h = (create_transfer-IsConsistent engine r).after _ h
  Other-IsConsistent (signature i b f a x) h =
      (create_validator_node_signature-IsConsistent engine i b f a x).after _ h
  Other-IsConsistent (last_block b n) h =
      (update_blockchain_last_block_number-IsConsistent b n).after _ h
  Other-IsConsistent (nonce i b n o) h = (update_transfer_nonce-IsConsistent i b n).after _ h
  Other-IsConsistent (reset i o) h = (reset_transfer_nonce-IsConsistent i).after _ h
  Other-IsConsistent (reversal i b r a o) h =
      (update_reversal_transfer-IsConsistent i engine b r a).after _ h
  Other-IsConsistent (confirmed i j x n o) h =
      (update_transfer_confirmed_destination_transaction-IsConsistent i j x n).after _ h
  Other-IsConsistent (submitted i x f o) h =
      (update_transfer_submitted_destination_transaction-IsConsistent i engine x f).after _ h
  Other-IsConsistent (source i j n o) h =
      (update_transfer_source_transaction-IsConsistent i j n).after _ h
  Other-IsConsistent (status i s o) h = (update_transfer_status-IsConsistent i s).after _ h
  Other-IsConsistent (task_id i x o) h = (update_transfer_task_id-IsConsistent i x).after _ h
  Other-IsConsistent (validator_nonce i n o) h =
      (update_transfer_validator_nonce-IsConsistent i n).after _ h

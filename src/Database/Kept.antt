-- ===== src/Database/Kept.antt =====
-- What the interactors use of database/access.py: functions that keep the integrity of the table
-- `transfers` and the records in it, on every branch and beside every exception.
use validatornode.Common.{ℕ, String, arith}
use validatornode.Common.Int.{ℤ}
use validatornode.Exec.{Exec}
use validatornode.Exec.Keeps.{Keeps, Keeps->>=, Keeps-pure}
use validatornode.Database.Models.{Database, Transfer, TransferStatus}
use validatornode.Database.Session.{Engine}
use validatornode.Database.Consistency.{IsConsistent}
use validatornode.Database.Records.{
  HasRecord, update_transfer_task_id-HasRecord, update_transfer_validator_nonce-HasRecord,
  update_transfer_source_transaction-HasRecord,
  update_transfer_confirmed_destination_transaction-HasRecord, update_reversal_transfer-HasRecord,
  reset_transfer_nonce-HasRecord, update_transfer_nonce-HasRecord, update_transfer_status-HasRecord,
  update_transfer_submitted_destination_transaction-HasRecord, create_transfer-HasRecord,
  update_blockchain_last_block_number-HasRecord, create_validator_node_signature-HasRecord,
}
use validatornode.Database.Consistency.Writes.{
  update_transfer_task_id-IsConsistent, update_transfer_validator_nonce-IsConsistent,
  update_transfer_source_transaction-IsConsistent,
  update_transfer_confirmed_destination_transaction-IsConsistent,
  update_reversal_transfer-IsConsistent, reset_transfer_nonce-IsConsistent,
  update_transfer_nonce-IsConsistent, update_transfer_status-IsConsistent,
  update_transfer_submitted_destination_transaction-IsConsistent, create_transfer-IsConsistent,
  update_blockchain_last_block_number-IsConsistent, create_validator_node_signature-IsConsistent,
}
use validatornode.Database.Consistency.Reads.{
  read_transfer_id-IsConsistent, read_source_nonce-IsConsistent, read_validator_nonce-IsConsistent,
  read_blockchain_last_block_number-IsConsistent, read_transfer_to_data-IsConsistent,
  read_validator_node_signature-IsConsistent, read_validator_node_signatures-IsConsistent,
}
use validatornode.Database.Access.Transfers.{
  TransferCreationRequest, create_transfer, read_transfer_id, read_transfer_nonce,
  read_validator_nonce_by_source_transaction_id, read_validator_nonce_by_internal_transfer_id,
  read_blockchain_last_block_number, read_transfer_to_data,
}
use validatornode.Database.Access.Signatures.{
  create_validator_node_signature, read_validator_node_signature, read_validator_node_signatures,
}
use validatornode.Database.Access.Nonce.{update_transfer_nonce}
use validatornode.Database.Access.Updates.{
  update_reversal_transfer, update_transfer_confirmed_destination_transaction,
  update_transfer_submitted_destination_transaction, reset_transfer_nonce,
  update_transfer_source_transaction, update_transfer_status, update_transfer_task_id,
  update_transfer_validator_nonce, update_blockchain_last_block_number,
}

pub record IsAccess {A : Type 0} (m : Exec Database A) : Type 0 where
  pub consistent : Keeps IsConsistent m
  pub records : (row : Transfer) → Keeps (HasRecord row) m

pub update_transfer_task_id-IsAccess :
    (id : ℕ) (x : String) → IsAccess (update_transfer_task_id id x)
update_transfer_task_id-IsAccess id x = record {
  consistent = update_transfer_task_id-IsConsistent id x;
  records = λ row. update_transfer_task_id-HasRecord row id x;
}

pub update_transfer_validator_nonce-IsAccess :
    (id n : ℕ) → IsAccess (update_transfer_validator_nonce id n)
update_transfer_validator_nonce-IsAccess id n = record {
  consistent = update_transfer_validator_nonce-IsConsistent id n;
  records = λ row. update_transfer_validator_nonce-HasRecord row id n;
}

pub update_transfer_source_transaction-IsAccess :
    (id x n : ℕ) → IsAccess (update_transfer_source_transaction id x n)
update_transfer_source_transaction-IsAccess id x n = record {
  consistent = update_transfer_source_transaction-IsConsistent id x n;
  records = λ row. update_transfer_source_transaction-HasRecord row id x n;
}

pub update_transfer_confirmed_destination_transaction-IsAccess :
    (id d : ℕ) (x : String) (n : ℕ)
    → IsAccess (update_transfer_confirmed_destination_transaction id d x n)
update_transfer_confirmed_destination_transaction-IsAccess id d x n = record {
  consistent = update_transfer_confirmed_destination_transaction-IsConsistent id d x n;
  records = λ row. update_transfer_confirmed_destination_transaction-HasRecord row id d x n;
}

pub update_reversal_transfer-IsAccess :
    (engine : Engine) (id b : ℕ) (r a : String)
    → IsAccess (update_reversal_transfer engine id b r a)
update_reversal_transfer-IsAccess engine id b r a = record {
  consistent = update_reversal_transfer-IsConsistent id engine b r a;
  records = λ row. update_reversal_transfer-HasRecord row id engine b r a;
}

pub reset_transfer_nonce-IsAccess : (id : ℕ) → IsAccess (reset_transfer_nonce id)
reset_transfer_nonce-IsAccess id = record {
  consistent = reset_transfer_nonce-IsConsistent id;
  records = λ row. reset_transfer_nonce-HasRecord row id;
}

pub update_transfer_nonce-IsAccess :
    (id b latest : ℕ) → IsAccess (update_transfer_nonce id b latest)
update_transfer_nonce-IsAccess id b latest = record {
  consistent = update_transfer_nonce-IsConsistent id b latest;
  records = λ row. update_transfer_nonce-HasRecord row id b latest;
}

pub update_transfer_status-IsAccess :
    (id : ℕ) (status : TransferStatus) → IsAccess (update_transfer_status id status)
update_transfer_status-IsAccess id status = record {
  consistent = update_transfer_status-IsConsistent id status;
  records = λ row. update_transfer_status-HasRecord row id status;
}

pub update_transfer_submitted_destination_transaction-IsAccess :
    (engine : Engine) (id : ℕ) (h f : String)
    → IsAccess (update_transfer_submitted_destination_transaction engine id h f)
update_transfer_submitted_destination_transaction-IsAccess engine id h f = record {
  consistent = update_transfer_submitted_destination_transaction-IsConsistent id engine h f;
  records = λ row. update_transfer_submitted_destination_transaction-HasRecord row id engine h f;
}

pub create_transfer-IsAccess :
    (engine : Engine) (request : TransferCreationRequest)
    → IsAccess (create_transfer engine request)
create_transfer-IsAccess engine request = record {
  consistent = create_transfer-IsConsistent engine request;
  records = λ row. create_transfer-HasRecord row engine request;
}

pub update_blockchain_last_block_number-IsAccess :
    (b : ℕ) (n : ℤ) → IsAccess (update_blockchain_last_block_number b n)
update_blockchain_last_block_number-IsAccess b n = record {
  consistent = update_blockchain_last_block_number-IsConsistent b n;
  records = λ row. update_blockchain_last_block_number-HasRecord row b n;
}

pub create_validator_node_signature-IsAccess :
    (engine : Engine) (id b : ℕ) (f a x : String)
    → IsAccess (create_validator_node_signature engine id b f a x)
create_validator_node_signature-IsAccess engine id b f a x = record {
  consistent = create_validator_node_signature-IsConsistent engine id b f a x;
  records = λ row. create_validator_node_signature-HasRecord row engine id b f a x;
}

pub read_transfer_id-IsAccess : (b : ℕ) (x : String) → IsAccess (read_transfer_id b x)
unfolding read_transfer_id
read_transfer_id-IsAccess b x = record {
  consistent = read_transfer_id-IsConsistent b x;
  records = λ row. record { after = λ db h. h };
}

pub read_validator_nonce_by_source_transaction_id-IsAccess :
    (b : ℕ) (x : String) → IsAccess (read_validator_nonce_by_source_transaction_id b x)
unfolding read_validator_nonce_by_source_transaction_id
read_validator_nonce_by_source_transaction_id-IsAccess b x = record {
  consistent = read_source_nonce-IsConsistent b x;
  records = λ row. record { after = λ db h. h };
}

pub read_validator_nonce_by_internal_transfer_id-IsAccess :
    (id : ℕ) → IsAccess (read_validator_nonce_by_internal_transfer_id id)
unfolding read_validator_nonce_by_internal_transfer_id
read_validator_nonce_by_internal_transfer_id-IsAccess id = record {
  consistent = read_validator_nonce-IsConsistent id;
  records = λ row. record { after = λ db h. h };
}

pub read_blockchain_last_block_number-IsAccess :
    (b : ℕ) → IsAccess (read_blockchain_last_block_number b)
unfolding read_blockchain_last_block_number
read_blockchain_last_block_number-IsAccess b = record {
  consistent = read_blockchain_last_block_number-IsConsistent b;
  records = λ row. record { after = λ db h. ground arith };
}

pub read_transfer_to_data-IsAccess : (b : ℕ) (x : String) → IsAccess (read_transfer_to_data b x)
unfolding read_transfer_to_data
read_transfer_to_data-IsAccess b x = record {
  consistent = read_transfer_to_data-IsConsistent b x;
  records = λ row. record { after = λ db h. h };
}

pub read_validator_node_signature-IsAccess :
    (id b : ℕ) (f a : String) → IsAccess (read_validator_node_signature id b f a)
unfolding read_validator_node_signature
read_validator_node_signature-IsAccess id b f a = record {
  consistent = read_validator_node_signature-IsConsistent id b f a;
  records = λ row. record { after = λ db h. h };
}

pub read_validator_node_signatures-IsAccess :
    (id : ℕ) → IsAccess (read_validator_node_signatures id)
unfolding read_validator_node_signatures
read_validator_node_signatures-IsAccess id = record {
  consistent = read_validator_node_signatures-IsConsistent id;
  records = λ row. record { after = λ db h. h };
}

pub read_transfer_nonce-IsAccess : (id : ℕ) → IsAccess (read_transfer_nonce id)
unfolding read_transfer_nonce
read_transfer_nonce-IsAccess id = record {
  consistent = Keeps->>= _ _ (record { after = λ d h. h }) (λ found. Keeps-pure _);
  records = λ row. Keeps->>= _ _ (record { after = λ d h. h }) (λ found. Keeps-pure _);
}

pub ruleset access_rules = (
  update_transfer_task_id-IsAccess, update_transfer_validator_nonce-IsAccess,
  update_transfer_source_transaction-IsAccess,
  update_transfer_confirmed_destination_transaction-IsAccess, update_reversal_transfer-IsAccess,
  reset_transfer_nonce-IsAccess, update_transfer_nonce-IsAccess, update_transfer_status-IsAccess,
  update_transfer_submitted_destination_transaction-IsAccess, create_transfer-IsAccess,
  update_blockchain_last_block_number-IsAccess, create_validator_node_signature-IsAccess,
  read_transfer_id-IsAccess, read_validator_nonce_by_source_transaction_id-IsAccess,
  read_validator_nonce_by_internal_transfer_id-IsAccess, read_blockchain_last_block_number-IsAccess,
  read_transfer_to_data-IsAccess, read_validator_node_signature-IsAccess,
  read_validator_node_signatures-IsAccess, read_transfer_nonce-IsAccess,
)

-- A predicate of the database that these functions keep.
pub record IsPreserved (Q : Database → Type 0) : Type 1 where
  pub kept : {A : Type 0} (m : Exec Database A) → IsAccess m → Keeps Q m

pub IsConsistent-IsPreserved : IsPreserved IsConsistent
IsConsistent-IsPreserved = record { kept = λ m a. a.consistent }

pub HasRecord-IsPreserved : (row : Transfer) → IsPreserved (HasRecord row)
HasRecord-IsPreserved row = record { kept = λ m a. a.records row }

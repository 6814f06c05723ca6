-- ===== src/Database/Records.antt =====
-- The records of the table `transfers` under the functions of database/access.py: what the functions
-- that write to the table leave unchanged in each row.
use validatornode.Common.{
  ℕ, String, Bool, true, some, List, [], ◌∷◌, ◌&&◌, ◌==◌, str_eq, any, select, map, update_where,
  ◌≡◌, refl, arith, inl, inr, Option-cases,
}
use validatornode.Common.Int.{ℤ}
use validatornode.Exec.{Exec, modify, ◌>>=◌, lift, Exec-cases}
use validatornode.Exec.Keeps.{Keeps, keeps_rules}
use validatornode.Database.Models.{Database, Transfer, TransferStatus}
use validatornode.Database.Session.{Engine, scalar_one, transaction, check_constraints, violation}
use validatornode.Database.Transactions.{check_constraints-none, check_constraints-some}
use validatornode.Database.Access.Contracts.{ContractModel, hub, forwarder, read_or_create_contract}
use validatornode.Database.Access.Transfers.{has_id, TransferCreationRequest, create_transfer}
use validatornode.Database.Access.Updates.{
  update_transfer, assert_transfer, update_reversal_transfer,
  update_transfer_confirmed_destination_transaction,
  update_transfer_submitted_destination_transaction, reset_transfer_nonce,
  update_transfer_source_transaction, update_transfer_status, update_transfer_task_id,
  update_transfer_validator_nonce, update_blockchain_last_block_number,
}
use validatornode.Database.Access.Signatures.{create_validator_node_signature}
use validatornode.Database.Access.Nonce.{update_nonces, update_transfer_nonce}
use validatornode.Database.Creation.{create_transfer-Created}
use validatornode.Database.Consistency.Contracts.{
  read_or_create_contract-transfers, create_validator_node_signature-transfers,
}

-- The row `t` has the key of `row`, and the source blockchain, the source transaction, the sender,
-- the amount, the source token and the source Hub.
abbrev pub is_record_of : Transfer → Transfer → Bool
is_record_of row t =
    t.id == row.id
    && (t.source_blockchain_id == row.source_blockchain_id
        && (str_eq t.source_transaction_id row.source_transaction_id
            && (str_eq t.sender_address row.sender_address
                && (t.amount == row.amount
                    && (t.source_token_contract_id == row.source_token_contract_id
                        && t.source_hub_contract_id == row.source_hub_contract_id)))))

abbrev pub HasRecord : Transfer → Database → Type 0
HasRecord row db = any (is_record_of row) db.transfers ≡ true

module _ (row : Transfer) where
  any-update_where :
      (q : Transfer → Bool) (f : Transfer → Transfer)
      → ((t : Transfer) → is_record_of row (f t) ≡ is_record_of row t)
      → (ts : List Transfer)
      → any (is_record_of row) (update_where q f ts) ≡ any (is_record_of row) ts
  any-update_where q f same [] = refl
  any-update_where q f same (t ∷ ts) = ground (arith, same t, any-update_where q f same ts)

  Keeps-update :
      (id : ℕ) (f : Transfer → Transfer)
      → ((t : Transfer) → is_record_of row (f t) ≡ is_record_of row t)
      → Keeps (HasRecord row) (update_transfer id f)
  Keeps-update id f same = record {
    after = λ db h. rw (any-update_where (has_id id) f same db.transfers) h;
  }

  Keeps-transaction :
      {A : Type 0} (m : Exec Database A)
      → Keeps (HasRecord row) m
      → Keeps (HasRecord row) (transaction m)
  Keeps-transaction m k = record {
    after = λ db h. elim (Exec-cases (m db)) [
      | inl (x, d, p) ↦ ground arith
      | inr (a, d, p) ↦ ground (arith, k.after db h)
    ];
  }

  Keeps-check : Keeps (HasRecord row) check_constraints
  Keeps-check = record {
    after = λ db h. elim (Option-cases (violation db.transfers)) [
      | inl v ↦ ground (arith, check_constraints-none db v)
      | inr (c, v) ↦ ground (arith, check_constraints-some db v)
    ];
  }

  Keeps-assert : (id : ℕ) → Keeps (HasRecord row) (assert_transfer id)
  Keeps-assert id = record { after = λ db h. ground arith }

  Keeps-contract :
      (engine : Engine) (model : ContractModel) (b : ℕ) (a : String)
      → Keeps (HasRecord row) (read_or_create_contract engine model b a)
  Keeps-contract engine model b a = record {
    after = λ db h. rw (read_or_create_contract-transfers engine model b a db) h;
  }

  ruleset rules =
      (Keeps-update, Keeps-transaction, Keeps-check, Keeps-assert, Keeps-contract, keeps_rules)

  module _ (id : ℕ) where
    pub update_transfer_task_id-HasRecord :
        (x : String) → Keeps (HasRecord row) (update_transfer_task_id id x)
    unfolding update_transfer_task_id
    update_transfer_task_id-HasRecord x = search rules

    pub update_transfer_validator_nonce-HasRecord :
        (n : ℕ) → Keeps (HasRecord row) (update_transfer_validator_nonce id n)
    unfolding update_transfer_validator_nonce
    update_transfer_validator_nonce-HasRecord n = search rules

    pub update_transfer_source_transaction-HasRecord :
        (x n : ℕ) → Keeps (HasRecord row) (update_transfer_source_transaction id x n)
    unfolding update_transfer_source_transaction
    update_transfer_source_transaction-HasRecord x n = search rules

    pub update_transfer_confirmed_destination_transaction-HasRecord :
        (d : ℕ) (x : String) (n : ℕ)
        → Keeps (HasRecord row) (update_transfer_confirmed_destination_transaction id d x n)
    unfolding update_transfer_confirmed_destination_transaction
    update_transfer_confirmed_destination_transaction-HasRecord d x n = search rules

    pub update_reversal_transfer-HasRecord :
        (engine : Engine) (b : ℕ) (r a : String)
        → Keeps (HasRecord row) (update_reversal_transfer engine id b r a)
    unfolding update_reversal_transfer
    update_reversal_transfer-HasRecord engine b r a = search rules

    pub reset_transfer_nonce-HasRecord : Keeps (HasRecord row) (reset_transfer_nonce id)
    unfolding reset_transfer_nonce
    reset_transfer_nonce-HasRecord = search rules

    pub update_transfer_status-HasRecord :
        (status : TransferStatus) → Keeps (HasRecord row) (update_transfer_status id status)
    unfolding update_transfer_status
    update_transfer_status-HasRecord status = search rules

    pub update_transfer_submitted_destination_transaction-HasRecord :
        (engine : Engine) (h f : String)
        → Keeps (HasRecord row) (update_transfer_submitted_destination_transaction engine id h f)
    unfolding update_transfer_submitted_destination_transaction
    update_transfer_submitted_destination_transaction-HasRecord engine h f = record {
      after = λ db u.
          (Keeps-transaction
              (lift (
                  scalar_one
                    (map (λ t. t.destination_blockchain_id) (select (has_id id) db.transfers)))
                >>= λ b. read_or_create_contract engine hub b h >>= λ hub_id.
                    read_or_create_contract engine forwarder b f >>= λ forwarder_id.
                    update_transfer id (λ t. record t {
                      destination_hub_contract_id = some hub_id;
                      destination_forwarder_contract_id = some forwarder_id;
                    })
                    >>= λ _. check_constraints)
              (search rules depth 9)).after
            db u;
    }

    Keeps-nonces :
        (b latest : ℕ)
        → Keeps
            (HasRecord row)
            (modify (λ db. record db { transfers = update_nonces id b latest db.transfers }))
    unfolding update_nonces
    Keeps-nonces b latest = record {
      after = λ db h.
          let same : any (is_record_of row) (update_nonces id b latest db.transfers)
              ≡ any (is_record_of row) db.transfers =
            any-update_where _ _ (λ t. refl) db.transfers in
          rw same h;
    }

    pub update_transfer_nonce-HasRecord :
        (b latest : ℕ) → Keeps (HasRecord row) (update_transfer_nonce id b latest)
    unfolding update_transfer_nonce
    update_transfer_nonce-HasRecord b latest = search (Keeps-nonces, rules)

  pub create_transfer-HasRecord :
      (engine : Engine) (request : TransferCreationRequest)
      → Keeps (HasRecord row) (create_transfer engine request)
  create_transfer-HasRecord engine request = record {
    after = λ db h. elim (create_transfer-Created engine request db) [
      | inl (e, p, _) ↦ ground arith
      | inr (s, d, u, db', p, added, v) ↦ ground arith
    ];
  }

  pub update_blockchain_last_block_number-HasRecord :
      (b : ℕ) (n : ℤ) → Keeps (HasRecord row) (update_blockchain_last_block_number b n)
  unfolding update_blockchain_last_block_number
  update_blockchain_last_block_number-HasRecord b n = record { after = λ db h. ground arith }

  pub create_validator_node_signature-HasRecord :
      (engine : Engine) (id b : ℕ) (f a x : String)
      → Keeps (HasRecord row) (create_validator_node_signature engine id b f a x)
  create_validator_node_signature-HasRecord engine id b f a x = record {
    after = λ db h. rw (create_validator_node_signature-transfers engine id b f a x db) h;
  }

-- ===== src/Database/Interleaving/Rows.antt =====
-- The row of a transfer under the functions of database/access.py for other transfers.
use validatornode.Common.{
  ℕ, String, some, List, [], ◌∷◌, any, map, select, ◌==◌, ◌≡◌, ◌≢◌, ◌∙◌, ◌&&◌, false, refl, arith,
  inl, inr, Bool-cases,
}
use validatornode.Exec.{lift, Exec, Exec-cases, ◌>>=◌}
use validatornode.Exec.Keeps.{Keeps, keeps_rules}
use validatornode.Database.Models.{Database, Transfer, TransferStatus}
use validatornode.Database.Session.{scalar_one, Engine, transaction, check_constraints}
use validatornode.Database.Access.Contracts.{hub, forwarder, ContractModel, read_or_create_contract}
use validatornode.Database.Access.Transfers.{
  has_id, transfer_id, TransferCreationRequest, new_transfer, insert_transfer, create_transfer,
}
use validatornode.Database.Access.Updates.{
  assert_transfer, update_transfer, update_reversal_transfer,
  update_transfer_confirmed_destination_transaction,
  update_transfer_submitted_destination_transaction, reset_transfer_nonce,
  update_transfer_source_transaction, update_transfer_status, update_transfer_task_id,
  update_transfer_validator_nonce,
}
use validatornode.Database.Consistency.Contracts.{read_or_create_contract-transfers}
use validatornode.Database.Rows.{HasRow}
use validatornode.Database.Nonce.Held.{select-not_updated}

module _ (engine : Engine) (id : ℕ) (row : Transfer) where
  Row-rollback :
      {A : Type 0} (m : Exec Database A)
      → Keeps (HasRow id row) m
      → Keeps (HasRow id row) (transaction m)
  Row-rollback m k = record {
    after = λ db h. elim (Exec-cases (m db)) [
      | inl (x, d, p) ↦ ground (arith, h, p)
      | inr (a, d, p) ↦ ground (arith, k.after db h, p)
    ];
  }

  Row-check : Keeps (HasRow id row) check_constraints
  unfolding check_constraints
  Row-check = record { after = λ db h. ground (arith, h) }

  Row-assert : (i : ℕ) → Keeps (HasRow id row) (assert_transfer i)
  Row-assert i = record { after = λ db h. ground (arith, h) }

  Row-contract :
      (model : ContractModel) (b : ℕ) (a : String)
      → Keeps (HasRow id row) (read_or_create_contract engine model b a)
  Row-contract model b a = record {
    after = λ db h. rw (read_or_create_contract-transfers engine model b a db) h;
  }

  no_other :
      (i : ℕ) → i ≢ id → (ts : List Transfer) → any (λ t. has_id id t && has_id i t) ts ≡ false
  no_other i o [] = refl
  no_other i o (t ∷ ts) = ground (arith, o, no_other i o ts)

  Row-update :
      (i : ℕ) (f : Transfer → Transfer)
      → i ≢ id
      → ((t : Transfer) → (f t).id ≡ t.id)
      → Keeps (HasRow id row) (update_transfer i f)
  Row-update i f o same = record {
    after = λ db h.
        select-not_updated id (has_id i) f same db.transfers (no_other i o db.transfers) ∙ h;
  }

  fresh :
      (n : ℕ) (ts : List Transfer)
      → any (λ j. j == n) (map transfer_id ts) ≡ false
      → select (has_id id) ts ≡ row ∷ []
      → n ≢ id
  fresh n [] e h = cc
  fresh n (t ∷ ts) e h = elim (Bool-cases (has_id id t)) [
    | inl own ↦ λ same. ground (arith, e, own, same)
    | inr other ↦ fresh n ts (ground (arith, e)) (ground (arith, h, other))
  ]

  Row-insert :
      (r : TransferCreationRequest) (s d h : ℕ)
      → Keeps (HasRow id row) (insert_transfer engine r s d h)
  unfolding insert_transfer new_transfer check_constraints
  Row-insert r s d h = record {
    after = λ db k. ground (
      arith,
      k,
      fresh (engine.next_id (map transfer_id db.transfers)) db.transfers
          (engine.next_id-fresh (map transfer_id db.transfers)) k,
    );
  }

  ruleset row_rules =
      (Row-rollback, Row-check, Row-assert, Row-contract, Row-update, Row-insert, keeps_rules)

  pub Row-create : (r : TransferCreationRequest) → Keeps (HasRow id row) (create_transfer engine r)
  unfolding create_transfer
  Row-create r = search row_rules depth 10

  pub Row-reversal :
      (i b : ℕ) (r a : String)
      → i ≢ id
      → Keeps (HasRow id row) (update_reversal_transfer engine i b r a)
  unfolding update_reversal_transfer
  Row-reversal i b r a o = search row_rules depth 10

  pub Row-confirmed :
      (i j : ℕ) (x : String) (n : ℕ)
      → i ≢ id
      → Keeps (HasRow id row) (update_transfer_confirmed_destination_transaction i j x n)
  unfolding update_transfer_confirmed_destination_transaction
  Row-confirmed i j x n o = search row_rules depth 10

  pub Row-submitted :
      (i : ℕ) (h f : String)
      → i ≢ id
      → Keeps (HasRow id row) (update_transfer_submitted_destination_transaction engine i h f)
  unfolding update_transfer_submitted_destination_transaction
  Row-submitted i h f o = record {
    after = λ db k.
        (Row-rollback
            (lift (
                scalar_one (
                  map (λ (t : Transfer). t.destination_blockchain_id)
                    (select (has_id i) db.transfers)))
              >>= λ b. read_or_create_contract engine hub b h >>= λ hub_id.
                  read_or_create_contract engine forwarder b f >>= λ forwarder_id.
                  update_transfer i (λ t. record t {
                    destination_hub_contract_id = some hub_id;
                    destination_forwarder_contract_id = some forwarder_id;
                  })
                  >>= λ _. check_constraints)
            (search row_rules depth 9)).after
          db k;
  }

  pub Row-reset : (i : ℕ) → i ≢ id → Keeps (HasRow id row) (reset_transfer_nonce i)
  unfolding reset_transfer_nonce
  Row-reset i o = search row_rules depth 10

  pub Row-source :
      (i j n : ℕ) → i ≢ id → Keeps (HasRow id row) (update_transfer_source_transaction i j n)
  unfolding update_transfer_source_transaction
  Row-source i j n o = search row_rules depth 10

  pub Row-status :
      (i : ℕ) (s : TransferStatus) → i ≢ id → Keeps (HasRow id row) (update_transfer_status i s)
  unfolding update_transfer_status
  Row-status i s o = search row_rules depth 10

  pub Row-task_id :
      (i : ℕ) (x : String) → i ≢ id → Keeps (HasRow id row) (update_transfer_task_id i x)
  unfolding update_transfer_task_id
  Row-task_id i x o = search row_rules depth 10

  pub Row-validator_nonce :
      (i n : ℕ) → i ≢ id → Keeps (HasRow id row) (update_transfer_validator_nonce i n)
  unfolding update_transfer_validator_nonce
  Row-validator_nonce i n o = search row_rules depth 10

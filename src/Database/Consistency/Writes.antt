-- ===== src/Database/Consistency/Writes.antt =====
-- The functions of database/access.py that write.
use validatornode.Common.{
  ℕ, String, false, none, some, List, [], ◌∷◌, All, any, select, map, ◌==◌, if◌then◌else◌, ◌≡◌, ◌≢◌,
  refl, arith, find, inl, inr,
}
use validatornode.Common.Int.{ℤ}
use validatornode.Exec.{Exec, modify, ◌>>=◌, ◌>>◌, lift, Exec-cases}
use validatornode.Exec.Keeps.{Keeps, Keeps->>=, Keeps-or_raise, keeps_rules}
use validatornode.Database.Models.{Database, Transfer, TransferStatus, value}
use validatornode.Database.Session.{Engine, scalar_one, transaction, check_constraints, clash}
use validatornode.Exec.{assertion_error}
use validatornode.Database.Access.Updates.{assert_transfer}
use validatornode.Database.Access.Contracts.{ContractModel, hub, forwarder, read_or_create_contract}
use validatornode.Database.Access.Transfers.{
  has_id, transfer_id, new_transfer, insert_transfer, create_transfer, TransferCreationRequest,
}
use validatornode.Database.Access.Updates.{
  update_transfer, update_reversal_transfer, update_transfer_confirmed_destination_transaction,
  update_transfer_submitted_destination_transaction, reset_transfer_nonce,
  update_transfer_source_transaction, update_transfer_status, update_transfer_task_id,
  update_transfer_validator_nonce, update_blockchain_last_block_number,
}
use validatornode.Database.Access.Signatures.{create_validator_node_signature}
use validatornode.Database.Access.Nonce.{
  is_updated, minimum_failed_nonce, update_nonces, update_transfer_nonce,
}
use validatornode.Database.Nonce.Clash.{violation-map, update_where-all}
use validatornode.Database.Consistency.{
  HasUniqueKeys, IsConsistent, IsChecked, IsChecked->>=, IsChecked-check, IsChecked-pure,
  Keeps-transaction, update_where-HasUniqueIds,
}
use validatornode.Database.Consistency.Contracts.{
  read_or_create_contract-transfers, create_validator_node_signature-transfers,
}

Keeps-update :
    (id : ℕ) (f : Transfer → Transfer)
    → ((t : Transfer) → (f t).id ≡ t.id)
    → Keeps HasUniqueKeys (update_transfer id f)
Keeps-update id f same = record {
  after = λ db h. update_where-HasUniqueIds (has_id id) f same db.transfers h;
}

Keeps-assert_transfer : (id : ℕ) → Keeps HasUniqueKeys (assert_transfer id)
Keeps-assert_transfer id = record {
  after = λ db h. ground (
    arith,
    (Keeps-or_raise {P = HasUniqueKeys} (find (has_id id) db.transfers) assertion_error).after db h,
  );
}

Keeps-contract :
    (engine : Engine) (model : ContractModel) (b : ℕ) (a : String)
    → Keeps HasUniqueKeys (read_or_create_contract engine model b a)
Keeps-contract engine model b a = record {
  after = λ db h. rw (read_or_create_contract-transfers engine model b a db) h;
}

fresh-ids :
    (i : ℕ) (ts : List Transfer)
    → any (λ j. j == i) (map transfer_id ts) ≡ false
    → All (λ u. u.id ≢ i) ts
fresh-ids i [] h = tt
fresh-ids i (t ∷ ts) h = (ground arith, fresh-ids i ts (ground arith))

IsChecked-insert :
    (engine : Engine) (request : TransferCreationRequest) (s d h : ℕ)
    → IsChecked (insert_transfer engine request s d h)
unfolding insert_transfer new_transfer check_constraints
IsChecked-insert engine request s d h = record {
  keys = λ db u. ground (
    arith,
    fresh-ids (engine.next_id (map transfer_id db.transfers)) db.transfers,
    engine.next_id-fresh (map transfer_id db.transfers),
  );
  checked = λ db a e. ground arith;
}

ruleset rules = (
  Keeps-update, Keeps-assert_transfer, Keeps-contract, IsChecked->>=, IsChecked-check,
  IsChecked-pure, IsChecked-insert, Keeps-transaction,
)

All-trivial : (ts : List Transfer) → All (λ _. Unit {0}) ts
All-trivial [] = tt
All-trivial (t ∷ ts) = (tt, All-trivial ts)

-- An update without a check, of columns without a constraint or to NULL.
Keeps-unchecked :
    (id : ℕ) (f : Transfer → Transfer)
    → ((t : Transfer) → (f t).id ≡ t.id)
    → ((t u : Transfer)
        → clash t u ≡ none
        → clash (if has_id id t then f t else t) (if has_id id u then f u else u) ≡ none)
    → Keeps IsConsistent (update_transfer id f)
Keeps-unchecked id f same keep = record {
  after = λ db h. (
    update_where-HasUniqueIds (has_id id) f same db.transfers h.0,
    rw (update_where-all (has_id id) f db.transfers) (
        violation-map (λ t. if has_id id t then f t else t) (λ _. Unit {0})
          (λ t u _ _ _ c. keep t u c) db.transfers (All-trivial db.transfers) h.0 h.1),
  );
}

-- A transaction rolls back to a database that was consistent.
Keeps-rollback :
    {A : Type 0} (m : Exec Database A) → Keeps IsConsistent m → Keeps IsConsistent (transaction m)
Keeps-rollback m k = record {
  after = λ db h. elim (Exec-cases (m db)) [
    | inl (x, d, p) ↦ (ground arith, ground arith)
    | inr (a, d, p) ↦ (ground (arith, k.after db h), ground (arith, k.after db h))
  ];
}

module _ (id : ℕ) where
  pub update_transfer_task_id-IsConsistent :
      (task_id : String) → Keeps IsConsistent (update_transfer_task_id id task_id)
  unfolding update_transfer_task_id
  update_transfer_task_id-IsConsistent task_id = search (rules, keeps_rules)

  pub update_transfer_validator_nonce-IsConsistent :
      (n : ℕ) → Keeps IsConsistent (update_transfer_validator_nonce id n)
  unfolding update_transfer_validator_nonce
  update_transfer_validator_nonce-IsConsistent n = search (rules, keeps_rules)

  pub update_transfer_source_transaction-IsConsistent :
      (x n : ℕ) → Keeps IsConsistent (update_transfer_source_transaction id x n)
  unfolding update_transfer_source_transaction
  update_transfer_source_transaction-IsConsistent x n = search (rules, keeps_rules)

  pub update_transfer_confirmed_destination_transaction-IsConsistent :
      (d : ℕ) (x : String) (n : ℕ)
      → Keeps IsConsistent (update_transfer_confirmed_destination_transaction id d x n)
  unfolding update_transfer_confirmed_destination_transaction
  update_transfer_confirmed_destination_transaction-IsConsistent d x n = search (rules, keeps_rules)

  pub update_reversal_transfer-IsConsistent :
      (engine : Engine) (b : ℕ) (r a : String)
      → Keeps IsConsistent (update_reversal_transfer engine id b r a)
  unfolding update_reversal_transfer
  update_reversal_transfer-IsConsistent engine b r a = search (rules, keeps_rules)

  pub reset_transfer_nonce-IsConsistent : Keeps IsConsistent (reset_transfer_nonce id)
  unfolding reset_transfer_nonce clash
  reset_transfer_nonce-IsConsistent =
      Keeps-rollback (update_transfer id (λ t. record t { nonce = none }))
        (Keeps-unchecked id (λ t. record t { nonce = none }) (λ t. refl) (λ t u c. ground arith))

  Keeps-read_transfer : Keeps IsConsistent (assert_transfer id)
  Keeps-read_transfer = record { after = λ db h. (ground (arith, h.0), ground (arith, h.1)) }

  pub update_transfer_status-IsConsistent :
      (status : TransferStatus) → Keeps IsConsistent (update_transfer_status id status)
  unfolding update_transfer_status clash
  update_transfer_status-IsConsistent status =
      Keeps-rollback
        (assert_transfer id >> update_transfer id (λ t. record t { status_id = value status }))
        (Keeps->>= _ _ Keeps-read_transfer (λ _.
          Keeps-unchecked id (λ t. record t { status_id = value status }) (λ t. refl)
            (λ t u c. ground arith)))

  pub update_transfer_submitted_destination_transaction-IsConsistent :
      (engine : Engine) (h f : String)
      → Keeps IsConsistent (update_transfer_submitted_destination_transaction engine id h f)
  unfolding update_transfer_submitted_destination_transaction
  update_transfer_submitted_destination_transaction-IsConsistent engine h f = record {
    after = λ db u.
        (Keeps-transaction
            (lift (
                scalar_one
                  (map (λ t. t.destination_blockchain_id) (select (has_id id) db.transfers)))
              >>= λ b. read_or_create_contract engine hub b h >>= λ hub_id.
                  read_or_create_contract engine forwarder b f >>= λ forwarder_id.
                  update_transfer id (λ t. record t {
                    destination_hub_contract_id = some hub_id;
                    destination_forwarder_contract_id = some forwarder_id;
                  })
                  >>= λ _. check_constraints)
            (search (rules, keeps_rules) depth 9)).after
          db u;
  }

  pub update_transfer_nonce-IsConsistent :
      (b latest : ℕ) → Keeps IsConsistent (update_transfer_nonce id b latest)
  unfolding update_transfer_nonce update_nonces
  update_transfer_nonce-IsConsistent b latest = Keeps-transaction _ (
      IsChecked->>=
        (modify (λ db. record db { transfers = update_nonces id b latest db.transfers }))
        (λ _. check_constraints)
        (record {
          after = λ db h.
              update_where-HasUniqueIds (is_updated id b (minimum_failed_nonce b db.transfers)) _
                (λ t. refl) db.transfers h;
        })
        (λ _. IsChecked-check))

pub create_transfer-IsConsistent :
    (engine : Engine) (request : TransferCreationRequest)
    → Keeps IsConsistent (create_transfer engine request)
unfolding create_transfer
create_transfer-IsConsistent engine request = search (rules, keeps_rules) depth 8

pub update_blockchain_last_block_number-IsConsistent :
    (b : ℕ) (n : ℤ) → Keeps IsConsistent (update_blockchain_last_block_number b n)
unfolding update_blockchain_last_block_number
update_blockchain_last_block_number-IsConsistent b n = record {
  after = λ db h. (ground arith, ground arith);
}

pub create_validator_node_signature-IsConsistent :
    (engine : Engine) (id b : ℕ) (f a x : String)
    → Keeps IsConsistent (create_validator_node_signature engine id b f a x)
create_validator_node_signature-IsConsistent engine id b f a x = record {
  after = λ db h. rw (create_validator_node_signature-transfers engine id b f a x db) h;
}

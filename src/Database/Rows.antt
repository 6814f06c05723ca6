-- ===== src/Database/Rows.antt =====
-- One row of the table `transfers`, found by its ID, through the updates of database/access.py.
use validatornode.Common.{
  ℕ, String, Bool, none, some, List, [], ◌∷◌, map, select, update_where, find, ◌≡◌, refl, arith,
}
use validatornode.Exec.{ok}
use validatornode.Database.Models.{Database, Transfer, TransferStatus, value}
use validatornode.Database.Session.{check_constraints}
use validatornode.Database.Access.Transfers.{has_id}
use validatornode.Database.Access.Updates.{
  reset_transfer_nonce, update_transfer_status, update_transfer_task_id,
  update_transfer_confirmed_destination_transaction,
}

-- The transfer with the ID is `row`, and there is one only.
abbrev pub HasRow : ℕ → Transfer → Database → Type 0
HasRow id row db = select (has_id id) db.transfers ≡ row ∷ []

select-update :
    (id : ℕ) (f : Transfer → Transfer)
    → ((t : Transfer) → (f t).id ≡ t.id)
    → (ts : List Transfer)
    → select (has_id id) (update_where (has_id id) f ts) ≡ map f (select (has_id id) ts)
select-update id f same [] = refl
select-update id f same (t ∷ ts) = ground (arith, same t, select-update id f same ts)

find-select :
    (p : Transfer → Bool) (ts : List Transfer) (t : Transfer) (rest : List Transfer)
    → select p ts ≡ t ∷ rest
    → find p ts ≡ some t
find-select p [] t rest h = cc
find-select p (x ∷ ts) t rest h = ground (arith, find-select p ts t rest)

module _ (id : ℕ) (row : Transfer) (db : Database) (h : HasRow id row db) where
  found : find (has_id id) db.transfers ≡ some row
  found = find-select (has_id id) db.transfers row [] h

  pub reset_transfer_nonce-HasRow :
      ((reset_transfer_nonce id db).0 ≡ ok tt)
      × HasRow id (record row { nonce = none }) (reset_transfer_nonce id db).1
  unfolding reset_transfer_nonce
  reset_transfer_nonce-HasRow =
      ground (arith, select-update id (λ t. record t { nonce = none }) (λ t. refl) db.transfers)

  pub update_transfer_status-HasRow :
      (status : TransferStatus)
      → ((update_transfer_status id status db).0 ≡ ok tt)
        × HasRow id
            (record row { status_id = value status })
            (update_transfer_status id status db).1
  unfolding update_transfer_status
  update_transfer_status-HasRow status = ground (
    arith,
    found,
    select-update id (λ t. record t { status_id = value status }) (λ t. refl) db.transfers,
  )

  pub update_transfer_task_id-HasRow :
      (task_id : String)
      → (update_transfer_task_id id task_id db).0 ≡ ok tt
      → HasRow id (record row { task_id = some task_id }) (update_transfer_task_id id task_id db).1
  unfolding update_transfer_task_id check_constraints
  update_transfer_task_id-HasRow task_id done = ground (
    arith,
    found,
    select-update id (λ t. record t { task_id = some task_id }) (λ t. refl) db.transfers,
  )

  pub confirmed-HasRow :
      (destination_transfer_id : ℕ) (transaction_id : String) (block_number : ℕ)
      → let db' =
          update_transfer_confirmed_destination_transaction id destination_transfer_id
            transaction_id block_number db in
        db'.0 ≡ ok tt
        → HasRow id
            (record row {
              destination_transfer_id = some destination_transfer_id;
              destination_transaction_id = some transaction_id;
              destination_block_number = some block_number;
            })
            (update_transfer_confirmed_destination_transaction id destination_transfer_id
              transaction_id block_number db).1
  unfolding update_transfer_confirmed_destination_transaction check_constraints
  confirmed-HasRow d x n done = ground (
    arith,
    select-update id
        (λ t. record t {
          destination_transfer_id = some d;
          destination_transaction_id = some x;
          destination_block_number = some n;
        })
        (λ t. refl) db.transfers,
  )

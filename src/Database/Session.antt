-- ===== src/Database/Session.antt =====
-- What `database/access.py` uses of an SQLAlchemy session: the results of a select, transactions,
-- generated keys, and the unique constraints of the table `transfers`.
use validatornode.Common.{
  ℕ, false, ◌&&◌, Option, none, some, List, [], ◌∷◌, if◌then◌else◌, ◌==◌, str_eq, null_eq,
  null_str_eq, any, ◌≡◌,
}
use validatornode.Exec.{
  Exec, Result, ok, err, no_result_found, multiple_results_found, integrity_error, Constraint,
  unique_validator_nonce, unique_blockchain_nonce, unique_source_transfer_id,
  unique_destination_transfer_id, unique_source_transaction_id, unique_destination_transaction_id,
  unique_task_id,
}
use validatornode.Database.Models.{Database, Transfer}

module _ {A : Type 0} where
  -- `.scalar_one_or_none()` and `.one_or_none()`
  abbrev pub one_or_none : List A → Result (Option A)
  one_or_none [] = ok none
  one_or_none (x ∷ []) = ok (some x)
  one_or_none (x ∷ y ∷ rest) = err multiple_results_found

  -- `.scalar_one()`
  abbrev pub scalar_one : List A → Result A
  scalar_one [] = err no_result_found
  scalar_one (x ∷ []) = ok x
  scalar_one (x ∷ y ∷ rest) = err multiple_results_found

-- The database system's choice of a primary key for a new row, from the keys in the table.
pub record Engine : Type 0 where
  pub next_id : List ℕ → ℕ
  pub next_id-fresh : (ids : List ℕ) → any (λ i. i == next_id ids) ids ≡ false

-- `with get_session_maker().begin() as session`: an exception rolls back what was written.
abbrev pub transaction : {A : Type 0} → Exec Database A → Exec Database A
transaction m db = let (r, db') = m db in elim r [ ok a ↦ (ok a, db') | err e ↦ (err e, db) ]

-- The constraint that two rows of `transfers` violate together. NULL is equal to nothing.
unfoldable pub clash : Transfer → Transfer → Option Constraint
clash t u =
    if null_eq t.destination_forwarder_contract_id u.destination_forwarder_contract_id
      && t.validator_nonce == u.validator_nonce
    then some unique_validator_nonce
    else if t.destination_blockchain_id == u.destination_blockchain_id && null_eq t.nonce u.nonce
    then some unique_blockchain_nonce
    else if t.source_blockchain_id == u.source_blockchain_id
        && t.source_transfer_id == u.source_transfer_id
    then some unique_source_transfer_id
    else if t.destination_blockchain_id == u.destination_blockchain_id
        && null_eq t.destination_transfer_id u.destination_transfer_id
    then some unique_destination_transfer_id
    else if t.source_blockchain_id == u.source_blockchain_id
        && str_eq t.source_transaction_id u.source_transaction_id
    then some unique_source_transaction_id
    else if t.destination_blockchain_id == u.destination_blockchain_id
        && null_str_eq t.destination_transaction_id u.destination_transaction_id
    then some unique_destination_transaction_id
    else if null_str_eq t.task_id u.task_id
    then some unique_task_id
    else none

abbrev first_some : Option Constraint → Option Constraint → Option Constraint
first_some none o = o
first_some (some c) _ = some c

-- The first violation of a row with a row of the list.
unfoldable pub clash_with : Transfer → List Transfer → Option Constraint
clash_with t [] = none
clash_with t (u ∷ us) = first_some (clash t u) (clash_with t us)

-- The first violation within the table.
unfoldable pub violation : List Transfer → Option Constraint
violation [] = none
violation (t ∷ ts) = first_some (clash_with t ts) (violation ts)

-- A statement that writes a constrained column is refused where the table would violate one.
unfoldable pub check_constraints : Exec Database (Unit {0})
check_constraints db = elim (violation db.transfers) [
  | none ↦ (ok tt, db)
  | some c ↦ (err (integrity_error c), db)
]

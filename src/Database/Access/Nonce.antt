-- ===== src/Database/Access/Nonce.antt =====
-- database/access.py: `update_transfer_nonce`, one UPDATE statement whose subqueries read the table
-- as it was before the statement.
use validatornode.Common.{
  ℕ, ◌+◌, Bool, true, false, ◌&&◌, ◌||◌, Option, none, some, List, [], ◌∷◌, if◌then◌else◌, ◌==◌,
  ltb, leb, null_eq, select, update_where, length,
}
use validatornode.Exec.{Exec, ◌>>◌, modify}
use validatornode.Entities.{Blockchain}
use validatornode.Database.Models.{
  Database, Transfer, value, source_transaction_detected, destination_transaction_failed,
  source_reversal_transaction_failed, source_transaction_detected_new_nonce_assigned,
  destination_transaction_failed_new_nonce_assigned,
  source_reversal_transaction_failed_new_nonce_assigned,
}
use validatornode.Database.Session.{transaction, check_constraints}
use validatornode.Database.Access.Transfers.{has_id}

abbrev pub is_some : Option ℕ → Bool
is_some none = false
is_some (some _) = true

-- `failed_transactions_expression`
unfoldable pub is_failed : Blockchain → Transfer → Bool
is_failed destination_blockchain t =
    t.destination_blockchain_id == destination_blockchain
    && (is_some t.nonce
        && (t.status_id == value destination_transaction_failed
            || t.status_id == value source_reversal_transaction_failed))

-- `min` and `max` of SQL leave out NULL, and are NULL where nothing is left.
abbrev pub min_null : Option ℕ → Option ℕ → Option ℕ
min_null none o = o
min_null (some a) none = some a
min_null (some a) (some b) = some (if ltb b a then b else a)

abbrev pub max_null : Option ℕ → Option ℕ → Option ℕ
max_null none o = o
max_null (some a) none = some a
max_null (some a) (some b) = some (if ltb a b then b else a)

unfoldable pub minimum_nonce : List Transfer → Option ℕ
minimum_nonce [] = none
minimum_nonce (t ∷ ts) = min_null t.nonce (minimum_nonce ts)

unfoldable pub maximum_nonce : List Transfer → Option ℕ
maximum_nonce [] = none
maximum_nonce (t ∷ ts) = max_null t.nonce (maximum_nonce ts)

abbrev pub on_blockchain : Blockchain → Transfer → Bool
on_blockchain destination_blockchain t = t.destination_blockchain_id == destination_blockchain

unfoldable pub minimum_failed_nonce : Blockchain → List Transfer → Option ℕ
unfolding is_failed minimum_nonce
minimum_failed_nonce b ts = minimum_nonce (select (is_failed b) ts)

unfoldable pub maximum_transfer_nonce : Blockchain → List Transfer → Option ℕ
unfolding maximum_nonce
maximum_transfer_nonce b ts = maximum_nonce (select (on_blockchain b) ts)

unfoldable pub count_failed_nonces : Blockchain → List Transfer → ℕ
unfolding is_failed
count_failed_nonces b ts = length (select (is_failed b) ts)

-- A nonce that no transfer to the blockchain has had: `maximum >= latest` is unknown for NULL.
unfoldable pub next_nonce : Option ℕ → ℕ → ℕ
next_nonce none latest = latest
next_nonce (some maximum) latest = if leb latest maximum then maximum + 1 else latest

-- The CASE for the column `status_id`.
unfoldable pub status_after : Bool → ℕ → ℕ
status_after own status =
    if own
    then (if status == value source_transaction_detected
        then value source_transaction_detected_new_nonce_assigned
        else if status == value destination_transaction_failed
        then value destination_transaction_failed_new_nonce_assigned
        else value source_reversal_transaction_failed_new_nonce_assigned)
    else if status == value destination_transaction_failed
    then value destination_transaction_failed
    else value source_reversal_transaction_failed

-- The CASE for the column `nonce`, from the three subqueries.
unfoldable pub nonce_after : ℕ → Option ℕ → Option ℕ → ℕ → Bool → Option ℕ
unfolding next_nonce
nonce_after count minimum maximum latest own =
    if count == 0 then some (next_nonce maximum latest) else if own then minimum else none

-- The rows that the statement updates.
unfoldable pub is_updated : ℕ → Blockchain → Option ℕ → Transfer → Bool
is_updated internal_transfer_id b minimum t =
    has_id internal_transfer_id t || on_blockchain b t && null_eq t.nonce minimum

unfoldable pub update_nonces : ℕ → Blockchain → ℕ → List Transfer → List Transfer
unfolding minimum_failed_nonce maximum_transfer_nonce count_failed_nonces nonce_after status_after
    is_updated
update_nonces internal_transfer_id b latest ts =
    let minimum = minimum_failed_nonce b ts in
    let maximum = maximum_transfer_nonce b ts in
    let count = count_failed_nonces b ts in
    update_where (is_updated internal_transfer_id b minimum)
      (λ t. record t {
        nonce = nonce_after count minimum maximum latest (has_id internal_transfer_id t);
        status_id = status_after (has_id internal_transfer_id t) t.status_id;
      })
      ts

unfoldable pub update_transfer_nonce : ℕ → Blockchain → ℕ → Exec Database (Unit {0})
unfolding update_nonces
update_transfer_nonce internal_transfer_id destination_blockchain latest_blockchain_nonce =
    transaction (do
      modify (λ db. record db {
        transfers =
            update_nonces internal_transfer_id destination_blockchain latest_blockchain_nonce
              db.transfers;
      })
      check_constraints)

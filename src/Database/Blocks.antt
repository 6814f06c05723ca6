-- ===== src/Database/Blocks.antt =====
-- Proofs on the last monitored block numbers of database/access.py.
use validatornode.Common.{
  ℕ, Bool, some, List, [], ◌∷◌, ◌==◌, find, update_where, if◌then◌else◌, ◌≡◌, ◌≢◌, refl, arith,
  false, inl, inr, Option-cases,
}
use validatornode.Common.Int.{ℤ, ltb_ℤ, max_ℤ, eq_of_parts}
use validatornode.Exec.{ok, err, database_error}
use validatornode.Database.Models.{Database, BlockchainRow}
use validatornode.Database.Access.Transfers.{read_blockchain_last_block_number}
use validatornode.Database.Access.Updates.{update_blockchain_last_block_number}

abbrev is_row : ℕ → BlockchainRow → Bool
is_row b r = r.id == b

abbrev with_number : ℤ → BlockchainRow → BlockchainRow
with_number n r = record r { last_block_number = n }

find-update_self :
    (b : ℕ) (n : ℤ) (rows : List BlockchainRow) (r : BlockchainRow)
    → find (is_row b) rows ≡ some r
    → find (is_row b) (update_where (is_row b) (with_number n) rows) ≡ some (with_number n r)
find-update_self b n [] r h = cc
find-update_self b n (x ∷ rows) r h = ground (arith, find-update_self b n rows r)

find-update_ne :
    (b c : ℕ) (n : ℤ) (rows : List BlockchainRow)
    → c ≢ b
    → find (is_row c) (update_where (is_row b) (with_number n) rows) ≡ find (is_row c) rows
find-update_ne b c n [] h = refl
find-update_ne b c n (x ∷ rows) h = ground (arith, find-update_ne b c n rows)

-- For a blockchain in the table, whose last block number is `r.last_block_number`, the update to
-- `n` raises a DatabaseError exactly when `n` is smaller. Afterwards the number that is read is the
-- greater of the two, so it never falls, and the number of every other blockchain is unchanged.
pub last_block_number-max :
    (b c : ℕ) (n : ℤ) (db : Database) (r : BlockchainRow)
    → find (is_row b) db.blockchains ≡ some r
    → c ≢ b
    → let (result, db') = update_blockchain_last_block_number b n db in
      (result ≡ (if ltb_ℤ n r.last_block_number then err database_error else ok tt))
      × ((read_blockchain_last_block_number b db').0 ≡ ok (max_ℤ r.last_block_number n))
      × ((read_blockchain_last_block_number c db').0 ≡ (read_blockchain_last_block_number c db).0)
unfolding update_blockchain_last_block_number read_blockchain_last_block_number
last_block_number-max b c n db r found ne = ground (
  arith,
  find-update_self b n db.blockchains r found,
  find-update_ne b c n db.blockchains ne,
  eq_of_parts r.last_block_number n,
)

-- The update to a number that is not smaller ends without an exception and changes no other table.
pub update-last_block :
    (b : ℕ) (n last : ℤ) (db : Database)
    → (read_blockchain_last_block_number b db).0 ≡ ok last
    → ltb_ℤ n last ≡ false
    → ((update_blockchain_last_block_number b n db).0 ≡ ok tt)
      × ((read_blockchain_last_block_number b (update_blockchain_last_block_number b n db).1).0
          ≡ ok n)
      × ((update_blockchain_last_block_number b n db).1.transfers ≡ db.transfers)
unfolding update_blockchain_last_block_number read_blockchain_last_block_number
update-last_block b n last db found order = elim (Option-cases (find (is_row b) db.blockchains)) [
  | inl missing ↦ absurd (ground (arith, found, missing))
  | inr (r, there) ↦
      let same : r.last_block_number ≡ last = ground (arith, found, there) in
      let self = find-update_self b n db.blockchains r there in
      let parts = eq_of_parts r.last_block_number n in
      (
        ground (arith, there, same, order),
        ground (arith, there, same, order, self, parts),
        ground (arith, there, same, order),
      )
]

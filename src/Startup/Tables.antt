-- ===== src/Startup/Tables.antt =====
-- database/__init__.py: `initialize_package`, the part that fills the table `blockchains`. The table
-- of the names of transfer statuses is not in the model.
pub mod Rows
use validatornode.Common.{ℕ, Bool, true, false, not, List, [], ◌∷◌, map, any, if◌then◌else◌, ◌==◌}
use validatornode.Common.Int.{negsuc}
use validatornode.Exec.{Exec, integrity_error, other_constraint, pure, raise, ◌>>=◌, ◌>>◌}
use validatornode.Entities.{Blockchain}
use validatornode.Database.Models.{Database, BlockchainRow}
use validatornode.Database.Session.{transaction}

-- The default of the last block number is -1.
abbrev pub new_blockchain : Blockchain → BlockchainRow
new_blockchain b = record { id = b; last_block_number = negsuc 0 }

abbrev pub has_row : Blockchain → List BlockchainRow → Bool
has_row b rows = any (λ r. r.id == b) rows

-- The ID is the primary key.
unfoldable pub insert_blockchain : Blockchain → Exec Database (Unit {0})
insert_blockchain b db =
    if has_row b db.blockchains
    then raise (integrity_error other_constraint) db
    else pure tt (record db { blockchains = new_blockchain b ∷ db.blockchains })

abbrev pub is_in : Blockchain → List ℕ → Bool
is_in b ids = any (λ i. i == b) ids

unfoldable pub insert_missing : List ℕ → List Blockchain → Exec Database (Unit {0})
unfolding insert_blockchain
insert_missing blockchain_ids [] = pure tt
insert_missing blockchain_ids (b ∷ bs) =
    (if is_in b blockchain_ids then pure tt else insert_blockchain b)
    >> insert_missing blockchain_ids bs

-- `bs` is the enumeration `Blockchain` in its order.
unfoldable pub initialize_blockchains : List Blockchain → Exec Database (Unit {0})
initialize_blockchains bs =
    transaction (λ db. insert_missing (map (λ r. r.id) db.blockchains) bs db)

-- ===== src/Startup/Tables/Rows.antt =====
-- database/__init__.py: the rows of `blockchains` after the start.
use validatornode.Common.{
  ℕ, true, false, not, ◌&&◌, Option, none, some, List, [], ◌∷◌, map, find, All, if◌then◌else◌, ◌==◌,
  ◌≡◌, refl, ap, arith, inl, inr, Bool-cases,
}
use validatornode.Common.Int.{ℤ, negsuc}
use validatornode.Exec.{ok}
use validatornode.Entities.{Blockchain}
use validatornode.Database.Models.{Database, BlockchainRow}
use validatornode.Database.Access.Transfers.{read_blockchain_last_block_number}
use validatornode.Startup.Tables.{
  new_blockchain, has_row, is_in, insert_missing, initialize_blockchains,
}

abbrev pub IsNodup : List Blockchain → Type 0
IsNodup [] = Unit
IsNodup (b ∷ bs) = (is_in b bs ≡ false) × IsNodup bs

abbrev row_of : Blockchain → List BlockchainRow → Option BlockchainRow
row_of b rows = find (λ r. r.id == b) rows

rows_after : List ℕ → List Blockchain → List BlockchainRow → List BlockchainRow
rows_after ids [] rows = rows
rows_after ids (b ∷ bs) rows =
    rows_after ids bs (if is_in b ids then rows else new_blockchain b ∷ rows)

-- The IDs were read from rows that are still there.
abbrev AreMissing : List ℕ → List BlockchainRow → List Blockchain → Type 0
AreMissing ids rows bs = All (λ b. is_in b ids ≡ false → has_row b rows ≡ false) bs

AreMissing-cons :
    (k : Blockchain) (ids : List ℕ) (rows : List BlockchainRow) (bs : List Blockchain)
    → is_in k bs ≡ false
    → AreMissing ids rows bs
    → AreMissing ids (new_blockchain k ∷ rows) bs
AreMissing-cons k ids rows [] n h = tt
AreMissing-cons k ids rows (b ∷ bs) n h =
    (λ e. ground (arith, h.0 e), AreMissing-cons k ids rows bs (ground arith) h.1)

insert_missing-rows :
    (ids : List ℕ) (bs : List Blockchain) (db : Database)
    → IsNodup bs
    → AreMissing ids db.blockchains bs
    → insert_missing ids bs db
      ≡ (ok tt, record db { blockchains = rows_after ids bs db.blockchains })
unfolding insert_missing rows_after
insert_missing-rows ids [] db n h = refl
insert_missing-rows ids (b ∷ bs) db n h = elim (Bool-cases (is_in b ids)) [
  | inl e ↦ ground (arith, e, insert_missing-rows ids bs db n.1 h.1)
  | inr e ↦ ground (
    arith,
    e,
    h.0 e,
    insert_missing-rows ids bs (record db { blockchains = new_blockchain b ∷ db.blockchains }) n.1
        (AreMissing-cons b ids db.blockchains bs n.0 h.1),
  )
]

is_in-same : (k b : Blockchain) (ids : List ℕ) → (k == b) ≡ true → is_in k ids ≡ is_in b ids
is_in-same k b ids e = ap (λ z. is_in z ids) (ground (arith, e))

row_of-rows_after :
    (b : Blockchain) (ids : List ℕ) (bs : List Blockchain) (rows : List BlockchainRow)
    → IsNodup bs
    → row_of b (rows_after ids bs rows)
      ≡ (if is_in b bs && not (is_in b ids) then some (new_blockchain b) else row_of b rows)
unfolding rows_after
row_of-rows_after b ids [] rows n = refl
row_of-rows_after b ids (k ∷ bs) rows n = elim (Bool-cases (is_in k ids)) [
  | inl e ↦ elim (Bool-cases (k == b)) [
    | inl same ↦ ground (
      arith,
      e,
      same,
      is_in-same k b ids,
      is_in-same k b bs,
      n.0,
      row_of-rows_after b ids bs rows n.1,
    )
    | inr other ↦ ground (arith, e, other, row_of-rows_after b ids bs rows n.1)
  ]
  | inr e ↦ elim (Bool-cases (k == b)) [
    | inl same ↦ ground (
      arith,
      e,
      same,
      is_in-same k b ids,
      is_in-same k b bs,
      n.0,
      row_of-rows_after b ids bs (new_blockchain k ∷ rows) n.1,
    )
    | inr other ↦ ground (arith, e, other, row_of-rows_after b ids bs (new_blockchain k ∷ rows) n.1)
  ]
]

row_of-is_in :
    (b : Blockchain) (rows : List BlockchainRow) → is_in b (map (λ r. r.id) rows) ≡ has_row b rows
row_of-is_in b [] = refl
row_of-is_in b (r ∷ rows) = ground (arith, row_of-is_in b rows)

row_of-none :
    (b : Blockchain) (rows : List BlockchainRow) → has_row b rows ≡ false → row_of b rows ≡ none
row_of-none b [] h = refl
row_of-none b (r ∷ rows) h = ground (arith, row_of-none b rows)

row_of-some :
    (b : Blockchain) (rows : List BlockchainRow)
    → has_row b rows ≡ true
    → (r : BlockchainRow) × (row_of b rows ≡ some r)
row_of-some b [] h = cc
row_of-some b (r ∷ rows) h = elim (Bool-cases (r.id == b)) [
  | inl e ↦ (r, rw e refl)
  | inr e ↦ let (q, p) = row_of-some b rows (ground (arith, h, e)) in (q, rw (e, p) refl)
]

all_missing :
    (rows : List BlockchainRow) (bs : List Blockchain) → AreMissing (map (λ r. r.id) rows) rows bs
all_missing rows [] = tt
all_missing rows (b ∷ bs) = (λ e. ground (arith, e, row_of-is_in b rows), all_missing rows bs)

-- What the last block number of a blockchain is, if -1 stands for a blockchain without a row.
abbrev pub last_of : Option BlockchainRow → ℤ
last_of none = negsuc 0
last_of (some r) = r.last_block_number

-- The start fills the table of blockchains without an exception and changes nothing else; for a
-- blockchain of the enumeration, which lists none twice, the last block number can be read then, and
-- it is the one of before the start or, if the blockchain had no row, -1.
pub initialize_blockchains-read :
    (bs : List Blockchain) (db : Database) (b : Blockchain)
    → IsNodup bs
    → is_in b bs ≡ true
    → (rows : List BlockchainRow) × (initialize_blockchains bs db
        ≡ (ok tt, record db { blockchains = rows }))
      × ((read_blockchain_last_block_number b (record db { blockchains = rows })).0
          ≡ ok (last_of (row_of b db.blockchains)))
unfolding initialize_blockchains read_blockchain_last_block_number
initialize_blockchains-read bs db b n member =
    let ids = map (λ (r : BlockchainRow). r.id) db.blockchains in
    let last = row_of-rows_after b ids bs db.blockchains n in
    (
      rows_after ids bs db.blockchains,
      ground (arith, insert_missing-rows ids bs db n (all_missing db.blockchains bs)),
      elim (Bool-cases (has_row b db.blockchains)) [
        | inl there ↦
            let (r, p) = row_of-some b db.blockchains there in
            ground (arith, there, member, p, row_of-is_in b db.blockchains, last)
        | inr absent ↦ ground (
          arith,
          absent,
          member,
          row_of-none b db.blockchains,
          row_of-is_in b db.blockchains,
          last,
        )
      ],
    )

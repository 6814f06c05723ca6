-- ===== src/Database/Nonce/Assign.antt =====
-- The assignment of a nonce by `update_transfer_nonce` of database/access.py.
use validatornode.Common.{
  ℕ, true, Option, none, some, List, [], ◌∷◌, if◌then◌else◌, All, update_where, select, select-head,
  map, ◌≡◌, ◌≢◌, refl, ap, ◌∙◌, arith, Option-cases, Bool-cases, Nat-cases, inl, inr,
}
use mathlib.Core.Path.{fun_ext}
use validatornode.Exec.{ok}
use validatornode.Database.Models.{Database, Transfer}
use validatornode.Database.Session.{clash, violation}
use validatornode.Database.Transactions.{write_then_check}
use validatornode.Database.Access.Transfers.{has_id, read_transfer_nonce}
use validatornode.Database.Access.Nonce.{
  minimum_failed_nonce, maximum_transfer_nonce, count_failed_nonces, next_nonce, nonce_after,
  status_after, is_updated, update_nonces, update_transfer_nonce,
}
use validatornode.Database.Nonce.Clash.{
  HasUniqueIds, with_nonce, same_nonce-of-clash, clash-with_nonce, violation-map, update_where-all,
}
use validatornode.Database.Nonce.Bounds.{
  IsBelow, count-zero, minimum-ne-none, above-maximum, next_nonce-above,
}

module _ (id b : ℕ) where
  -- The transfer is destined for the blockchain that the nonce is for.
  abbrev IsOwn : Transfer → Type 0
  IsOwn t = t.id ≡ id → t.destination_blockchain_id ≡ b

  module _ (count : ℕ) (minimum maximum : Option ℕ) (latest : ℕ) where
    new_nonce : Transfer → Option ℕ
    unfolding is_updated nonce_after
    new_nonce t =
        if is_updated id b minimum t
        then nonce_after count minimum maximum latest (has_id id t)
        else t.nonce

    new_status : Transfer → ℕ
    unfolding is_updated
    new_status t =
        if is_updated id b minimum t then status_after (has_id id t) t.status_id else t.status_id

    rewrite_row : Transfer → Transfer
    unfolding new_nonce new_status
    rewrite_row t = with_nonce (new_nonce t) (new_status t) t

    update_nonces_row :
        (t : Transfer)
        → (if is_updated id b minimum t
            then record t {
              nonce = nonce_after count minimum maximum latest (has_id id t);
              status_id = status_after (has_id id t) t.status_id;
            }
            else t)
          ≡ rewrite_row t
    unfolding rewrite_row
    update_nonces_row t = elim (Bool-cases (is_updated id b minimum t)) [
      | inl e ↦ rw e
      | inr e ↦ rw e
    ]

  -- A fresh nonce lies above all others on the blockchain.
  IsFresh : ℕ → Transfer → Type 0
  IsFresh n t = IsOwn t × (t.destination_blockchain_id ≡ b → IsBelow n t.nonce)

  keep_fresh :
      (maximum : Option ℕ) (latest : ℕ) (t u : Transfer)
      → IsFresh (next_nonce maximum latest) t
      → IsFresh (next_nonce maximum latest) u
      → u.id ≢ t.id
      → clash t u ≡ none
      → clash (rewrite_row 0 none maximum latest t) (rewrite_row 0 none maximum latest u) ≡ none
  unfolding IsFresh rewrite_row
  keep_fresh maximum latest t u ht hu ne h =
      clash-with_nonce t u _ _ _ _ h (ground (arith, same_nonce-of-clash t u h))

  keep_reuse :
      (count m : ℕ) (maximum : Option ℕ) (latest : ℕ) (t u : Transfer)
      → IsOwn t
      → IsOwn u
      → u.id ≢ t.id
      → count ≢ 0
      → clash t u ≡ none
      → clash
          (rewrite_row count (some m) maximum latest t)
          (rewrite_row count (some m) maximum latest u)
        ≡ none
  unfolding rewrite_row
  keep_reuse count m maximum latest t u ht hu ne some_failed h =
      clash-with_nonce t u _ _ _ _ h (ground (arith, same_nonce-of-clash t u h))

module _ {ℓ κ} {A : Type ℓ} (P Q : A → Type κ) where
  All-× : (xs : List A) → All P xs → All Q xs → All (λ x. P x × Q x) xs
  All-× [] p q = tt
  All-× (x ∷ xs) p q = ((p.0, q.0), All-× xs p.1 q.1)

-- What the statement should assign: the least nonce of a failed transfer, or else a fresh one.
abbrev pub assigned_nonce : ℕ → ℕ → List Transfer → ℕ
assigned_nonce b latest ts = elim (minimum_failed_nonce b ts) [
  | none ↦ next_nonce (maximum_transfer_nonce b ts) latest
  | some m ↦ m
]

select-map :
    (id : ℕ) (g : Transfer → Transfer)
    → ((t : Transfer) → (g t).id ≡ t.id)
    → (ts : List Transfer)
    → select (has_id id) (update_where (λ _. true) g ts) ≡ map g (select (has_id id) ts)
select-map id g same [] = refl
select-map id g same (t ∷ ts) = ground (arith, same t, select-map id g same ts)

module _ (id b latest : ℕ) (ts : List Transfer) where
  abbrev row : Transfer → Transfer
  row =
      rewrite_row id b (count_failed_nonces b ts) (minimum_failed_nonce b ts)
        (maximum_transfer_nonce b ts) latest

  update_nonces-eq-rewrite : update_nonces id b latest ts ≡ update_where (λ _. true) row ts
  unfolding update_nonces
  update_nonces-eq-rewrite =
      update_where-all (is_updated id b (minimum_failed_nonce b ts))
        (λ t. record t {
          nonce =
              nonce_after (count_failed_nonces b ts) (minimum_failed_nonce b ts)
                (maximum_transfer_nonce b ts) latest (has_id id t);
          status_id = status_after (has_id id t) t.status_id;
        })
        ts
      ∙ ap (λ g. update_where (λ _. true) g ts) (fun_ext (update_nonces_row id b _ _ _ latest))

  violation-update_nonces :
      All (IsOwn id b) ts
      → HasUniqueIds ts
      → violation ts ≡ none
      → violation (update_nonces id b latest ts) ≡ none
  unfolding IsFresh
  violation-update_nonces own ids h = elim (Nat-cases (count_failed_nonces b ts)) [
    | inl e ↦
        rw (update_nonces-eq-rewrite, e, count-zero b ts e)
          (violation-map _ (IsFresh id b fresh)
            (keep_fresh id b (maximum_transfer_nonce b ts) latest) ts
            (All-× _ _ ts own (above-maximum fresh b ts (next_nonce-above _ latest))) ids h)
    | inr e ↦ elim (Option-cases (minimum_failed_nonce b ts)) [
      | inl no_minimum ↦ absurd (minimum-ne-none b ts e no_minimum)
      | inr (m, is_minimum) ↦
          rw (update_nonces-eq-rewrite, is_minimum)
            (violation-map _ (IsOwn id b)
              (λ t u ht hu ne.
                keep_reuse id b (count_failed_nonces b ts) m (maximum_transfer_nonce b ts) latest t
                  u ht hu ne e)
              ts own ids h)
    ]
  ]
    where
      fresh : ℕ
      fresh = next_nonce (maximum_transfer_nonce b ts) latest

  row_id : (t : Transfer) → (row t).id ≡ t.id
  unfolding rewrite_row
  row_id t = refl

  select-update_nonces :
      {t : Transfer}
      → select (has_id id) ts ≡ t ∷ []
      → select (has_id id) (update_nonces id b latest ts) ≡ row t ∷ []
  select-update_nonces e = rw (update_nonces-eq-rewrite, select-map id row row_id ts, e)

  nonce-row : (t : Transfer) → t.id ≡ id → (row t).nonce ≡ some (assigned_nonce b latest ts)
  unfolding rewrite_row
  nonce-row t own = elim (Nat-cases (count_failed_nonces b ts)) [
    | inl e ↦ ground (arith, count-zero b ts e)
    | inr e ↦ ground (arith, minimum-ne-none b ts e)
  ]

read_transfer_nonce-row :
    (id : ℕ) (db : Database) (t : Transfer) {nonce : Option ℕ}
    → select (has_id id) db.transfers ≡ t ∷ []
    → t.nonce ≡ nonce
    → read_transfer_nonce id db ≡ (ok nonce, db)
unfolding read_transfer_nonce
read_transfer_nonce-row id db t found e = ground arith

-- For a transfer to blockchain `b` in a table whose rows have different IDs and violate no unique
-- constraint, `update_transfer_nonce` succeeds and changes the table `transfers` only. No constraint
-- is violated after it, in particular no two transfers to one blockchain share a nonce, and
-- `read_transfer_nonce` then returns a nonce: the least one of the failed transfers to `b`, or else
-- the latest nonce of the blockchain or one more than the greatest nonce in the table.
pub update_transfer_nonce-assigns :
    (id b latest : ℕ) (db : Database) (t : Transfer)
    → select (has_id id) db.transfers ≡ t ∷ []
    → All (IsOwn id b) db.transfers
    → HasUniqueIds db.transfers
    → violation db.transfers ≡ none
    → let db' : Database = record db { transfers = update_nonces id b latest db.transfers } in
      (update_transfer_nonce id b latest db ≡ (ok tt, db'))
      × (violation db'.transfers ≡ none)
      × (read_transfer_nonce id db' ≡ (ok (some (assigned_nonce b latest db.transfers)), db'))
unfolding update_transfer_nonce
update_transfer_nonce-assigns id b latest db t found own ids h =
    let v = violation-update_nonces id b latest db.transfers own ids h in
    let own_row : t.id ≡ id = ground (arith, select-head (has_id id) db.transfers t [] found) in
    (
      write_then_check (λ d. record d { transfers = update_nonces id b latest d.transfers }) db v,
      v,
      read_transfer_nonce-row id _ _ (select-update_nonces id b latest db.transfers found)
          (nonce-row id b latest db.transfers t own_row),
    )

-- ===== src/Database/Interleaving/Nonces.antt =====
-- A nonce that has been assigned, and the transactions of others before it is read.
use validatornode.Common.{
  ℕ, Bool, true, select-head, false, ◌||◌, none, List, [], ◌∷◌, map, select, update_where, ◌≡◌, ◌≢◌,
  ◌∙◌, refl, arith,
}
use validatornode.Exec.{ok}
use validatornode.Database.Models.{Database, Transfer}
use validatornode.Database.Session.{Engine, violation, check_constraints}
use validatornode.Database.Access.Transfers.{has_id, read_transfer_nonce}
use validatornode.Database.Access.Nonce.{
  is_failed, is_updated, update_nonces, update_transfer_nonce, status_after, nonce_after,
  minimum_failed_nonce, maximum_transfer_nonce, count_failed_nonces,
}
use validatornode.Database.Rows.{HasRow}
use validatornode.Database.Consistency.{IsConsistent}
use validatornode.Database.Consistency.Contracts.{create_validator_node_signature-transfers}
use validatornode.Database.Consistency.Writes.{update_transfer_nonce-IsConsistent}
use validatornode.Database.Nonce.Held.{update_nonces-held}
use validatornode.Database.Access.Updates.{update_blockchain_last_block_number}
use validatornode.Database.Interleaving.{
  Other, create, signature, last_block, nonce, reset, reversal, confirmed, submitted, source,
  status, task_id, validator_nonce, Interleaved, start, then, Other-IsConsistent,
}
use validatornode.Database.Interleaving.Rows.{
  Row-create, Row-reversal, Row-confirmed, Row-submitted, Row-reset, Row-source, Row-status,
  Row-task_id, Row-validator_nonce,
}

-- A transfer whose transaction has not failed.
abbrev IsGood : Transfer → Type 0
IsGood t = (b : ℕ) → is_failed b t ≡ false

select-updated :
    (id : ℕ) (q : Transfer → Bool) (f : Transfer → Transfer)
    → ((t : Transfer) → (f t).id ≡ t.id)
    → (ts : List Transfer)
    → select (has_id id) (update_where (λ t. has_id id t || q t) f ts)
      ≡ map f (select (has_id id) ts)
select-updated id q f same [] = refl
select-updated id q f same (t ∷ ts) = ground (arith, same t, select-updated id q f same ts)

module _ (engine : Engine) (id : ℕ) where
  nonce-HasRow :
      (i b n : ℕ) (row : Transfer) (d : Database)
      → i ≢ id
      → IsGood row
      → violation d.transfers ≡ none
      → HasRow id row d
      → HasRow id row (update_transfer_nonce i b n d).1
  unfolding update_transfer_nonce check_constraints
  nonce-HasRow i b n row d o good v h =
      ground (arith, h, update_nonces-held id i b o n d.transfers row h (good b) v)

  last_block-HasRow :
      (b : ℕ) (n : _) (row : Transfer) (d : Database)
      → HasRow id row d
      → HasRow id row (update_blockchain_last_block_number b n d).1
  unfolding update_blockchain_last_block_number
  last_block-HasRow b n row d h = ground (arith, h)

  Other-HasRow :
      (row : Transfer) {d d' : Database}
      → IsGood row
      → Other engine id d d'
      → IsConsistent d
      → HasRow id row d
      → HasRow id row d'
  Other-HasRow row good (create r) c h = (Row-create engine id row r).after _ h
  Other-HasRow row good (signature i b f a x) c h =
      rw (create_validator_node_signature-transfers engine i b f a x _) h
  Other-HasRow row good (last_block b n) c h = last_block-HasRow b n row _ h
  Other-HasRow row good (nonce i b n o) c h = nonce-HasRow i b n row _ o good c.1 h
  Other-HasRow row good (reset i o) c h = (Row-reset engine id row i o).after _ h
  Other-HasRow row good (reversal i b r a o) c h = (Row-reversal engine id row i b r a o).after _ h
  Other-HasRow row good (confirmed i j x n o) c h =
      (Row-confirmed engine id row i j x n o).after _ h
  Other-HasRow row good (submitted i x f o) c h = (Row-submitted engine id row i x f o).after _ h
  Other-HasRow row good (source i j n o) c h = (Row-source engine id row i j n o).after _ h
  Other-HasRow row good (status i s o) c h = (Row-status engine id row i s o).after _ h
  Other-HasRow row good (task_id i x o) c h = (Row-task_id engine id row i x o).after _ h
  Other-HasRow row good (validator_nonce i n o) c h =
      (Row-validator_nonce engine id row i n o).after _ h

  Interleaved-HasRow :
      (row : Transfer) (d d' : Database)
      → IsGood row
      → Interleaved engine id d d'
      → IsConsistent d
      → HasRow id row d
      → IsConsistent d' × HasRow id row d'
  Interleaved-HasRow row d d' good start c h = (c, h)
  Interleaved-HasRow row d d' good (then r o) c h =
      let (c₁, h₁) = Interleaved-HasRow row d _ good r c h in
      (Other-IsConsistent engine id o c₁, Other-HasRow row good o c₁ h₁)

  assigned-IsGood :
      (t : Transfer) (n : _)
      → IsGood (record t { nonce = n; status_id = status_after true t.status_id })
  unfolding is_failed status_after
  assigned-IsGood t n b = ground arith

  -- The row after the assignment.
  abbrev assigned : ℕ → ℕ → List Transfer → Transfer → Transfer
  assigned b n ts row = record row {
    nonce =
        nonce_after (count_failed_nonces b ts) (minimum_failed_nonce b ts)
          (maximum_transfer_nonce b ts) n true;
    status_id = status_after true row.status_id;
  }

  update_nonces-assigned :
      (b n : ℕ) (row : Transfer) (ts : List Transfer)
      → select (has_id id) ts ≡ row ∷ []
      → select (has_id id) (update_nonces id b n ts) ≡ assigned b n ts row ∷ []
  unfolding update_nonces is_updated
  update_nonces-assigned b n row ts h =
      let own = select-head (has_id id) ts row [] h in
      select-updated id _ _ (λ t. refl) ts ∙ rw (h, own) refl

  assigned-HasRow :
      (b n : ℕ) (row : Transfer) (d : Database)
      → (update_transfer_nonce id b n d).0 ≡ ok tt
      → HasRow id row d
      → HasRow id (assigned b n d.transfers row) (update_transfer_nonce id b n d).1
  unfolding update_transfer_nonce check_constraints
  assigned-HasRow b n row d done h =
      ground (arith, done, update_nonces-assigned b n row d.transfers h)

  read_transfer_nonce-row :
      (row : Transfer) (d : Database)
      → HasRow id row d
      → (read_transfer_nonce id d).0 ≡ ok row.nonce
  unfolding read_transfer_nonce
  read_transfer_nonce-row row d h = ground (arith, h)

  -- Between the assignment of a nonce to a transfer of a consistent database, which has one row for
  -- it, and the read of that nonce, other transactions may be committed, in any number and order,
  -- but none about this transfer: the nonce that is read is the one that has been assigned, and no
  -- two transfers to one blockchain have the same nonce then.
  pub read_transfer_nonce-Interleaved :
      (b n : ℕ) (row : Transfer) (d d' : Database)
      → IsConsistent d
      → HasRow id row d
      → (update_transfer_nonce id b n d).0 ≡ ok tt
      → Interleaved engine id (update_transfer_nonce id b n d).1 d'
      → ((read_transfer_nonce id d').0
          ≡ ok (
              nonce_after
                (count_failed_nonces b d.transfers)
                (minimum_failed_nonce b d.transfers)
                (maximum_transfer_nonce b d.transfers)
                n
                true))
        × IsConsistent d'
  read_transfer_nonce-Interleaved b n row d d' c h done r =
      let row' = assigned b n d.transfers row in
      let (c', h') =
        Interleaved-HasRow row' (update_transfer_nonce id b n d).1 d' (assigned-IsGood row _) r
          ((update_transfer_nonce-IsConsistent id b n).after d c)
          (assigned-HasRow b n row d done h) in
      (read_transfer_nonce-row row' d' h', c')

-- ===== src/Business/Transfers/Detect/Registration.antt =====
-- The loop body of `detect_new_transfers`, and the transfers in the table.
use validatornode.Common.{
  Bool, ◌||◌, ◌⊎◌, ℕ, zero, suc, String, true, false, none, some, List, [], ◌∷◌, any, map, select,
  update_where, ◌≡◌, refl, arith, inl, inr,
}
use mathlib.Core.Path.{subst, sym}
use validatornode.Exec.{Exec, ◌>>=◌, ok, Exec-cases, Call-cases}
use validatornode.Entities.{CrossChainTransfer}
use validatornode.Database.Models.{Database, Transfer}
use validatornode.Database.Access.Transfers.{
  is_source, has_id, new_transfer, read_transfer_id, transfer_id,
}
use validatornode.Database.Access.Updates.{update_transfer_task_id}
use validatornode.Database.Session.{check_constraints, one_or_none}
use validatornode.Database.Creation.{create_transfer-Created, new_id}
use validatornode.Business.Client.{Env, TaskName}
use validatornode.Business.State.{State, db, schedule_task}
use validatornode.Business.Transfers.Detect.{
  find_unused_validator_nonce, draw_validator_nonce, creation_request, register_transfer,
  process_transfer,
}

-- A transfer with this source transaction is in the table.
abbrev pub IsKnown : ℕ → String → List Transfer → Type 0
IsKnown b x rows = any (is_source b x) rows ≡ true

-- A test of a row that does not look at the ID of its task.
abbrev pub IgnoresTask : (Transfer → Bool) → Type 0
IgnoresTask p = (t : Transfer) (y : String) → p (record t { task_id = some y }) ≡ p t

select-IsKnown :
    (b : ℕ) (x : String) (rows : List Transfer) (id : ℕ)
    → one_or_none (map transfer_id (select (is_source b x) rows)) ≡ ok (some id)
    → IsKnown b x rows
select-IsKnown b x [] id e = absurd (ground arith)
select-IsKnown b x (t ∷ ts) id e = ground (arith, select-IsKnown b x ts id)

module _ (p : Transfer → Bool) (ignores : IgnoresTask p) where
  any-update :
      (id : ℕ) (task_id : String) (ts : List Transfer)
      → any p (update_where (has_id id) (λ t. record t { task_id = some task_id }) ts) ≡ any p ts
  any-update id task_id [] = refl
  any-update id task_id (t ∷ ts) = ground (arith, any-update id task_id ts, ignores t task_id)

  update_transfer_task_id-any :
      (id : ℕ) (task_id : String) (db : Database)
      → any p (update_transfer_task_id id task_id db).1.transfers ≡ any p db.transfers
  unfolding update_transfer_task_id check_constraints
  update_transfer_task_id-any id task_id db = ground (arith, any-update id task_id db.transfers)

module _ {W : Type 0} (env : Env W) where
  draw-database :
      (rounds b : ℕ) (s : State W) → (draw_validator_nonce env rounds b s).1.database ≡ s.database
  unfolding draw_validator_nonce
  draw-database zero b s = refl
  draw-database (suc rounds) b s = elim (Call-cases (env.getrandbits s.world)) [
    | inl (f, w, e) ↦ ground arith
    | inr (n, w, e) ↦ elim (Call-cases (env.client.is_valid_validator_nonce b n w)) [
      | inl (f, w', e') ↦ ground arith
      | inr (true, w', e') ↦ ground arith
      | inr (false, w', e') ↦ ground (arith, draw-database rounds b (record s { world = w' }))
    ]
  ]

  find-database :
      (b : ℕ) (s : State W) → (find_unused_validator_nonce env b s).1.database ≡ s.database
  unfolding find_unused_validator_nonce
  find-database b s = ground (arith, draw-database env.rounds b s)

  schedule-database :
      (name : TaskName) (id : ℕ) (t : CrossChainTransfer) (s : State W)
      → (schedule_task env name id t none s).1.database ≡ s.database
  unfolding schedule_task
  schedule-database name id t s = ground arith

  -- The end of the registration: the task, and its ID in the record.
  abbrev schedule_validation : ℕ → CrossChainTransfer → Exec (State W) (Unit {0})
  schedule_validation id t = schedule_task env TaskName.validate_transfer id t none >>= λ task_id.
      db (update_transfer_task_id id task_id)

  schedule-any :
      (p : Transfer → Bool)
      → IgnoresTask p
      → (id : ℕ) (t : CrossChainTransfer) (s : State W)
      → any p (schedule_validation id t s).1.database.transfers ≡ any p s.database.transfers
  schedule-any p ignores id t s =
      elim (Exec-cases (schedule_task env TaskName.validate_transfer id t none s)) [
        | inl (e, s₁, h) ↦ ground (arith, schedule-database TaskName.validate_transfer id t s)
        | inr (y, s₁, h) ↦ ground (
          arith,
          schedule-database TaskName.validate_transfer id t s,
          update_transfer_task_id-any p ignores id y s₁.database,
        )
      ]

  -- Between the two tables stands one new row, with the data of `t`; task IDs aside.
  abbrev pub IsAdded : CrossChainTransfer → List Transfer → List Transfer → Type 0
  IsAdded t rows rows' =
      (n id source_token destination_token source_hub : ℕ) × ((p : Transfer → Bool)
        → IgnoresTask p
        → any p rows' ≡ (
            p (new_transfer id (creation_request env t n) source_token destination_token source_hub)
            || any p rows))

  register-IsAdded :
      (t : CrossChainTransfer) (s : State W)
      → (register_transfer env t s).0 ≡ ok tt
      → IsAdded t s.database.transfers (register_transfer env t s).1.database.transfers
  unfolding register_transfer
  register-IsAdded t s done =
      elim (Exec-cases (find_unused_validator_nonce env t.destination_blockchain s)) [
        | inl (e, s₁, h) ↦ absurd (ground arith)
        | inr (n, s₁, h) ↦
            elim (create_transfer-Created env.engine (creation_request env t n) s₁.database) [
              | inl (e, q, _) ↦ absurd (ground arith)
              | inr (a, b, u, d, q, row, v) ↦ (
                n,
                new_id env.engine s₁.database,
                a,
                b,
                u,
                λ (p : Transfer → Bool) (ignores : IgnoresTask p). ground (
                  arith,
                  find-database t.destination_blockchain s,
                  schedule-any p ignores (new_id env.engine s₁.database) t
                      (record s₁ { database = d }),
                ),
              )
            ]
      ]

  -- A round of the loop that ends without an exception leaves the table as it is, where the
  -- transaction of `t` is known, or adds the row.
  pub process-IsAdded :
      (t : CrossChainTransfer) (s : State W)
      → (process_transfer env t s).0 ≡ ok tt
      → (IsKnown t.source_blockchain t.source_transaction_id s.database.transfers
          × ((process_transfer env t s).1.database.transfers ≡ s.database.transfers))
        ⊎ IsAdded t s.database.transfers (process_transfer env t s).1.database.transfers
  unfolding process_transfer read_transfer_id
  process-IsAdded t s done =
      elim (Exec-cases (read_transfer_id t.source_blockchain t.source_transaction_id s.database)) [
        | inl (e, d, p) ↦ absurd (ground arith)
        | inr (none, d, p) ↦
            let same : process_transfer env t s ≡ register_transfer env t s = ground arith in
            inr (
              subst (λ q. IsAdded t s.database.transfers q.1.database.transfers) (sym same)
                (register-IsAdded t s (ground arith)))
        | inr (some id, d, p) ↦ inl (
          ground (
            arith,
            select-IsKnown t.source_blockchain t.source_transaction_id s.database.transfers id,
          ),
          ground arith,
        )
      ]

-- ===== src/Business/Queue.antt =====
-- The queue of tasks: what each task in it is, at every state that the node can reach, and how its
-- runs end.
use validatornode.Common.{
  ℕ, String, Bool, true, false, Option, List, [], ◌∷◌, ◌++◌, All, ◌≡◌, ◌≢◌, ◌⊎◌, refl, ap, arith,
  inl, inr,
}
use validatornode.Common.Int.{ℤ}
use mathlib.Core.Path.{subst, sym}
use mathlib.Core.List.{Memᴰ}
use mathlib.Core.List.Memᴰ
use validatornode.Exec.{Result, ok, err, reply, Call-cases}
use validatornode.Exec.Keeps.{Keeps}
use validatornode.Entities.{CrossChainTransfer}
use validatornode.Entities.Dict.{to_dict, from_dict, from_dict-to_dict}
use validatornode.Business.Client.{Env, Task, TaskName, ReadOutgoingTransfersFromBlockResponse}
use validatornode.Business.State.{State, schedule_task, get_task_interval}
use validatornode.Business.Kept.{IsKept, HasSubmission, SameBlockchains}
use validatornode.Business.Kept.Node.{Reachable-IsKept}
use validatornode.Business.Node.{Reachable}
use validatornode.Business.Transfers.Tasks.{Outcome, completed, retry, outcome, run_task}
use validatornode.Business.Transfers.Tasks.Schedule.{scheduled_task, run_task-outcome}

module _ {A : Type 0} (P : A → Type 0) where
  All-append : (xs : List A) (x : A) → All P xs → P x → All P (xs ++ x ∷ [])
  All-append [] x h p = (p, tt)
  All-append (y ∷ ys) x h p = (h.0, All-append ys x h.1 p)

  pub All-of_mem : (x : A) (xs : List A) → Memᴰ x xs → All P xs → P x
  All-of_mem x [] m h = absurd (Memᴰ.not-nil m)
  All-of_mem x (y ∷ ys) (Memᴰ.head e) h = subst P (sym e) h.0
  All-of_mem x (y ∷ ys) (Memᴰ.tail m) h = All-of_mem x ys m h.1

-- The task is completed, or is to run again after an interval.
abbrev pub IsReturned : Outcome → Type 0
IsReturned o = (o ≡ completed) ⊎ ((n : ℕ) × (o ≡ retry n))

module _ {W : Type 0} (env : Env W) where
  -- A transfer between two different blockchains of the enumeration.
  abbrev pub IsProper : CrossChainTransfer → Type 0
  IsProper t =
      (env.is_blockchain t.source_blockchain ≡ true)
      × (env.is_blockchain t.destination_blockchain ≡ true)
      × (t.destination_blockchain ≢ t.source_blockchain)

  -- A task that `_schedule_task` has built for such a transfer.
  abbrev pub IsRunnable : Task → Type 0
  IsRunnable task =
      (t : CrossChainTransfer) × (task
        ≡ scheduled_task env task.name task.internal_transfer_id t task.internal_transaction_id)
      × IsProper t
      × HasSubmission task.name task.internal_transaction_id

  abbrev pub AreRunnable : State W → Type 0
  AreRunnable s = All IsRunnable s.tasks

  schedule-AreRunnable :
      (name : TaskName) (id : ℕ) (t : CrossChainTransfer) (x : Option String)
      → IsProper t
      → HasSubmission name x
      → Keeps AreRunnable (schedule_task env name id t x)
  unfolding schedule_task get_task_interval
  schedule-AreRunnable name id t x p q = record {
    after = λ s h. elim (Call-cases (env.apply_async (scheduled_task env name id t x) s.world)) [
      | inl (f, w, e) ↦
          let same : s.tasks ≡ (schedule_task env name id t x s).1.tasks = ground (arith, e) in
          subst (All IsRunnable) same h
      | inr (task_id, w, e) ↦
          let longer : s.tasks ++ scheduled_task env name id t x ∷ []
              ≡ (schedule_task env name id t x s).1.tasks =
            ground (arith, e) in
          subst (All IsRunnable) longer
            (All-append IsRunnable s.tasks (scheduled_task env name id t x) h (t, refl, p, q))
    ];
  }

  same-IsProper : (t t' : CrossChainTransfer) → SameBlockchains t t' → IsProper t → IsProper t'
  same-IsProper t t' (e, f) (p, q, r) =
      (ground (arith, e, p), ground (arith, f, q), λ same. r (ground (arith, e, f, same)))

  parsed-IsProper :
      (task : Task) (s s' : State W) (t : CrossChainTransfer)
      → IsRunnable task
      → from_dict env.is_blockchain task.transfer_dict s ≡ (ok t, s')
      → IsProper t
  parsed-IsProper task s s' t (t', e, p, q) parsed =
      let dict : task.transfer_dict ≡ to_dict t' = ap (λ (u : Task). u.transfer_dict) e in
      let same : t' ≡ t =
        ground (arith, parsed, dict, from_dict-to_dict env.is_blockchain t' s p.0 p.1) in
      subst IsProper same p

  -- The client of a blockchain reads transfers between different blockchains of the enumeration.
  abbrev pub ReadsProper : ℕ → Type 0
  ReadsProper b =
      (n : ℤ) (w w' : W) (r : ReadOutgoingTransfersFromBlockResponse)
      → env.client.read_outgoing_transfers_from_block b n w ≡ (reply r, w')
      → All IsProper r.outgoing_transfers

  outcome-IsReturned : (name : TaskName) (r : Result Bool) → IsReturned (outcome env name r)
  outcome-IsReturned name (ok true) = inl refl
  outcome-IsReturned name (ok false) = inr (get_task_interval env name false, refl)
  outcome-IsReturned name (err e) = inr (get_task_interval env name true, refl)

  -- The run of a task of the queue ends with one of the two ways in which a task is to end.
  pub run_task-returns :
      (task : Task) (s : State W) → IsRunnable task → IsReturned (run_task env task s).0
  run_task-returns task s (t, e, p, q) =
      let as_scheduled =
        run_task-outcome env task.name task.internal_transfer_id t task.internal_transaction_id s
          p.0 p.1 in
      subst (λ u. IsReturned (run_task env u s).0) (sym e)
        (subst (λ r. IsReturned r.0) (sym as_scheduled) (outcome-IsReturned task.name _))

  module _ (reads : (b : ℕ) → env.is_active b ≡ true → ReadsProper b) where
    AreRunnable-IsKept : IsKept env AreRunnable IsProper
    AreRunnable-IsKept = record {
      on_db = λ m kept. record { after = λ s h. h };
      on_call = λ m. record { after = λ s h. h };
      on_start = λ b r. record { after = λ s h. h };
      on_schedule = schedule-AreRunnable;
      outside = λ s w h. h;
      good_same = same-IsProper;
      good_read = λ b n w w' r active e. reads b active n w w' r e;
      good_task = λ s s' task t h queued e.
          parsed-IsProper task s s' t (All-of_mem IsRunnable task s.tasks queued h) e;
    }

    pub Reachable-AreRunnable :
        (s s' : State W) → AreRunnable s → Reachable env s s' → AreRunnable s'
    Reachable-AreRunnable = Reachable-IsKept env AreRunnable-IsKept

-- ===== src/Business/Transfers/Validate/Scheduling.antt =====
-- What `validate_transfer` schedules.
use validatornode.Common.{
  ℕ, String, true, none, [], ◌∷◌, ◌++◌, if◌then◌else◌, ◌≡◌, ◌≢◌, refl, arith, inl, inr, ◌⊎◌,
}
use validatornode.Exec.{
  Exec, ok, err, permanent_transfer_validation_error, reply, Exec-cases, Call-cases,
}
use validatornode.Entities.{
  CrossChainTransfer, eventual_destination_blockchain, eventual_recipient_address,
  eventual_destination_token_address,
}
use validatornode.Database.Access.Updates.{update_reversal_transfer}
use validatornode.Business.Client.{Env, TaskName, confirmed}
use validatornode.Business.State.{State, db, schedule_task, get_task_interval}
use validatornode.Business.Transfers.Tasks.Schedule.{scheduled_task}
use validatornode.Business.Transfers.Validate.{
  validate_transfer, validation, validate_source_transaction_status,
  validate_transfer_in_source_transaction, validate_source_token_registration,
  validate_destination_blockchain_feasibility, check_destination, schedule_submission,
}
use validatornode.Business.Transfers.Validate.Source.{
  source_status_confirmed, source_status_tasks, in_source_tasks, source_token_tasks,
  feasibility_state, validate_transfer-state,
}

module _ {W : Type 0} (env : Env W) (id : ℕ) where
  -- The outcome of the checks on the destination: the transfer, or its reversal.
  abbrev pub IsDecided : CrossChainTransfer → State W → CrossChainTransfer → Type 0
  IsDecided found s feasible =
      (((check_destination env found s).0 ≡ ok tt) × (feasible ≡ found))
      ⊎ (((check_destination env found s).0 ≡ err permanent_transfer_validation_error)
          × (feasible ≡ record found { is_reversal_transfer = true }))

  feasibility-IsDecided :
      (found feasible : CrossChainTransfer) (s : State W)
      → (validate_destination_blockchain_feasibility env found s).0 ≡ ok feasible
      → IsDecided found s feasible
  unfolding validate_destination_blockchain_feasibility
  feasibility-IsDecided found feasible s e = elim (Exec-cases (check_destination env found s)) [
    | inl (permanent_transfer_validation_error, s₁, p) ↦ inr (ground arith, ground arith)
    | inl (x, s₁, p) ↦ absurd (ground arith)
    | inr (u, s₁, p) ↦ inl (ground arith, ground arith)
  ]

  abbrev pub submission_task : TaskName
  submission_task =
      if env.is_primary_node
      then TaskName.submit_transfer_onchain
      else TaskName.submit_transfer_to_primary_node

  abbrev record_reversal : CrossChainTransfer → Exec (State W) (Unit {0})
  record_reversal feasible =
      if feasible.is_reversal_transfer
      then db (
          update_reversal_transfer env.engine id (eventual_destination_blockchain feasible)
            (eventual_recipient_address feasible) (eventual_destination_token_address feasible))
      else (λ s. (ok tt, s))

  reversal-tasks :
      (feasible : CrossChainTransfer) (s : State W) → (record_reversal feasible s).1.tasks ≡ s.tasks
  reversal-tasks feasible s = ground arith

  schedule-cases :
      (name : TaskName) (t : CrossChainTransfer) (s : State W)
      → ((schedule_task env name id t none s).1.tasks ≡ s.tasks)
        ⊎ ((x : String) × (s' : State W) × (schedule_task env name id t none s ≡ (ok x, s'))
            × (s'.tasks ≡ s.tasks ++ scheduled_task env name id t none ∷ []))
  unfolding schedule_task get_task_interval
  schedule-cases name t s =
      elim (Call-cases (env.apply_async (scheduled_task env name id t none) s.world)) [
        | inl (f, w, e) ↦ inl (ground arith)
        | inr (x, w, e) ↦ inr (
          x,
          record s { tasks = s.tasks ++ scheduled_task env name id t none ∷ []; world = w },
          ground arith,
          refl,
        )
      ]

  submission-queues :
      (feasible : CrossChainTransfer) (s : State W)
      → (schedule_submission env id feasible s).1.tasks ≢ s.tasks
      → ((schedule_submission env id feasible s).0 ≡ ok true)
        × ((schedule_submission env id feasible s).1.tasks
            ≡ s.tasks ++ scheduled_task env submission_task id feasible none ∷ [])
  unfolding schedule_submission
  submission-queues feasible s changed = elim (Exec-cases (record_reversal feasible s)) [
    | inl (x, s₁, p) ↦ absurd (changed (ground (arith, reversal-tasks feasible s)))
    | inr (u, s₁, p) ↦ elim (schedule-cases submission_task feasible s₁) [
      | inl same ↦ elim (Exec-cases (schedule_task env submission_task id feasible none s₁)) [
        | inl (x, s₂, q) ↦ absurd (changed (ground (arith, reversal-tasks feasible s)))
        | inr (x, s₂, q) ↦ absurd (changed (ground (arith, reversal-tasks feasible s)))
      ]
      | inr (x, s₂, q, queued) ↦ (ground arith, ground (arith, reversal-tasks feasible s))
    ]
  ]

  -- From the state `read`, in which the source transaction has been read as confirmed, to the task.
  pub record IsScheduled (t : CrossChainTransfer) (s : State W) : Type 0 where
    pub found : CrossChainTransfer
    pub feasible : CrossChainTransfer
    pub read : State W
    pub checked : State W
    pub confirmed_transaction :
        env.client.read_transaction_status t.source_blockchain t.source_transaction_id s.world
        ≡ (reply confirmed, read.world)
    pub found_in_source : (validate_transfer_in_source_transaction env id t read).0 ≡ ok found
    pub source_checked :
        validate_source_token_registration env id found
          (validate_transfer_in_source_transaction env id t read).1
        ≡ (ok tt, checked)
    pub decision : IsDecided found checked feasible
    pub result : (validate_transfer env id t s).0 ≡ ok true
    pub queued :
        (validate_transfer env id t s).1.tasks
        ≡ s.tasks ++ scheduled_task env submission_task id feasible none ∷ []

  validation-result :
      (t : CrossChainTransfer) (s : State W)
      → (validation env id t s).0 ≡ ok true
      → (validate_transfer env id t s).0 ≡ ok true
  unfolding validate_transfer
  validation-result t s e = elim (Exec-cases (validation env id t s)) [
    | inl (x, s₁, p) ↦ absurd (ground arith)
    | inr (b, s₁, p) ↦ ground arith
  ]

  -- If a validation changes the scheduled tasks, then it returns True and has scheduled exactly one
  -- task: the submission, to the destination on a primary node and to the primary node on another,
  -- of the transfer that was found in the confirmed source transaction. That transfer is sent to
  -- its destination if all checks of the destination have passed, and is reversed if one of them
  -- has failed permanently.
  pub validate_transfer-IsScheduled :
      (t : CrossChainTransfer) (s : State W)
      → (validate_transfer env id t s).1.tasks ≢ s.tasks
      → IsScheduled t s
  unfolding validation
  validate_transfer-IsScheduled t s changed =
      let state = validate_transfer-state env id t s in
      elim (Exec-cases (validate_source_transaction_status env id t s)) [
        | inl (e, s₁, e₁) ↦ absurd (changed (ground (arith, state, source_status_tasks env id t s)))
        | inr (_, s₁, e₁) ↦
            elim (Exec-cases (validate_transfer_in_source_transaction env id t s₁)) [
              | inl (e, s₂, e₂) ↦ absurd (
                  changed (
                    ground
                      (arith, state, source_status_tasks env id t s, in_source_tasks env id t s₁)))
              | inr (found, s₂, e₂) ↦
                  elim (Exec-cases (validate_source_token_registration env id found s₂)) [
                    | inl (e, s₃, e₃) ↦ absurd (
                        changed (
                          ground (
                            arith,
                            state,
                            source_status_tasks env id t s,
                            in_source_tasks env id t s₁,
                            source_token_tasks env id found s₂,
                          )))
                    | inr (_, s₃, e₃) ↦
                        let same₃ : s₃.tasks ≡ s.tasks = ground (
                          arith,
                          source_status_tasks env id t s,
                          in_source_tasks env id t s₁,
                          source_token_tasks env id found s₂,
                        ) in
                        elim (Exec-cases
                          (validate_destination_blockchain_feasibility env found s₃)) [
                            | inl (e, s₄, e₄) ↦ absurd (
                                changed
                                  (ground (arith, state, same₃, feasibility_state env id found s₃)))
                            | inr (feasible, s₄, e₄) ↦
                                let same₄ : s₄.tasks ≡ s.tasks =
                                  ground (arith, same₃, feasibility_state env id found s₃) in
                                let submitted =
                                  submission-queues feasible s₄
                                    (λ same. changed (ground (arith, state, same₄))) in
                                record {
                                  found = found;
                                  feasible = feasible;
                                  read = s₁;
                                  checked = s₃;
                                  confirmed_transaction =
                                      ground (arith, source_status_confirmed env id t s);
                                  found_in_source = ground arith;
                                  source_checked = ground arith;
                                  decision = feasibility-IsDecided found feasible s₃ (ground arith);
                                  result = validation-result t s (ground (arith, submitted));
                                  queued = ground (arith, state, submitted, same₄);
                                }
                          ]
                  ]
            ]
      ]

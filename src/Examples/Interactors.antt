-- ===== src/Examples/Interactors.antt =====
-- The theorems on business/transfers.py, each at a small node.
use validatornode.Common.{ℕ, String, true, false, none, some, [], ◌∷◌, ◌≡◌, refl, arith}
use validatornode.Exec.{
  Exception, ok, err, reply, failure, transfer_interactor_error,
  unresolvable_transfer_to_submission_error,
}
use validatornode.Entities.{CrossChainTransfer, transfer_eq, eventual_destination_blockchain}
use validatornode.Database.Session.{check_constraints, violation, clash_with, clash}
use validatornode.Database.Access.Updates.{
  reset_transfer_nonce, update_transfer_status, update_transfer_task_id,
  update_transfer_confirmed_destination_transaction,
}
use validatornode.Database.Rows.{HasRow}
use validatornode.Business.Client.{Env, TaskName, TransferToSubmissionStatusResponse, confirmed}
use validatornode.Business.State.{State, schedule_task}
use validatornode.Business.Transfers.Validate.{
  validate_transfer, validation, validate_source_transaction_status,
  validate_transfer_in_source_transaction, validate_source_token_registration,
  validate_destination_blockchain_feasibility, check_destination,
  validate_transfer_recipient_address, validate_destination_token_registration,
  validate_token_addresses, validate_token_decimals, schedule_submission,
}
use validatornode.Business.Transfers.Validate.Safety.{
  IsSourceValid, validate_transfer-IsSourceValid,
}
use validatornode.Business.Transfers.Validate.Reversal.{validate_transfer-reversal}
use validatornode.Business.Transfers.Confirm.{
  confirm_transfer, on_response, record_confirmation, restart_validation,
}
use validatornode.Business.Transfers.Confirm.Outcomes.{
  IsFailed, confirm_transfer-restarts, confirm_transfer-confirms,
}
use validatornode.Business.Transfers.Tasks.{run_task}
use validatornode.Business.Transfers.Tasks.Schedule.{scheduled_task, IsAnswer, run_task-scheduled}
use validatornode.Business.Transfers.Detect.{draw_validator_nonce}
use validatornode.Business.Transfers.Detect.Nonces.{Draws, draw-returns}
use validatornode.Business.Transfers.Validate.Scheduling.{
  IsScheduled, validate_transfer-IsScheduled,
}
use validatornode.Business.Transfers.Validate.Outcomes.{
  validate_transfer-waits, validate_transfer-reverts,
}
use validatornode.Business.Transfers.Submit.{submit_transaction}
use validatornode.Business.Transfers.Submit.Failure.{
  IsReported, IsFailedStatus, submit_transaction-fails,
}
use validatornode.Business.Client.{TransactionStatus, unconfirmed, reverted}
use validatornode.Common.{inr}
use validatornode.Exec.{non_matching_forwarder_error}
use validatornode.Examples.{database, state, env, outgoing, outgoing_row}

draw-returns_example : draw_validator_nonce env 10 1 state ≡ (ok 2, record state { world = 3 })
draw-returns_example =
    draw-returns env 1 2 10 2 3 state
      (Draws.reject {m = 0} {w₁ = 1} {w₂ = 1} refl refl
        (Draws.reject {m = 1} {w₁ = 2} {w₂ = 2} refl refl (Draws.accept {w₁ = 3} refl refl)))
      (omega arith)

abbrev validated : State ℕ
validated = record state {
  tasks = scheduled_task env TaskName.submit_transfer_onchain 7 outgoing none ∷ [];
}

validate_transfer-outgoing : validate_transfer env 7 outgoing state ≡ (ok true, validated)
unfolding validate_transfer validation validate_source_transaction_status
    validate_transfer_in_source_transaction transfer_eq validate_source_token_registration
    validate_destination_blockchain_feasibility check_destination
    validate_transfer_recipient_address validate_destination_token_registration
    validate_token_addresses validate_token_decimals schedule_submission schedule_task
validate_transfer-outgoing = refl

validate_transfer-IsSourceValid_example : IsSourceValid env 7 outgoing state
validate_transfer-IsSourceValid_example =
    validate_transfer-IsSourceValid env 7 outgoing state
      (λ e. ground (arith, validate_transfer-outgoing))

abbrev reversal : CrossChainTransfer
reversal = record outgoing { is_reversal_transfer = true }

validate_transfer-reversal_example :
    validate_transfer env 7 reversal state ≡ (err transfer_interactor_error, state)
validate_transfer-reversal_example =
    validate_transfer-reversal env 7 reversal state (outgoing ∷ []) 0 0 refl refl refl refl refl
      (refl, tt)

-- The node above, where the submission has this answer.
abbrev env_with : TransferToSubmissionStatusResponse → Env ℕ
env_with r = record env {
  client = record env.client {
    get_transfer_to_submission_status = λ b transaction_id w. (reply r, w);
  };
}

abbrev confirmed_response : TransferToSubmissionStatusResponse
confirmed_response = record {
  transaction_submission_completed = true;
  transaction_status = some confirmed;
  transaction_id = some "tx99";
  block_number = some 200;
  destination_transfer_id = some 4;
}

confirm_transfer-restarts_example :
    (true ≡ true)
    × ((task_id : String) × HasRow 7
          (record outgoing_row { nonce = none; status_id = 0; task_id = some task_id })
          (confirm_transfer env 7 "submission" outgoing state).1.database
        × ((confirm_transfer env 7 "submission" outgoing state).1.tasks
            ≡ scheduled_task env TaskName.validate_transfer 7 outgoing none ∷ []))
unfolding eventual_destination_blockchain confirm_transfer restart_validation reset_transfer_nonce
    update_transfer_status schedule_task update_transfer_task_id check_constraints violation
    clash_with clash
confirm_transfer-restarts_example =
    confirm_transfer-restarts env 7 outgoing state "submission" 0 refl
      (failure unresolvable_transfer_to_submission_error) outgoing_row true refl
      IsFailed.unresolvable refl refl

confirm_transfer-confirms_example :
    (true ≡ true)
    × HasRow 7
        (record outgoing_row {
          destination_transfer_id = some 4;
          destination_transaction_id = some "tx99";
          destination_block_number = some 200;
          status_id = 5;
        })
        (confirm_transfer (env_with confirmed_response) 7 "submission" outgoing state).1.database
    × ((confirm_transfer (env_with confirmed_response) 7 "submission" outgoing state).1.tasks ≡ [])
unfolding eventual_destination_blockchain confirm_transfer on_response record_confirmation
    update_transfer_confirmed_destination_transaction update_transfer_status check_constraints
    violation clash_with clash
confirm_transfer-confirms_example =
    confirm_transfer-confirms (env_with confirmed_response) 7 outgoing state "submission" 0 refl
      confirmed_response outgoing_row true "tx99" 200 4 refl refl refl refl refl refl refl refl

run_task-scheduled_example :
    let task = scheduled_task env TaskName.confirm_transfer 7 outgoing (some "submission") in
    IsAnswer env TaskName.confirm_transfer
      (confirm_transfer env 7 "submission" outgoing state).0
      (run_task env task state).0
    × ((run_task env task state).1 ≡ (confirm_transfer env 7 "submission" outgoing state).1)
run_task-scheduled_example =
    run_task-scheduled env TaskName.confirm_transfer 7 outgoing (some "submission")
      (confirm_transfer env 7 "submission" outgoing) state refl refl ("submission", refl, refl)

validate_transfer-IsScheduled_example : IsScheduled env 7 outgoing state
validate_transfer-IsScheduled_example =
    validate_transfer-IsScheduled env 7 outgoing state
      (λ e. ground (arith, validate_transfer-outgoing))

-- The node, where the source transaction has this status.
abbrev env_at : TransactionStatus → Env ℕ
env_at status = record env {
  client = record env.client { read_transaction_status = λ b x w. (reply status, w) };
}

validate_transfer-waits_example :
    validate_transfer (env_at unconfirmed) 7 outgoing state ≡ (ok false, state)
validate_transfer-waits_example =
    validate_transfer-waits (env_at unconfirmed) 7 outgoing state 0 refl refl unconfirmed (inr refl)
      refl

validate_transfer-reverts_example :
    ((validate_transfer (env_at reverted) 7 outgoing state).0 ≡ ok true)
    × HasRow 7
        (record outgoing_row { status_id = 1 })
        (validate_transfer (env_at reverted) 7 outgoing state).1.database
    × ((validate_transfer (env_at reverted) 7 outgoing state).1.tasks ≡ [])
validate_transfer-reverts_example =
    validate_transfer-reverts (env_at reverted) 7 outgoing state 0 refl refl outgoing_row refl refl

-- The node, where the Forwarder of the destination does not match.
abbrev env_failing : Env ℕ
env_failing = record env {
  client = record env.client {
    start_transfer_to_submission = λ b r dw. (failure non_matching_forwarder_error, dw);
  };
}

submit_transaction-fails_example :
    (e : Exception) × (n : ℕ) × ((submit_transaction env_failing 7 outgoing 77 [] state).0 ≡ err e)
    × IsReported non_matching_forwarder_error e
    × HasRow 7
        (record outgoing_row { status_id = n })
        (submit_transaction env_failing 7 outgoing 77 [] state).1.database
    × IsFailedStatus outgoing n
    × ((submit_transaction env_failing 7 outgoing 77 [] state).1.tasks ≡ [])
submit_transaction-fails_example =
    submit_transaction-fails env_failing 7 outgoing 77 [] state non_matching_forwarder_error
      database 0 outgoing_row refl refl

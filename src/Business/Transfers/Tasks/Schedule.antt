-- ===== src/Business/Transfers/Tasks/Schedule.antt =====
-- The tasks that `_schedule_task` of business/transfers.py builds, and their runs.
use validatornode.Common.{ℕ, String, Bool, true, false, Option, some, ◌≡◌, refl, arith}
use mathlib.Core.Path.{sym, ap}
use validatornode.Exec.{Exec, Result, ok, err}
use validatornode.Entities.{CrossChainTransfer}
use validatornode.Entities.Dict.{to_dict, from_dict-to_dict}
use validatornode.Business.Client.{
  Env, Task, TaskName, confirm_transfer, submit_transfer_to_primary_node, submit_transfer_onchain,
  validate_transfer,
}
use validatornode.Business.State.{State, get_task_interval}
use validatornode.Business.Transfers.Confirm
use validatornode.Business.Transfers.Submit
use validatornode.Business.Transfers.Validate
use validatornode.Business.Transfers.Tasks.{
  Outcome, completed, retry, outcome, run_interactor, run_task,
}

module _ {W : Type 0} (env : Env W) where
  abbrev pub scheduled_task : TaskName → ℕ → CrossChainTransfer → Option String → Task
  scheduled_task name id t transaction_id = record {
    name = name;
    internal_transfer_id = id;
    internal_transaction_id = transaction_id;
    transfer_dict = to_dict t;
    countdown = env.retry_interval_in_seconds name;
  }

  pub run_task-outcome :
      (name : TaskName) (id : ℕ) (t : CrossChainTransfer) (x : Option String) (s : State W)
      → env.is_blockchain t.source_blockchain ≡ true
      → env.is_blockchain t.destination_blockchain ≡ true
      → let task = scheduled_task name id t x in
        run_task env task s
        ≡ (outcome env name (run_interactor env task t s).0, (run_interactor env task t s).1)
  unfolding run_task
  run_task-outcome name id t x s p q = ground (arith, from_dict-to_dict env.is_blockchain t s p q)

  -- The method of the interactor for a task, and its arguments.
  abbrev pub IsMethod :
      TaskName → ℕ → CrossChainTransfer → Option String → Exec (State W) Bool → Type 0
  IsMethod confirm_transfer id t x m =
      (y : String) × (x ≡ some y) × (m ≡ Confirm.confirm_transfer env id y t)
  IsMethod submit_transfer_to_primary_node id t x m =
      m ≡ Submit.submit_transfer_to_primary_node env id t
  IsMethod submit_transfer_onchain id t x m = m ≡ Submit.submit_transfer_onchain env id t
  IsMethod validate_transfer id t x m = m ≡ Validate.validate_transfer env id t

  -- True completes the task, False asks for a retry after the usual interval, and an exception for
  -- one after the interval for errors.
  abbrev pub IsAnswer : TaskName → Result Bool → Outcome → Type 0
  IsAnswer name (ok true) o = o ≡ completed
  IsAnswer name (ok false) o = o ≡ retry (env.retry_interval_in_seconds name)
  IsAnswer name (err e) o = o ≡ retry (env.retry_interval_after_error_in_seconds name)

  outcome-IsAnswer : (name : TaskName) (r : Result Bool) → IsAnswer name r (outcome env name r)
  unfolding get_task_interval
  outcome-IsAnswer name (ok true) = refl
  outcome-IsAnswer name (ok false) = refl
  outcome-IsAnswer name (err e) = refl

  interactor-method :
      (name : TaskName) (id : ℕ) (t : CrossChainTransfer) (x : Option String)
      (m : Exec (State W) Bool)
      → IsMethod name id t x m
      → run_interactor env (scheduled_task name id t x) t ≡ m
  unfolding run_interactor
  interactor-method confirm_transfer id t x m (y, e, h) = rw e (sym h)
  interactor-method submit_transfer_to_primary_node id t x m h = sym h
  interactor-method submit_transfer_onchain id t x m h = sym h
  interactor-method validate_transfer id t x m h = sym h

  -- A task that `_schedule_task` builds for a transfer between two blockchains of the enumeration
  -- runs the interactor's method of its name, with the internal transfer ID, that very transfer and,
  -- for a confirmation, the ID of the submission, in any state. It is completed if the method
  -- returns True, is retried after the usual interval of the task if it returns False, and after the
  -- task's interval for errors if it raises any exception.
  pub run_task-scheduled :
      (name : TaskName) (id : ℕ) (t : CrossChainTransfer) (x : Option String)
      (m : Exec (State W) Bool) (s : State W)
      → env.is_blockchain t.source_blockchain ≡ true
      → env.is_blockchain t.destination_blockchain ≡ true
      → IsMethod name id t x m
      → IsAnswer name (m s).0 (run_task env (scheduled_task name id t x) s).0
        × ((run_task env (scheduled_task name id t x) s).1 ≡ (m s).1)
  run_task-scheduled name id t x m s p q h =
      let e : run_task env (scheduled_task name id t x) s ≡ (outcome env name (m s).0, (m s).1) =
        ground (
          arith,
          run_task-outcome name id t x s p q,
          ap (λ (k : Exec (State W) Bool). k s) (interactor-method name id t x m h),
        ) in
      rw e (outcome-IsAnswer name (m s).0, refl)

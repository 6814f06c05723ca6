-- ===== src/Business/Transfers/Tasks.antt =====
-- business/transfers.py: the Celery tasks. Each rebuilds the transfer from its dictionary, calls
-- the interactor, and asks Celery for a retry after an interval unless the call is completed.
pub mod Schedule
use validatornode.Common.{ℕ, String, Bool, true, false, Option, none, some}
use validatornode.Exec.{Exec, Result, ok, err, Exception, assertion_error, raise, ◌>>=◌}
use validatornode.Entities.{CrossChainTransfer}
use validatornode.Entities.Dict.{from_dict}
use validatornode.Business.Client.{
  Env, Task, TaskName, confirm_transfer, submit_transfer_onchain, submit_transfer_to_primary_node,
  validate_transfer,
}
use validatornode.Business.State.{State, get_task_interval}
use validatornode.Business.Transfers.Confirm
use validatornode.Business.Transfers.Submit
use validatornode.Business.Transfers.Validate

-- What a task hands back to Celery: `return True`, `self.retry(countdown=…)`, or an exception
-- that is raised before the `try` block.
pub data Outcome : Type 0 where
  completed : Outcome
  retry : ℕ → Outcome
  raised : Exception → Outcome

module _ {W : Type 0} (env : Env W) where
  -- The interactor's method behind a task.
  unfoldable pub run_interactor : Task → CrossChainTransfer → Exec (State W) Bool
  run_interactor task transfer = elim task.name [
    | confirm_transfer ↦ elim task.internal_transaction_id [
      | none ↦ raise assertion_error
      | some internal_transaction_id ↦
          Confirm.confirm_transfer env task.internal_transfer_id internal_transaction_id transfer
    ]
    | submit_transfer_to_primary_node ↦
        Submit.submit_transfer_to_primary_node env task.internal_transfer_id transfer
    | submit_transfer_onchain ↦
        Submit.submit_transfer_onchain env task.internal_transfer_id transfer
    | validate_transfer ↦ Validate.validate_transfer env task.internal_transfer_id transfer
  ]

  abbrev pub outcome : TaskName → Result Bool → Outcome
  outcome name (ok true) = completed
  outcome name (ok false) = retry (get_task_interval env name false)
  outcome name (err e) = retry (get_task_interval env name true)

  unfoldable pub run_task : Task → State W → Outcome × State W
  unfolding run_interactor
  run_task task s =
      let (parsed, s') = from_dict env.is_blockchain task.transfer_dict s in
      elim parsed [
        | err e ↦ (raised e, s')
        | ok transfer ↦ let (r, s'') = run_interactor task transfer s' in (outcome task.name r, s'')
      ]

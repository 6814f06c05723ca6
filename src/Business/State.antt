-- ===== src/Business/State.antt =====
-- The state of the node, the ways in which the interactors act on it, and the scheduling of tasks
-- (`_schedule_task` and `_get_task_interval` of business/transfers.py).
use validatornode.Common.{ℕ, String, Bool, false, Option, List, [], ◌∷◌, ◌++◌, if◌then◌else◌}
use validatornode.Exec.{
  Exec, ok, Exception, unknown_transfer_error, transfer_interactor_error, pure, raise, ◌>>=◌, ◌>>◌,
  catch, assert, Call, to_result,
}
use validatornode.Entities.{Blockchain, CrossChainTransfer}
use validatornode.Entities.Dict.{to_dict}
use validatornode.Database.Models.{Database}
use validatornode.Business.Client.{Env, Task, TaskName}

pub record State (W : Type 0) : Type 0 where
  pub database : Database
  -- the tasks handed to Celery, in order
  pub tasks : List Task
  pub world : W

module _ {W A : Type 0} where
  -- a function of database/access.py
  abbrev pub db : Exec Database A → Exec (State W) A
  db m s = let (r, d) = m s.database in (r, record s { database = d })

  -- a call that acts on the world outside only
  abbrev pub call : Call W A → Exec (State W) A
  call m s = let (r, w) = m s.world in (to_result r, record s { world = w })

  -- a call that acts on the database too
  abbrev pub call_db : Call (Database × W) A → Exec (State W) A
  call_db m s =
      let (r, dw) = m (s.database, s.world) in
      (to_result r, record s { database = dw.0; world = dw.1 })

  -- `except Exception: raise self._create_error(…)`
  abbrev pub or_interactor_error : Exec (State W) A → Exec (State W) A
  or_interactor_error m = catch m (λ _. raise transfer_interactor_error)

  -- the same, below `except TransferInteractorError: raise`
  abbrev pub on_foreign_error : Exception → Exec (State W) A
  on_foreign_error unknown_transfer_error = raise unknown_transfer_error
  on_foreign_error _ = raise transfer_interactor_error

  abbrev pub or_foreign_error : Exec (State W) A → Exec (State W) A
  or_foreign_error m = catch m on_foreign_error

module _ {W : Type 0} (env : Env W) where
  -- `get_blockchain_client(blockchain)`, whose client is known by its blockchain
  abbrev pub get_blockchain_client : Blockchain → Exec (State W) (Unit {0})
  get_blockchain_client blockchain = assert (env.is_active blockchain)

  unfoldable pub get_task_interval : TaskName → Bool → ℕ
  get_task_interval name after_error =
      if after_error
      then env.retry_interval_after_error_in_seconds name
      else env.retry_interval_in_seconds name

  -- The task is in the queue once `apply_async` has returned.
  unfoldable pub schedule_task :
      TaskName → ℕ → CrossChainTransfer → Option String → Exec (State W) String
  unfolding get_task_interval to_dict
  schedule_task name internal_transfer_id transfer internal_transaction_id =
      let task : Task = record {
        name = name;
        internal_transfer_id = internal_transfer_id;
        internal_transaction_id = internal_transaction_id;
        transfer_dict = to_dict transfer;
        countdown = get_task_interval name false;
      } in
      do
        task_id ← call (env.apply_async task)
        (λ s. (ok tt, record s { tasks = s.tasks ++ task ∷ [] }))
        pure task_id

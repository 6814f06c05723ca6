-- ===== src/Business/Node.antt =====
-- The node as a whole: the steps of monitor.py, of the Celery worker and of the REST API's handlers
-- (restapi.py), one after another. A task stays in the list after a run, since Celery may run it
-- again.
pub mod Reachability
use validatornode.Common.{ℕ, String, true, List, ◌≡◌}
use mathlib.Core.List.{Memᴰ}
use validatornode.Business.Client.{Env, Task}
use validatornode.Business.State.{State}
use validatornode.Business.Signatures.{
  SecondaryNodeSignatureAddRequest, add_secondary_node_signature,
}
use validatornode.Business.Transfers.Detect.{detect_new_transfers}
use validatornode.Business.Transfers.Confirm.{get_validator_nonce}
use validatornode.Business.Transfers.Tasks.{run_task}

module _ {W : Type 0} (env : Env W) where
  -- A step ends as its method ends, with a result or with an exception.
  pub data Step (s : State W) : State W → Type 0 where
    -- the monitor, for an active blockchain
    monitor : (b : ℕ) → env.is_active b ≡ true → Step s (detect_new_transfers env b s).1
    -- a worker runs a task that has been scheduled
    worker : (task : Task) → Memᴰ task s.tasks → Step s (run_task env task s).1
    -- another validator node posts a signature
    signature :
        (request : SecondaryNodeSignatureAddRequest)
        → Step s (add_secondary_node_signature env request s).1
    -- another validator node asks for a validator nonce
    nonce : (b : ℕ) (x : String) → Step s (get_validator_nonce env b x s).1
    -- the world outside changes by itself
    outside : (w : W) → Step s (record s { world = w })

  pub data Reachable (s : State W) : State W → Type 0 where
    start : Reachable s s
    step : {s₁ s₂ : State W} → Reachable s s₁ → Step s₁ s₂ → Reachable s s₂

-- ===== src/Business/Kept/Node.antt =====
-- What the interactors keep holds at every state that the node can reach.
use validatornode.Common.{ℕ, String, Bool, Option, none, some, ◌≡◌, refl, arith, inl, inr}
use mathlib.Core.List.{Memᴰ}
use mathlib.Core.Path.{subst}
use validatornode.Exec.{raise, assertion_error, Exec-cases}
use validatornode.Exec.Keeps.{Keeps, Keeps-raise}
use validatornode.Entities.{CrossChainTransfer}
use validatornode.Entities.Dict.{from_dict}
use validatornode.Entities.Dict.State.{from_dict-state}
use validatornode.Business.Client.{
  Env, Task, TaskName, confirm_transfer, submit_transfer_onchain, submit_transfer_to_primary_node,
  validate_transfer,
}
use validatornode.Business.State.{State}
use validatornode.Business.Kept.{IsKept}
use validatornode.Business.Kept.Confirm.{confirm_transfer-IsKept, get_validator_nonce-IsKept}
use validatornode.Business.Kept.Validate.{validate_transfer-IsKept}
use validatornode.Business.Kept.Detect.{detect_new_transfers-IsKept}
use validatornode.Business.Kept.Submit.{
  submit_transfer_onchain-IsKept, submit_transfer_to_primary_node-IsKept,
}
use validatornode.Business.Kept.Signatures.{add_secondary_node_signature-IsKept}
use validatornode.Business.Transfers.Confirm
use validatornode.Business.Transfers.Tasks.{run_interactor, run_task}
use validatornode.Business.Node.{
  Step, monitor, worker, signature, nonce, outside, Reachable, start, step,
}

module _ {W : Type 0} (env : Env W) {P : State W → Type 0} {Good : CrossChainTransfer → Type 0}
    (k : IsKept env P Good) where
  Kept-confirmation :
      (id : ℕ) (x : Option String) (t : CrossChainTransfer)
      → Good t
      → Keeps {A = Bool} P
          (elim x [ none ↦ raise assertion_error | some y ↦ Confirm.confirm_transfer env id y t ])
  Kept-confirmation id none t good = Keeps-raise assertion_error
  Kept-confirmation id (some x) t good = confirm_transfer-IsKept env k id t good x

  Kept-interactor :
      (name : TaskName) (task : Task) (t : CrossChainTransfer)
      → task.name ≡ name
      → Good t
      → Keeps P (run_interactor env task t)
  unfolding run_interactor
  Kept-interactor confirm_transfer task t e good =
      rw e (Kept-confirmation task.internal_transfer_id task.internal_transaction_id t good)
  Kept-interactor submit_transfer_to_primary_node task t e good =
      rw e (submit_transfer_to_primary_node-IsKept env k task.internal_transfer_id t good)
  Kept-interactor submit_transfer_onchain task t e good =
      rw e (submit_transfer_onchain-IsKept env k task.internal_transfer_id t good)
  Kept-interactor validate_transfer task t e good =
      rw e (validate_transfer-IsKept env k task.internal_transfer_id t good)

  run_task-IsKept :
      (task : Task) (s : State W) → Memᴰ task s.tasks → P s → P (run_task env task s).1
  unfolding run_task
  run_task-IsKept task s queued h =
      let unchanged = from_dict-state s env.is_blockchain task.transfer_dict in
      elim (Exec-cases (from_dict env.is_blockchain task.transfer_dict s)) [
        | inl (e, s', p) ↦
            let same : s ≡ (run_task env task s).1 = ground (arith, unchanged, p) in subst P same h
        | inr (t, s', p) ↦
            let run : (run_interactor env task t s).1 ≡ (run_task env task s).1 =
              ground (arith, unchanged, p) in
            let good = k.good_task s s' task t h queued p in
            subst P run ((Kept-interactor task.name task t refl good).after s h)
      ]

  Step-IsKept : {s s' : State W} → Step env s s' → P s → P s'
  Step-IsKept (monitor b active) h = (detect_new_transfers-IsKept env k b active).after _ h
  Step-IsKept (worker task queued) h = run_task-IsKept task _ queued h
  Step-IsKept (signature request) h = (add_secondary_node_signature-IsKept env k request).after _ h
  Step-IsKept (nonce b x) h = (get_validator_nonce-IsKept env k b x).after _ h
  Step-IsKept (outside w) h = k.outside _ w h

  pub Reachable-IsKept : (s s' : State W) → P s → Reachable env s s' → P s'
  Reachable-IsKept s s' h start = h
  Reachable-IsKept s s' h (step r q) = Step-IsKept q (Reachable-IsKept s _ h r)

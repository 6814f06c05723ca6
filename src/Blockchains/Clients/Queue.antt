-- ===== src/Blockchains/Clients/Queue.antt =====
-- The queue of tasks of a node with the clients of blockchains/ethereum.py.
use validatornode.Common.{true, List, [], ◌∷◌, All, ◌≡◌, arith, inl, inr}
use validatornode.Common.Int.{pos, negsuc}
use mathlib.Core.Path.{subst}
use mathlib.Core.List.{Memᴰ}
use validatornode.Exec.{Exec-cases}
use validatornode.Entities.{Blockchain, CrossChainTransfer}
use validatornode.Business.Client.{Env, Task, ReadOutgoingTransfersFromBlockResponse}
use validatornode.Business.State.{State}
use validatornode.Business.Node.{Reachable}
use validatornode.Business.Queue.{
  IsProper, IsRunnable, AreRunnable, ReadsProper, IsReturned, run_task-returns,
  Reachable-AreRunnable, All-of_mem,
}
use validatornode.Business.Transfers.Tasks.{run_task}
use validatornode.Blockchains.Ethereum.Logs.{read_outgoing_transfers_from_block}
use validatornode.Blockchains.Ethereum.Logs.Transfers.{
  IsOutgoing, read_outgoing_transfers_from_block-IsOutgoing,
}
use validatornode.Blockchains.Clients.{EthereumNodes, to_reply_err}
use validatornode.Blockchains.Clients.Soundness.{with_clients}

module _ {W : Type 0} (env : Env W) (nodes : Blockchain → EthereumNodes W)
    (known : (b : Blockchain) → env.is_active b ≡ true → env.is_blockchain b ≡ true) where
  IsOutgoing-IsProper :
      (b : Blockchain) (ts : List CrossChainTransfer)
      → env.is_blockchain b ≡ true
      → All (IsOutgoing env.is_blockchain b) ts
      → All (IsProper (with_clients env nodes)) ts
  IsOutgoing-IsProper b [] m h = tt
  IsOutgoing-IsProper b (t ∷ ts) m ((same, there, other, _), h) = (
    (ground (arith, same, m), there, λ e. other (ground (arith, same, e))),
    IsOutgoing-IsProper b ts m h,
  )

  clients-ReadsProper :
      (b : Blockchain) → env.is_active b ≡ true → ReadsProper (with_clients env nodes) b
  clients-ReadsProper b active (negsuc n) w w' r e = absurd (ground (arith, e))
  clients-ReadsProper b active (pos n) w w' r e =
      let blocks = (nodes b).outgoing_transfers_number_blocks in
      elim (Exec-cases (
        read_outgoing_transfers_from_block env.is_blockchain b (nodes b).get_block_number
          (nodes b).get_logs (nodes b).signer.hub blocks n w)) [
            | inl (x, w₁, p) ↦
                let (f, q) = to_reply_err {A = ReadOutgoingTransfersFromBlockResponse} x in
                absurd (ground (arith, e, p, q))
            | inr (r', w₁, p) ↦
                let same : r' ≡ r = ground (arith, e, p) in
                subst
                  (λ (q : ReadOutgoingTransfersFromBlockResponse).
                    All (IsProper (with_clients env nodes)) q.outgoing_transfers)
                  same
                  (IsOutgoing-IsProper b r'.outgoing_transfers (known b active) (
                    read_outgoing_transfers_from_block-IsOutgoing env.is_blockchain b
                      (nodes b).signer.hub (nodes b).get_block_number (nodes b).get_logs blocks n w
                      w₁ r' p))
          ]

  -- If the active blockchains are in the enumeration, and the node, which has the clients of
  -- blockchains/ethereum.py, starts with a queue of runnable tasks, then every task in the queue of
  -- a state that it reaches is one that `_schedule_task` has built for a transfer between two
  -- different blockchains of the enumeration, with the ID of the submission if it is a
  -- confirmation; and the run of the task in any state completes it or asks for a retry, so that
  -- its arguments are never refused.
  pub Reachable-IsRunnable-with_clients :
      (s s' any_state : State W) (task : Task)
      → AreRunnable (with_clients env nodes) s
      → Reachable (with_clients env nodes) s s'
      → Memᴰ task s'.tasks
      → IsRunnable (with_clients env nodes) task
        × IsReturned (run_task (with_clients env nodes) task any_state).0
  Reachable-IsRunnable-with_clients s s' any_state task h r m =
      let runnable =
        All-of_mem (IsRunnable (with_clients env nodes)) task s'.tasks m
          (Reachable-AreRunnable (with_clients env nodes) clients-ReadsProper s s' h r) in
      (runnable, run_task-returns (with_clients env nodes) task any_state runnable)

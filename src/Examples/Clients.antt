-- ===== src/Examples/Clients.antt =====
-- The small node with clients of blockchains/ethereum.py, whose Hub has one new event, in block 101.
use validatornode.Common.{
  none, ℕ, ◌-◌, suc, true, some, List, [], ◌∷◌, map, ltb, if◌then◌else◌, ◌==◌, refl, arith,
}
use validatornode.Common.Int.{pos, ◌-ℤ◌}
use validatornode.Exec.{reply}
use validatornode.Entities.{Blockchain}
use validatornode.Database.Session.{check_constraints, violation, clash_with, clash}
use validatornode.Database.Access.Transfers.{
  read_blockchain_last_block_number, read_transfer_id, create_transfer, insert_transfer,
}
use validatornode.Database.Access.Contracts.{read_or_create_contract}
use validatornode.Database.Access.Updates.{
  update_transfer_task_id, update_blockchain_last_block_number,
}
use mathlib.Core.List.{Memᴰ}
use validatornode.Business.Client.{confirmed, Task, TaskName}
use validatornode.Business.Queue.{IsRunnable, IsReturned}
use validatornode.Business.Transfers.Tasks.{run_task}
use validatornode.Business.Transfers.Tasks.Schedule.{scheduled_task}
use validatornode.Blockchains.Clients.Queue.{Reachable-IsRunnable-with_clients}
use validatornode.Business.State.{schedule_task, get_task_interval}
use validatornode.Entities.Dict.{to_dict}
use validatornode.Business.Node.{Step, Reachable}
use validatornode.Business.Transfers.Detect.{detect_new_transfers, process_transfers}
use validatornode.Business.Transfers.Detect.Records.{AreKnown, AreRecorded}
use validatornode.Blockchains.Ethereum.Blocks.{range, read_event_logs, read_logs_from_block}
use validatornode.Blockchains.Ethereum.Blocks.Coverage.{logs_in}
use validatornode.Blockchains.Ethereum.Logs.{
  EventLog, create_outgoing_transfer, create_outgoing_transfers, outgoing_transfer,
  read_outgoing_transfers_from_block,
}
use validatornode.Blockchains.Ethereum.Nodes.{ContractValue, is_valid_validator_nonce}
use validatornode.Blockchains.Clients.{EthereumNodes}
use validatornode.Blockchains.Clients.Soundness.{with_clients, Reachable-HasRecord-with_clients}
use validatornode.Database.Records.{HasRecord}
use validatornode.Blockchains.Clients.Detection.{detect_new_transfers-misses_none}
use validatornode.Examples.{outgoing_row, env, state}
use validatornode.Examples.Nonces.{config, count, accepts}
use validatornode.Examples.Messages.{client}
use validatornode.Examples.Ethereum.{log, verifies, receipt, completed}

abbrev events : ℕ → List EventLog
events n = if n == 101 then log ∷ [] else []

abbrev nodes : Blockchain → EthereumNodes ℕ
nodes b = record {
  signer = record client { blockchain = b; hub = if b == 0 then "hub0" else "hub1" };
  own_address = "node";
  submission = record config { blockchain = b };
  outgoing_transfers_number_blocks = 9;
  to_checksum_address = λ a. some "0x0A";
  is_equal_address = λ a a' w. (reply true, w);
  get_token_record = λ a w. (reply (ContractValue.boolean true ∷ []), w);
  is_valid_validator_node_nonce = λ n w. (reply (ltb 1 n), w);
  get_external_token_record =
      λ a b' w. (reply (ContractValue.boolean true ∷ ContractValue.text "token1" ∷ []), w);
  get_minimum_validator_node_signatures = λ w. (reply 2, w);
  get_decimals = λ a w. (reply (ContractValue.integer 8), w);
  get_validator_nodes = λ w. (reply ("node" ∷ "signer" ∷ []), w);
  get_block_number = λ w. (reply 102, w);
  get_logs = λ first last w. (reply (logs_in events first (suc last - first)), w);
  get_hub_receipt = λ x a w. (reply (x, []), w);
  read_transaction_status = λ x w. (reply confirmed, w);
  get_transaction_submission_status = completed;
  get_transaction_receipt = receipt;
  get_transaction_count = count;
  call_verify_transfer_to = verifies;
  start_transaction_submission = accepts;
}

Reachable-HasRecord-with_clients_example :
    HasRecord outgoing_row (detect_new_transfers (with_clients env nodes) 0 state).1.database
Reachable-HasRecord-with_clients_example =
    Reachable-HasRecord-with_clients env nodes outgoing_row state _ refl
      (Reachable.step Reachable.start (Step.monitor 0 refl))

detect_new_transfers-misses_none_example :
    let ts = map (outgoing_transfer env.is_blockchain 0 "hub0") (logs_in events 78 25) in
    let rows' = (detect_new_transfers (with_clients env nodes) 0 state).1.database.transfers in
    AreKnown ts rows' × AreRecorded ts state.database.transfers rows'
unfolding detect_new_transfers read_blockchain_last_block_number ◌-ℤ◌ process_transfers
    read_transfer_id create_transfer read_or_create_contract insert_transfer check_constraints
    violation clash_with clash schedule_task update_transfer_task_id
    update_blockchain_last_block_number read_outgoing_transfers_from_block read_logs_from_block
    read_event_logs range create_outgoing_transfers create_outgoing_transfer
    is_valid_validator_nonce logs_in
detect_new_transfers-misses_none_example =
    detect_new_transfers-misses_none env nodes 0 events (λ first last w h k. refl) (omega arith)
      state (pos 90) 78 102 0 refl refl refl (omega arith) refl

abbrev validation_task : Task
validation_task =
    scheduled_task (with_clients env nodes) TaskName.validate_transfer 13
      (outgoing_transfer env.is_blockchain 0 "hub0" log) none

Reachable-IsRunnable-with_clients_example :
    IsRunnable (with_clients env nodes) validation_task
    × IsReturned (run_task (with_clients env nodes) validation_task state).0
unfolding detect_new_transfers read_blockchain_last_block_number ◌-ℤ◌ process_transfers
    read_transfer_id create_transfer read_or_create_contract insert_transfer check_constraints
    violation clash_with clash schedule_task update_transfer_task_id
    update_blockchain_last_block_number read_outgoing_transfers_from_block read_logs_from_block
    read_event_logs range create_outgoing_transfers create_outgoing_transfer
    is_valid_validator_nonce logs_in to_dict get_task_interval
Reachable-IsRunnable-with_clients_example =
    Reachable-IsRunnable-with_clients env nodes (λ b active. ground (arith, active)) state
      (detect_new_transfers (with_clients env nodes) 0 state).1 state validation_task tt
      (Reachable.step Reachable.start (Step.monitor 0 refl)) (Memᴰ.head refl)

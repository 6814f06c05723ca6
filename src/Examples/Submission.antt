-- ===== src/Examples/Submission.antt =====
-- The theorems on `submit_transfer_onchain`, on `detect_new_transfers` and on the node as a whole,
-- at a small node.
use validatornode.Common.{ℕ, some, [], ◌∷◌, ◌≡◌, refl, arith}
use validatornode.Business.Transfers.Submit.{
  submit_transfer_onchain, submit_transfer_onchain_body, sufficient_secondary_node_signatures,
  submit_with_signatures, add_primary_node_signature, submit_transaction, record_submission,
  count_valid_signatures,
}
use validatornode.Database.Access.Transfers.{
  read_blockchain_last_block_number, read_validator_nonce_by_internal_transfer_id,
}
use validatornode.Database.Access.Signatures.{
  read_validator_node_signatures, lookup, read_validator_node_signature,
  create_validator_node_signature, store_signature, insert_signature,
}
use validatornode.Database.Access.Contracts.{read_or_create_contract, read_or_create_validator_node}
use validatornode.Database.Access.Updates.{
  update_transfer_submitted_destination_transaction, update_transfer_status,
}
use validatornode.Database.Session.{check_constraints, violation, clash_with, clash}
use validatornode.Business.State.{State, schedule_task}
use validatornode.Entities.{eventual_destination_blockchain}
use validatornode.Business.Client.{TaskName}
use validatornode.Business.Transfers.Submit.Quorum.{
  IsSufficient, submit_transfer_onchain-IsSufficient,
}
use validatornode.Business.Transfers.Tasks.Schedule.{scheduled_task}
use validatornode.Business.Transfers.Detect.Repetition.{detect_new_transfers-repeats}
use validatornode.Exec.{ok}
use validatornode.Examples.{database-IsConsistent}
use validatornode.Business.Transfers.Detect.{from_block_number, detect_new_transfers}
use validatornode.Common.Int.{pos, ◌-ℤ◌}
use validatornode.Exec.{reply}
use validatornode.Business.Client.{Env, ReadOutgoingTransfersFromBlockResponse}
use validatornode.Examples.{env, outgoing, database, state}

-- The signature of another node is stored for transfer 7.
abbrev signed : State ℕ
signed = record state {
  database = record database {
    forwarder_contracts = record { id = 1; blockchain_id = 1; address = "forwarder" } ∷ [];
    validator_nodes = record { id = 1; forwarder_contract_id = 1; address = "signer" } ∷ [];
    validator_node_signatures =
        record { transfer_id = 7; validator_node_id = 1; signature = "signed" } ∷ [];
  };
}

submit_transfer_onchain-signed :
    (submit_transfer_onchain env 7 outgoing signed).1.tasks
    ≡ scheduled_task env TaskName.confirm_transfer 7 outgoing (some "submission") ∷ []
unfolding submit_transfer_onchain submit_transfer_onchain_body sufficient_secondary_node_signatures
    submit_with_signatures add_primary_node_signature submit_transaction record_submission
    count_valid_signatures read_validator_nonce_by_internal_transfer_id
    read_validator_node_signatures lookup read_validator_node_signature
    create_validator_node_signature store_signature insert_signature read_or_create_contract
    read_or_create_validator_node update_transfer_submitted_destination_transaction
    update_transfer_status check_constraints violation clash_with clash schedule_task
    eventual_destination_blockchain
submit_transfer_onchain-signed = refl

submit_transfer_onchain-IsSufficient_example : IsSufficient env outgoing 7 signed
submit_transfer_onchain-IsSufficient_example =
    submit_transfer_onchain-IsSufficient env outgoing 7 signed refl
      (λ same. ground (arith, submit_transfer_onchain-signed))

-- A node whose client reads the transfer of the small node again, up to block 102.
abbrev response : ReadOutgoingTransfersFromBlockResponse
response = record { outgoing_transfers = outgoing ∷ []; to_block_number = pos 102 }

abbrev env_reading : Env ℕ
env_reading = record env {
  client = record env.client { read_outgoing_transfers_from_block = λ b n w. (reply response, w) };
}

detect_new_transfers-repeats_example :
    let (result, s') = detect_new_transfers env_reading 0 state in
    (result ≡ ok tt)
    × (s'.tasks ≡ [])
    × (s'.database.transfers ≡ database.transfers)
    × ((read_blockchain_last_block_number 0 s'.database).0 ≡ ok (pos 102))
unfolding read_blockchain_last_block_number ◌-ℤ◌ from_block_number
detect_new_transfers-repeats_example =
    detect_new_transfers-repeats env_reading 0 (pos 90) response state 0 refl database-IsConsistent
      refl refl refl refl (refl, tt)

-- ===== src/Examples/Signatures.antt =====
-- The theorems on business/signatures.py, each at a small node.
use validatornode.Common.{String, [], ◌≡◌, refl}
use validatornode.Exec.{unknown_transfer_error}
use validatornode.Database.Access.Transfers.{read_transfer_to_data}
use validatornode.Database.Access.Contracts.{read_or_create_contract, read_or_create_validator_node}
use validatornode.Database.Access.Signatures.{
  create_validator_node_signature, store_signature, insert_signature, read_validator_node_signature,
}
use validatornode.Business.Signatures.{
  SecondaryNodeSignatureAddRequest, add_secondary_node_signature, verify_signature,
  recover_transfer_to_signer_address, verify_signature_not_existing,
  verify_signer_is_validator_node,
}
use validatornode.Business.Signatures.Atomic.{
  IsAccepted, IsSignatureError, add_secondary_node_signature-refused,
  add_secondary_node_signature-accepted,
}
use validatornode.Examples.{state, env, database}

abbrev signature_request : String → SecondaryNodeSignatureAddRequest
signature_request transaction_id = record {
  source_blockchain = 0;
  source_transaction_id = transaction_id;
  signature = "signed";
}

add_secondary_node_signature-refused_example :
    ((add_secondary_node_signature env (signature_request "tx11") state).1.database ≡ database)
    × ((add_secondary_node_signature env (signature_request "tx11") state).1.tasks ≡ [])
    × IsSignatureError unknown_transfer_error
unfolding add_secondary_node_signature verify_signature read_transfer_to_data
add_secondary_node_signature-refused_example =
    add_secondary_node_signature-refused env (signature_request "tx11") state unknown_transfer_error
      refl

-- The signature of a node of which the database has nothing yet.
add_secondary_node_signature-accepted_example : IsAccepted env (signature_request "tx12") state
unfolding add_secondary_node_signature verify_signature read_transfer_to_data
    recover_transfer_to_signer_address verify_signature_not_existing read_validator_node_signature
    verify_signer_is_validator_node create_validator_node_signature store_signature
    read_or_create_contract read_or_create_validator_node insert_signature
add_secondary_node_signature-accepted_example =
    add_secondary_node_signature-accepted env (signature_request "tx12") state refl

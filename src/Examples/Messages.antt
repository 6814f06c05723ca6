-- ===== src/Examples/Messages.antt =====
-- A client of blockchain 1, blockchains/ethereum.py, on which the theorems about messages are tried.
use validatornode.Common.{◌≡◌, ◌↔◌, some, true, refl, arith}
use validatornode.Exec.{ok}
use validatornode.Entities.{eventual_destination_blockchain, eventual_recipient_address}
use validatornode.Business.Transfers.Submit.{recovery_request}
use validatornode.Blockchains.Ethereum.{
  EthereumClient, recovered, recovery_message, signed_message, recover_transfer_to_signer_address,
  sign_transfer_to_message,
}
use validatornode.Blockchains.Ethereum.Messages.{
  sign_request, recovery_message-eq_signed, recover-sign,
}
use validatornode.Examples.{outgoing}

abbrev pub client : EthereumClient
client = record {
  blockchain = 1;
  hub = "hub1";
  forwarder = "forwarder";
  pan_token = "pan1";
  chain_id = 5;
  major_protocol_version = "1";
  private_key = "key";
  sign_typed_data = λ key domain m. some m.recipient;
  recover_message = λ domain m x. recovered "node";
}

-- The signature of this client is the recipient of the message.
recover-sign_example :
    recover_transfer_to_signer_address client (recovery_request outgoing 77 "bob") ≡ ok "node"
unfolding eventual_destination_blockchain sign_transfer_to_message eventual_recipient_address
recover-sign_example =
    recover-sign client outgoing 77 refl "bob" "node" (λ r. ground (arith, r)) (λ m x e. refl) refl

recovery_message-eq_signed_example :
    (recovery_message client (recovery_request outgoing 77 "bob")
      ≡ signed_message client (sign_request client outgoing 77))
    ↔ (outgoing.is_reversal_transfer ≡ true → outgoing.recipient_address ≡ outgoing.sender_address)
unfolding eventual_destination_blockchain
recovery_message-eq_signed_example = recovery_message-eq_signed client outgoing 77 refl "bob"

-- ===== src/Blockchains/Ethereum/Messages.antt =====
-- The message that `sign_transfer_to_message` signs, and the one of which
-- `__sufficient_secondary_node_signatures` of business/transfers.py has the signer recovered.
use validatornode.Common.{ℕ, String, true, some, ◌≡◌, ◌↔◌, ap, sym, arith}
use validatornode.Exec.{ok}
use validatornode.Entities.{
  BlockchainAddress, CrossChainTransfer, eventual_destination_blockchain,
  eventual_recipient_address,
}
use validatornode.Business.Client.{TransferToMessageSignRequest}
use validatornode.Business.Transfers.Submit.{recovery_request}
use validatornode.Blockchains.Ethereum.{
  EthereumClient, TransferToMessage, recovered, domain_data, recovery_message, signed_message,
  recover_transfer_to_signer_address, sign_transfer_to_message,
}

-- The request with which a node of this configuration signs the transfer.
abbrev pub sign_request : EthereumClient → CrossChainTransfer → ℕ → TransferToMessageSignRequest
sign_request client t nonce = record {
  incoming_transfer = t;
  validator_nonce = nonce;
  destination_hub_address = client.hub;
  destination_forwarder_address = client.forwarder;
}

module _ (client : EthereumClient) (t : CrossChainTransfer) (nonce : ℕ)
    (destination : eventual_destination_blockchain t ≡ client.blockchain) where
  eventual_recipient_lem :
      (t.recipient_address ≡ eventual_recipient_address t)
      ↔ (t.is_reversal_transfer ≡ true → t.recipient_address ≡ t.sender_address)
  unfolding eventual_recipient_address
  eventual_recipient_lem = (λ e r. ground (arith, e, r), λ h. ground (arith, h))

  -- On the client of the eventual destination, the message of the request for the signer is the one
  -- that a node signs exactly if the transfer is not a reversal or its recipient is its sender.
  pub recovery_message-eq_signed :
      (signature : String)
      → (recovery_message client (recovery_request t nonce signature)
          ≡ signed_message client (sign_request client t nonce))
        ↔ (t.is_reversal_transfer ≡ true → t.recipient_address ≡ t.sender_address)
  recovery_message-eq_signed signature = (
    λ e. eventual_recipient_lem.0 (ap (λ (m : TransferToMessage). m.recipient) e),
    λ h.
        let e = eventual_recipient_lem.1 h in
        λ i. record (recovery_message client (recovery_request t nonce signature)) {
          recipient = e i;
          destination_blockchain_id = sym destination i;
        },
  )

  -- If web3 recovers the address of a node from every message and the signature that it made of it
  -- with the node's key, then that address is recovered from the node's signature of a transfer that
  -- is not a reversal or whose recipient is its sender, on the client of its eventual destination.
  pub recover-sign :
      (signature : String) (address : BlockchainAddress)
      → (t.is_reversal_transfer ≡ true → t.recipient_address ≡ t.sender_address)
      → ((m : TransferToMessage) (x : String)
          → client.sign_typed_data client.private_key (domain_data client) m ≡ some x
          → client.recover_message (domain_data client) m x ≡ recovered address)
      → sign_transfer_to_message client (sign_request client t nonce) ≡ ok signature
      → recover_transfer_to_signer_address client (recovery_request t nonce signature) ≡ ok address
  unfolding sign_transfer_to_message recover_transfer_to_signer_address
  recover-sign signature address direct correct signed = ground (
    arith,
    (recovery_message-eq_signed signature).1 direct,
    correct (signed_message client (sign_request client t nonce)) signature,
    signed,
  )

-- ===== src/Business/Signatures/Atomic.antt =====
-- `add_secondary_node_signature` of business/signatures.py, refused and accepted.
use validatornode.Common.{ℕ, String, true, none, some, List, ◌≡◌, arith, inl, inr}
use validatornode.Exec.{
  ok, err, Exception, Exec-cases, duplicate_signature_error, invalid_signature_error,
  invalid_signer_error, unknown_transfer_error, signature_interactor_error, reply, Call-cases,
}
use mathlib.Core.Path.{subst}
use validatornode.Database.Models.{Database}
use validatornode.Database.Session.{Engine}
use validatornode.Database.Transactions.{transaction-err}
use validatornode.Database.Access.Transfers.{TransferToDataResponse, read_transfer_to_data}
use validatornode.Database.Access.Signatures.{
  store_signature, create_validator_node_signature, read_validator_node_signature,
}
use validatornode.Business.Client.{Env, TransferToSignerAddressRecoveryRequest}
use validatornode.Business.State.{State}
use validatornode.Business.Signatures.{
  SecondaryNodeSignatureAddRequest, signature_error, is_validator_node_address,
  recover_transfer_to_signer_address, verify_signature_not_existing,
  verify_signer_is_validator_node, verify_signature, add_secondary_node_signature,
}

-- The classes of business/signatures.py: the general error and its four subclasses.
pub data IsSignatureError : Exception → Type 0 where
  general : IsSignatureError signature_interactor_error
  duplicate_signature : IsSignatureError duplicate_signature_error
  invalid_signature : IsSignatureError invalid_signature_error
  invalid_signer : IsSignatureError invalid_signer_error
  unknown_transfer : IsSignatureError unknown_transfer_error

signature_error-IsSignatureError : (e : Exception) → IsSignatureError (signature_error e)
signature_error-IsSignatureError duplicate_signature_error = duplicate_signature
signature_error-IsSignatureError invalid_signature_error = invalid_signature
signature_error-IsSignatureError invalid_signer_error = invalid_signer
signature_error-IsSignatureError unknown_transfer_error = unknown_transfer
signature_error-IsSignatureError _ = general

create_signature-atomic :
    (engine : Engine) (id b : ℕ) (forwarder node signature : String) (db : Database) (e : Exception)
    → (create_validator_node_signature engine id b forwarder node signature db).0 ≡ err e
    → (create_validator_node_signature engine id b forwarder node signature db).1 ≡ db
unfolding create_validator_node_signature
create_signature-atomic engine id b forwarder node signature db e h =
    transaction-err (store_signature engine id b forwarder node signature) db e h

module _ {W : Type 0} (env : Env W) (request : SecondaryNodeSignatureAddRequest) (s : State W) where
  -- The checks only read.
  verify_signature-state :
      ((verify_signature env request s).1.database ≡ s.database)
      × ((verify_signature env request s).1.tasks ≡ s.tasks)
  unfolding verify_signature recover_transfer_to_signer_address verify_signature_not_existing
      verify_signer_is_validator_node read_transfer_to_data read_validator_node_signature
  verify_signature-state = ground arith

  -- A call that raises leaves the database and the tasks as they were, and raises the interactor's
  -- general error or one of the four errors that the REST API tells apart.
  pub add_secondary_node_signature-refused :
      (e : Exception)
      → (add_secondary_node_signature env request s).0 ≡ err e
      → ((add_secondary_node_signature env request s).1.database ≡ s.database)
        × ((add_secondary_node_signature env request s).1.tasks ≡ s.tasks)
        × IsSignatureError e
  unfolding add_secondary_node_signature
  add_secondary_node_signature-refused e h = elim (Exec-cases (verify_signature env request s)) [
    | inl (e', s', p) ↦ (
      ground (arith, verify_signature-state),
      ground (arith, verify_signature-state),
      subst IsSignatureError (ground arith) (signature_error-IsSignatureError e'),
    )
    | inr (v, s', p) ↦
        elim (Exec-cases (
          create_validator_node_signature env.engine v.0.internal_transfer_id
            v.0.destination_blockchain (env.forwarder v.0.destination_blockchain) v.1
            request.signature s'.database)) [
              | inl (e', d, q) ↦ (
                ground (
                  arith,
                  verify_signature-state,
                  create_signature-atomic env.engine v.0.internal_transfer_id
                      v.0.destination_blockchain (env.forwarder v.0.destination_blockchain) v.1
                      request.signature s'.database e',
                ),
                ground (arith, verify_signature-state),
                subst IsSignatureError (ground arith) (signature_error-IsSignatureError e'),
              )
              | inr (u, d, q) ↦ absurd (ground arith)
            ]
  ]

  abbrev stored_recovery_request : TransferToDataResponse → TransferToSignerAddressRecoveryRequest
  stored_recovery_request data_ = record {
    source_blockchain = request.source_blockchain;
    source_transaction_id = request.source_transaction_id;
    source_transfer_id = data_.source_transfer_id;
    sender_address = data_.sender_address;
    recipient_address = data_.recipient_address;
    source_token_address = data_.source_token_address;
    destination_token_address = data_.destination_token_address;
    amount = data_.amount;
    validator_nonce = data_.validator_nonce;
    signature = request.signature;
  }

  -- What an accepted request has passed: the transfer is known, the signer is recovered from the
  -- signature of its data, has no signature stored for the transfer, and is registered as a
  -- validator node. The signature is stored, and nothing else is done.
  pub record IsAccepted : Type 0 where
    pub data_ : TransferToDataResponse
    pub signer : String
    pub addresses : List String
    pub world₁ : W
    pub world₂ : W
    pub known :
        (read_transfer_to_data request.source_blockchain request.source_transaction_id s.database).0
        ≡ ok (some data_)
    pub recovered :
        env.client.recover_transfer_to_signer_address data_.destination_blockchain
          (stored_recovery_request data_)
          s.world
        ≡ (reply signer, world₁)
    pub not_stored :
        (read_validator_node_signature data_.internal_transfer_id data_.destination_blockchain
          (env.forwarder data_.destination_blockchain)
          signer
          s.database).0
        ≡ ok none
    pub read_addresses :
        env.client.read_validator_node_addresses data_.destination_blockchain world₁
        ≡ (reply addresses, world₂)
    pub registered : is_validator_node_address signer addresses ≡ true
    pub stored :
        create_validator_node_signature env.engine data_.internal_transfer_id
          data_.destination_blockchain
          (env.forwarder data_.destination_blockchain)
          signer
          request.signature
          s.database
        ≡ (ok tt, (add_secondary_node_signature env request s).1.database)
    pub same_tasks : (add_secondary_node_signature env request s).1.tasks ≡ s.tasks
    pub same_world : (add_secondary_node_signature env request s).1.world ≡ world₂

  -- If `add_secondary_node_signature` ends without an exception, then the transfer is known, the
  -- signer was recovered from the signature and the transfer's data, had no signature stored for
  -- the transfer, and was read to be a validator node on the destination blockchain. Exactly the
  -- call of `create_validator_node_signature` changes the database, and no task is scheduled.
  pub add_secondary_node_signature-accepted :
      (add_secondary_node_signature env request s).0 ≡ ok tt → IsAccepted
  unfolding read_transfer_to_data read_validator_node_signature add_secondary_node_signature
      verify_signature recover_transfer_to_signer_address verify_signature_not_existing
      verify_signer_is_validator_node
  add_secondary_node_signature-accepted h =
      elim (Exec-cases (
        read_transfer_to_data request.source_blockchain request.source_transaction_id s.database)) [
          | inl (e, d, p) ↦ absurd (ground arith)
          | inr (none, d, p) ↦ absurd (ground arith)
          | inr (some data_, d, p) ↦
              elim (Call-cases (
                env.client.recover_transfer_to_signer_address data_.destination_blockchain
                  (stored_recovery_request data_) s.world)) [
                    | inl (f, w, q) ↦ absurd (ground arith)
                    | inr (signer, w₁, q) ↦
                        elim (Call-cases (
                          env.client.read_validator_node_addresses data_.destination_blockchain
                            w₁)) [
                              | inl (f, w, r) ↦ absurd (ground arith)
                              | inr (addresses, w₂, r) ↦ record {
                                data_ = data_;
                                signer = signer;
                                addresses = addresses;
                                world₁ = w₁;
                                world₂ = w₂;
                                known = ground arith;
                                recovered = q;
                                not_stored = ground arith;
                                read_addresses = r;
                                registered = ground arith;
                                stored = ground arith;
                                same_tasks = ground arith;
                                same_world = ground arith;
                              }
                            ]
                  ]
        ]

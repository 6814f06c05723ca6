-- ===== src/Rest/Exchange.antt =====
-- restclient.py against restapi.py: a secondary node's calls of a primary node.
use validatornode.Common.{
  ℕ, String, Bool, true, false, Option, some, ◌≡◌, ◌&&◌, refl, ◌⊎◌, arith, ap, inl, inr,
}
use validatornode.Common.Int.{ℤ, pos}
use validatornode.Exec.{
  Result, ok, err, fault, Exception, assertion_error, primary_node_client_error,
  primary_node_duplicate_signature_error, primary_node_invalid_signature_error,
  primary_node_invalid_signer_error, primary_node_unknown_transfer_error, duplicate_signature_error,
  invalid_signature_error, invalid_signer_error, unknown_transfer_error,
}
use validatornode.Entities.{Blockchain}
use validatornode.Business.Client.{Env}
use validatornode.Business.State.{State}
use validatornode.Business.Signatures.{add_secondary_node_signature}
use validatornode.Business.Transfers.Confirm.{get_validator_nonce}
use validatornode.Rest.Http.{Reply, Response, Delivery, delivered, Request, IsWire}
use validatornode.Rest.Client
use validatornode.Rest.Client.{
  post_transfer_signature, signature_post_result_of, validator_nonce_of,
}
use validatornode.Rest.Server.{
  serve, loaded, post_signature, get_nonce, load_transfer_signature, load_validator_nonce,
  nonce_reply, signature_reply,
}

-- What the secondary node's client is to raise for each outcome of the signature interactor.
abbrev pub remote_error : Exception → Exception
remote_error duplicate_signature_error = fault primary_node_duplicate_signature_error
remote_error invalid_signature_error = fault primary_node_invalid_signature_error
remote_error invalid_signer_error = fault primary_node_invalid_signer_error
remote_error unknown_transfer_error = fault primary_node_unknown_transfer_error
remote_error _ = fault primary_node_client_error

abbrev pub remote_signature : Result (Unit {0}) → Result (Unit {0})
remote_signature (ok a) = ok a
remote_signature (err e) = err (remote_error e)

abbrev pub remote_nonce : Result ℕ → Result ℤ
remote_nonce (ok n) = ok (pos n)
remote_nonce (err unknown_transfer_error) = err (fault primary_node_unknown_transfer_error)
remote_nonce (err _) = err (fault primary_node_client_error)

module _ {W Raw : Type 0} (env : Env W) (integer : Raw → Option ℤ) (string : Raw → Option String)
    (is_valid_transaction_id : Blockchain → String → Result Bool) (send : Reply → Response) where
  -- The request reaches the primary node, and its reply comes back.
  abbrev pub exchange : Request Raw → State W → Delivery × State W
  exchange request s =
      let (reply, s') =
        serve env integer string is_valid_transaction_id request.resource request.arguments s in
      (delivered (send reply), s')

  -- `from_int` and `from_text` make the arguments of a request, of which the blockchain's ID and
  -- the transaction ID are read back as they were.
  module _ (wire : IsWire send) (from_int : ℕ → Raw) (from_text : String → Raw) (b : Blockchain)
      (transaction_id : String) (int_sent : integer (from_int b) ≡ some (pos b))
      (id_sent : string (from_text transaction_id) ≡ some transaction_id) where
    sent_signature :
        (r : Result (Unit {0}))
        → signature_post_result_of (send (signature_reply r)) ≡ remote_signature r
    unfolding signature_post_result_of
    sent_signature (ok tt) = rw wire.no_content_sent refl
    sent_signature (err duplicate_signature_error) = rw wire.conflict_sent refl
    sent_signature (err invalid_signature_error) = rw wire.bad_request_sent refl
    sent_signature (err invalid_signer_error) = rw wire.forbidden_sent refl
    sent_signature (err unknown_transfer_error) = rw wire.not_found_sent refl
    sent_signature (err e) = rw wire.error_sent refl

    sent_nonce : (r : Result ℕ) → validator_nonce_of (send (nonce_reply r)) ≡ remote_nonce r
    unfolding validator_nonce_of
    sent_nonce (ok n) = rw wire.ok_sent refl
    sent_nonce (err unknown_transfer_error) = rw wire.not_found_sent refl
    sent_nonce (err e) = rw wire.error_sent refl

    signature_loaded :
        (signature : String)
        → string (from_text signature) ≡ some signature
        → env.is_blockchain b ≡ true
        → env.is_active b ≡ true
        → is_valid_transaction_id b transaction_id ≡ ok true
        → load_transfer_signature env integer string is_valid_transaction_id
            (Client.transfer_signature_request from_int from_text exchange b transaction_id
              signature).arguments
          ≡ loaded (record {
            source_blockchain = b;
            source_transaction_id = transaction_id;
            signature = signature;
          })
    unfolding load_transfer_signature
    signature_loaded signature signature_sent member active valid =
        ground (arith, int_sent, id_sent, signature_sent)

    nonce_loaded :
        env.is_blockchain b ≡ true
        → env.is_active b ≡ true
        → is_valid_transaction_id b transaction_id ≡ ok true
        → load_validator_nonce env integer string is_valid_transaction_id
            (Client.validator_nonce_request from_int from_text exchange b transaction_id).arguments
          ≡ loaded (b, transaction_id)
    unfolding load_validator_nonce
    nonce_loaded member active valid = ground (arith, int_sent, id_sent)

    -- A secondary node's call of `post_transfer_signature` has the effect of a call of the primary
    -- node's `add_secondary_node_signature`, and its outcome, error by error, if the source
    -- blockchain is active at the primary node, the transaction ID is valid there, the arguments are
    -- read there as they were sent, and the responses have the codes and messages of `IsWire`.
    pub post_transfer_signature-refines :
        (signature : String) (s : State W)
        → string (from_text signature) ≡ some signature
        → env.is_blockchain b ≡ true
        → env.is_active b ≡ true
        → is_valid_transaction_id b transaction_id ≡ ok true
        → let (r, s') =
            add_secondary_node_signature env
              (record {
                source_blockchain = b;
                source_transaction_id = transaction_id;
                signature = signature;
              })
              s in
          post_transfer_signature from_int from_text exchange b transaction_id signature s
          ≡ (remote_signature r, s')
    unfolding post_transfer_signature post_signature
    post_transfer_signature-refines signature s signature_sent member active valid =
        rw (signature_loaded signature signature_sent member active valid) (
          ap
            (λ r. (
              r,
              (add_secondary_node_signature env
                  (record {
                    source_blockchain = b;
                    source_transaction_id = transaction_id;
                    signature = signature;
                  })
                  s).1,
            ))
            (sent_signature _))

    -- A secondary node's call of `get_validator_nonce` returns the nonce that the primary node's
    -- `get_validator_nonce` returns, reports a transfer that is unknown there as unknown and any
    -- other error as the client's general one, and has the same effect, if the source blockchain is
    -- active at the primary node, the transaction ID is valid there, the arguments are read there as
    -- they were sent, and the responses have the codes and messages of `IsWire`.
    pub get_validator_nonce-refines :
        (s : State W)
        → env.is_blockchain b ≡ true
        → env.is_active b ≡ true
        → is_valid_transaction_id b transaction_id ≡ ok true
        → let (r, s') = get_validator_nonce env b transaction_id s in
          Client.get_validator_nonce from_int from_text exchange b transaction_id s
          ≡ (remote_nonce r, s')
    unfolding Client.get_validator_nonce get_nonce
    get_validator_nonce-refines s member active valid =
        rw (nonce_loaded member active valid)
          (ap (λ r. (r, (get_validator_nonce env b transaction_id s).1)) (sent_nonce _))

    -- If the arguments are read at the primary node as they were sent, and the responses have the
    -- codes and messages of `IsWire`, then a call for a blockchain that is not active there, or, on
    -- an active one, with a transaction ID that is not valid there, changes nothing at the primary
    -- node; the secondary node's `post_transfer_signature` then fails by an assertion, not by the
    -- client's own error.
    pub post_transfer_signature-invalid :
        (signature : String) (s : State W)
        → string (from_text signature) ≡ some signature
        → (env.is_blockchain b && env.is_active b ≡ false)
          ⊎ ((env.is_blockchain b && env.is_active b ≡ true)
              × (is_valid_transaction_id b transaction_id ≡ ok false))
        → post_transfer_signature from_int from_text exchange b transaction_id signature s
          ≡ (err assertion_error, s)
    unfolding post_transfer_signature post_signature load_transfer_signature
        signature_post_result_of
    post_transfer_signature-invalid signature s signature_sent (inl h) =
        ground (arith, int_sent, id_sent, signature_sent, wire.messages_sent)
    post_transfer_signature-invalid signature s signature_sent (inr (h, v)) =
        ground (arith, int_sent, id_sent, signature_sent, wire.messages_sent)

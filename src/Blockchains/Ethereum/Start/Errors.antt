-- ===== src/Blockchains/Ethereum/Start/Errors.antt =====
-- blockchains/ethereum.py: what `start_transfer_to_submission` raises, and what it leaves.
use validatornode.Common.{
  ℕ, String, List, true, if◌then◌else◌, contains, ◌==◌, Bool-cases, ◌≡◌, ◌⊎◌, inl, inr, refl, arith,
}
use mathlib.Core.Path.{subst}
use validatornode.Exec.{
  Exception, fault, Call, Result, ok, err, Exec-cases, blockchain_client_error,
  non_matching_forwarder_error, source_transfer_id_already_used_error, results_not_matching_error,
}
use validatornode.Entities.{BlockchainAddress, eventual_destination_blockchain}
use validatornode.Database.Consistency.{IsConsistent}
use validatornode.Business.Client.{TransferToSubmissionStartRequest}
use validatornode.Business.Transfers.Submit.{is_client_error}
use validatornode.Blockchains.Ethereum.Signers.{sort_validator_node_signatures}
use validatornode.Blockchains.Ethereum.Submission.{
  SubmissionState, SubmissionConfig, OnChainTransferToRequest, TransactionSubmissionStartRequest,
  SubmissionReply,
}
use validatornode.Database.Kept.{IsConsistent-IsPreserved}
use validatornode.Blockchains.Ethereum.Start.Kept.{Keeps-start_transfer_to_submission}
use validatornode.Blockchains.Ethereum.Start.{
  VerifyReply, contract_logic_error, start_error, on_chain_request, verify_transfer_to_request,
  start_transfer_to, start_transfer_to_submission,
}

-- The exceptions that the interface allows: those of a client, and the one of pantos.common for
-- results that do not match.
abbrev pub IsClientFault : Exception → Type 0
IsClientFault (fault f) = (is_client_error f ≡ true) ⊎ (f ≡ results_not_matching_error)
IsClientFault _ = ⊥

-- A result, or one of these exceptions.
abbrev pub IsClientResult : {A : Type 0} → Result A → Type 0
IsClientResult (ok a) = Unit
IsClientResult (err e) = IsClientFault e

start_error-IsClientFault : (e : Exception) → IsClientFault (start_error e)
start_error-IsClientFault (fault blockchain_client_error) = inl refl
start_error-IsClientFault (fault results_not_matching_error) = inr refl
start_error-IsClientFault (fault f) = inl refl
start_error-IsClientFault _ = inl refl

module _ {W : Type 0} (config : SubmissionConfig) (count : Call W ℕ)
    (verify : OnChainTransferToRequest → List BlockchainAddress → List String → W → VerifyReply × W)
    (start : TransactionSubmissionStartRequest → W → SubmissionReply × W) where
  -- The submission of a transfer keeps the database consistent, on every branch and beside every
  -- exception, and raises none but a client error or the one for results that do not match.
  pub start_transfer_to_submission-IsClientFault :
      (request : TransferToSubmissionStartRequest) (s : SubmissionState W)
      → IsConsistent s.0
      → IsConsistent (start_transfer_to_submission config count verify start request s).1.0
        × IsClientResult (start_transfer_to_submission config count verify start request s).0
  unfolding start_transfer_to_submission
  start_transfer_to_submission-IsClientFault request s h = (
    (Keeps-start_transfer_to_submission IsConsistent-IsPreserved config count verify start
          request).after
        s h,
    elim (Bool-cases
        (eventual_destination_blockchain request.incoming_transfer == config.blockchain)) [
          | inr other ↦
              let raised : err (fault blockchain_client_error)
                  ≡ (start_transfer_to_submission config count verify start request s).0 =
                ground (arith, other) in
              subst IsClientResult raised (inl refl)
          | inl here ↦ elim (Exec-cases (start_transfer_to config count verify start request s)) [
            | inl (x, s', p) ↦
                let raised : err (start_error x)
                    ≡ (start_transfer_to_submission config count verify start request s).0 =
                  ground (arith, here, p) in
                subst IsClientResult raised (start_error-IsClientFault x)
            | inr (x, s', p) ↦
                let returned : ok x
                    ≡ (start_transfer_to_submission config count verify start request s).0 =
                  ground (arith, here, p) in
                subst IsClientResult returned tt
          ]
        ],
  )

  -- Where the Hub refuses the signed transfer with a text, the database is as before, without a
  -- nonce for the transaction, and the exception is the one for a Forwarder that does not match, for
  -- a source transfer ID in use, or the general one, as the text says.
  pub start_transfer_to_submission-refused :
      (request : TransferToSubmissionStartRequest) (s : SubmissionState W)
      (addresses : List BlockchainAddress) (signatures : List String) (message : String)
      → eventual_destination_blockchain request.incoming_transfer ≡ config.blockchain
      → sort_validator_node_signatures request.validator_node_signatures
        ≡ ok (addresses, signatures)
      → (verify
          (on_chain_request request.incoming_transfer request.validator_nonce)
          addresses
          signatures
          s.1).0
        ≡ contract_logic_error message
      → ((start_transfer_to_submission config count verify start request s).0
          ≡ err (
              fault (
                if contains "PantosHub: Forwarder of Hub and transferred token must match" message
                then non_matching_forwarder_error
                else if contains "PantosHub: source transfer ID already used" message
                then source_transfer_id_already_used_error
                else blockchain_client_error)))
        × ((start_transfer_to_submission config count verify start request s).1.0 ≡ s.0)
  unfolding start_transfer_to_submission start_transfer_to verify_transfer_to_request
  start_transfer_to_submission-refused request s addresses signatures message here sorted refused =
      (ground (arith, sorted, refused, here), ground (arith, sorted, refused, here))

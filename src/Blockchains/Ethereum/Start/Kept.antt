-- ===== src/Blockchains/Ethereum/Start/Kept.antt =====
-- blockchains/ethereum.py: what `start_transfer_to_submission` keeps of the database.
use validatornode.Common.{ℕ, String, List}
use validatornode.Exec.{fault, Call}
use validatornode.Exec.Keeps.{
  Keeps, Keeps->>=, Keeps-catch, Keeps-raise, Keeps-raise_if, Keeps-pure, keeps_rules,
}
use validatornode.Entities.{BlockchainAddress}
use validatornode.Database.Models.{Database}
use validatornode.Database.Kept.{IsPreserved}
use validatornode.Business.Client.{TransferToSubmissionStartRequest}
use validatornode.Blockchains.Ethereum.Submission.{
  SubmissionConfig, OnChainTransferToRequest, TransactionSubmissionStartRequest, SubmissionReply,
  submit_transfer_to_request,
}
use validatornode.Blockchains.Ethereum.Start.{
  VerifyReply, verified, contract_logic_error, unverified, start_error, contract_error, on_verify,
  verify_transfer_to_request, start_transfer_to, start_transfer_to_submission,
}
use validatornode.Blockchains.Ethereum.Submission.Kept.{
  OnDatabase, submit_transfer_to_request-IsKept,
}

module _ {W : Type 0} {Q : Database → Type 0} (k : IsPreserved Q) (config : SubmissionConfig)
    (count : Call W ℕ)
    (verify : OnChainTransferToRequest → List BlockchainAddress → List String → W → VerifyReply × W)
    (start : TransactionSubmissionStartRequest → W → SubmissionReply × W) where
  Keeps-on_verify : (r : VerifyReply) → Keeps (OnDatabase Q) (on_verify config count verify start r)
  Keeps-on_verify verified = Keeps-pure tt
  Keeps-on_verify (contract_logic_error m) = Keeps-raise (contract_error m)
  Keeps-on_verify (unverified f) = Keeps-raise (fault f)

  Keeps-verify :
      (r : OnChainTransferToRequest) (addresses : List BlockchainAddress) (signatures : List String)
      → Keeps
          (OnDatabase Q)
          (verify_transfer_to_request config count verify start r addresses signatures)
  unfolding verify_transfer_to_request
  Keeps-verify r addresses signatures = record {
    after = λ s h.
        (Keeps-on_verify (verify r addresses signatures s.1).0).after
          (s.0, (verify r addresses signatures s.1).1) h;
  }

  Keeps-submit :
      (id : ℕ) (r : OnChainTransferToRequest) (addresses : List BlockchainAddress)
      (signatures : List String)
      → Keeps
          (OnDatabase Q)
          (submit_transfer_to_request config count start id r addresses signatures)
  Keeps-submit id = submit_transfer_to_request-IsKept k config count start id

  Keeps-start_transfer_to :
      (request : TransferToSubmissionStartRequest)
      → Keeps (OnDatabase Q) (start_transfer_to config count verify start request)
  unfolding start_transfer_to
  Keeps-start_transfer_to request = search (Keeps-verify, Keeps-submit, keeps_rules)

  pub Keeps-start_transfer_to_submission :
      (request : TransferToSubmissionStartRequest)
      → Keeps (OnDatabase Q) (start_transfer_to_submission config count verify start request)
  unfolding start_transfer_to_submission
  Keeps-start_transfer_to_submission request =
      Keeps->>= _ _ (Keeps-raise_if _ _)
        (λ _. Keeps-catch _ _ (Keeps-start_transfer_to request) (λ e. Keeps-raise (start_error e)))

-- ===== src/Blockchains/Ethereum/Submission/Kept.antt =====
-- blockchains/ethereum.py: what the submission of a transaction keeps of the database.
use validatornode.Common.{ℕ, String, List}
use validatornode.Exec.{Exec, Call}
use validatornode.Exec.Keeps.{Keeps, Keeps->>=, keeps_rules}
use validatornode.Entities.{BlockchainAddress}
use validatornode.Database.Models.{Database}
use validatornode.Database.Kept.{IsAccess, IsPreserved, access_rules}
use validatornode.Blockchains.Ethereum.Submission.{
  SubmissionState, SubmissionConfig, OnChainTransferToRequest, TransactionSubmissionStartRequest,
  SubmissionReply, submitted, transaction_nonce_too_low, transaction_underpriced, failed,
  on_database, on_world, get_nonce, on_submission, start_submission, submit_transfer_to_request,
}

-- The predicate `Q` of the database in a state of the client.
abbrev pub OnDatabase : {W : Type 0} → (Database → Type 0) → SubmissionState W → Type 0
OnDatabase Q s = Q s.0

module _ {W : Type 0} {Q : Database → Type 0} (k : IsPreserved Q) where
  Keeps-on_database :
      {A : Type 0} (m : Exec Database A) → IsAccess m → Keeps (OnDatabase Q) (on_database {W = W} m)
  Keeps-on_database m a = record { after = λ s h. (k.kept m a).after s.0 h }

  Keeps-on_world : {A : Type 0} (m : Call W A) → Keeps (OnDatabase {W = W} Q) (on_world m)
  Keeps-on_world m = record { after = λ s h. h }

  ruleset submission_rules = (Keeps-on_database, Keeps-on_world, access_rules, keeps_rules)

  module _ (config : SubmissionConfig) (count : Call W ℕ)
      (start : TransactionSubmissionStartRequest → W → SubmissionReply × W) (id : ℕ) where
    Keeps-get_nonce : Keeps (OnDatabase Q) (get_nonce config count start id)
    unfolding get_nonce
    Keeps-get_nonce = search submission_rules

    Keeps-on_submission :
        (r : SubmissionReply) → Keeps (OnDatabase Q) (on_submission config count start id r)
    Keeps-on_submission (submitted x) = search submission_rules
    Keeps-on_submission transaction_nonce_too_low = search submission_rules
    Keeps-on_submission transaction_underpriced = search submission_rules
    Keeps-on_submission (failed f) = search submission_rules

    Keeps-start :
        (request : TransactionSubmissionStartRequest)
        → Keeps (OnDatabase Q) (start_submission config count start id request)
    unfolding start_submission
    Keeps-start request = record {
      after =
          λ s h. (Keeps-on_submission (start request s.1).0).after (s.0, (start request s.1).1) h;
    }

    pub submit_transfer_to_request-IsKept :
        (request : OnChainTransferToRequest) (addresses : List BlockchainAddress)
        (signatures : List String)
        → Keeps
            (OnDatabase Q)
            (submit_transfer_to_request config count start id request addresses signatures)
    unfolding submit_transfer_to_request
    submit_transfer_to_request-IsKept request addresses signatures =
        Keeps->>= _ _ Keeps-get_nonce (λ n. Keeps-start _)

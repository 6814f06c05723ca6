-- ===== src/Business/Kept/Submit.antt =====
-- Both submissions, which may schedule a confirmation or each other.
use validatornode.Common.{ℕ, String, true, Option, none, some, refl, [], ◌∷◌, str_eq}
use validatornode.Exec.{
  skip, Exception, Result, ok, err, fault, primary_node_duplicate_signature_error,
  permanent_transfer_submission_error, transfer_interactor_error,
}
use validatornode.Exec.Keeps.{Keeps, Keeps->>=, Keeps-if, Keeps-then, Keeps-raise, Keeps-pure}
use validatornode.Entities.{eventual_destination_blockchain, CrossChainTransfer}
use validatornode.Database.Access.Signatures.{
  Signatures, create_validator_node_signature, read_validator_node_signature,
}
use validatornode.Business.Client.{Env, TaskName, TransferToSubmissionStartRequest}
use validatornode.Database.Models.{Database}
use validatornode.Database.Kept.{IsAccess}
use validatornode.Database.Kept.{read_validator_node_signature-IsAccess}
use validatornode.Business.Kept.{IsKept, method_rules}
use validatornode.Business.State.{State, db, call, call_db, schedule_task}
use validatornode.Exec.{Exec, Call, Result, ok}
use validatornode.Business.Transfers.Submit.{
  store_validator_node_signature, sign, add_primary_node_signature, on_recovery, recover_signer,
  count_valid_signatures, sufficient_secondary_node_signatures, submit_transaction,
  record_submission, on_submission_error, submit_with_signatures, submit_transfer_onchain_body,
  submit_transfer_onchain, on_post_error, submit_signature, submit_transfer_to_primary_node,
}

module _ {W : Type 0} (env : Env W) {P : State W → Type 0} {Good : CrossChainTransfer → Type 0}
    (k : IsKept env P Good) where
  Kept-db : {A : Type 0} (m : Exec Database A) → IsAccess m → Keeps P (db m)
  Kept-db = k.on_db

  Kept-call : {A : Type 0} (m : Call W A) → Keeps P (call m)
  Kept-call = k.on_call

  ruleset kept_rules = (Kept-db, Kept-call, method_rules)

  Kept-start :
      (b : ℕ) (r : TransferToSubmissionStartRequest)
      → Keeps P (call_db (env.client.start_transfer_to_submission b r))
  Kept-start = k.on_start

  Kept-store : (id b : ℕ) (f a x : String) → Keeps P (store_validator_node_signature env id b f a x)
  unfolding store_validator_node_signature
  Kept-store id b f a x =
      Keeps->>= _ _
        (Kept-db (read_validator_node_signature id b f a)
          (read_validator_node_signature-IsAccess id b f a))
        (λ o.
          elim o
            as (λ o. Keeps {A = Unit {0}} P (elim o [
              | none ↦ db (create_validator_node_signature env.engine id b f a x)
              | some _ ↦ skip
            ])) [ none ↦ search kept_rules | some y ↦ Keeps-pure tt ])

  Kept-sign : (t : CrossChainTransfer) (nonce : ℕ) → Keeps P (sign env t nonce)
  unfolding sign
  Kept-sign t nonce = search kept_rules

  Kept-recovery :
      (b : ℕ) (a : String) (n : ℕ) (r : Result String) → Keeps P (on_recovery env b a n r)
  Kept-recovery b a n (ok x) = search kept_rules depth 8
  Kept-recovery b a n (err (fault f)) = search kept_rules depth 8
  Kept-recovery b a n (err e) = Keeps-raise e

  Kept-submission_error : (e : Exception) → Keeps P (on_submission_error env e)
  Kept-submission_error permanent_transfer_submission_error = Keeps-pure true
  Kept-submission_error _ = Keeps-raise transfer_interactor_error

  Kept-post_error : (e : Exception) → Keeps P (on_post_error env e)
  Kept-post_error (fault primary_node_duplicate_signature_error) = Keeps-pure tt
  Kept-post_error e = Keeps-raise e

  module _ (t : CrossChainTransfer) (nonce : ℕ) where
    Kept-recover : (x : String) → Keeps P (recover_signer env t nonce x)
    unfolding recover_signer
    Kept-recover x = search kept_rules

    Kept-signer :
        (a x : String) (n : ℕ)
        → Keeps P (λ s.
          let (r, s') = recover_signer env t nonce x s in
          on_recovery env (eventual_destination_blockchain t) a n r s')
    Kept-signer a x n =
        Keeps-then (recover_signer env t nonce x)
          (on_recovery env (eventual_destination_blockchain t) a n) (Kept-recover x)
          (Kept-recovery (eventual_destination_blockchain t) a n)

    Kept-count :
        (signatures : Signatures) (n : ℕ)
        → Keeps P (count_valid_signatures env t nonce signatures n)
    unfolding count_valid_signatures
    Kept-count [] n = Keeps-pure n
    Kept-count ((a, x) ∷ rest) n =
        Keeps->>= _ _
          (Keeps-if (str_eq a (env.client.get_own_address (eventual_destination_blockchain t))) _ _
            (Keeps-pure n) (Kept-signer a x n))
          (λ valid. Kept-count rest valid)

    Kept-sufficient :
        (signatures : Signatures)
        → Keeps P (sufficient_secondary_node_signatures env t nonce signatures)
    unfolding sufficient_secondary_node_signatures
    Kept-sufficient signatures = search (Kept-count, kept_rules) depth 10

    Kept-add :
        (signatures : Signatures) → Keeps P (add_primary_node_signature env signatures t nonce)
    unfolding add_primary_node_signature
    Kept-add signatures = search kept_rules depth 10

  module _ (id : ℕ) (t : CrossChainTransfer) (good : Good t) where
    Kept-confirmation :
        (x : String) → Keeps P (schedule_task env TaskName.confirm_transfer id t (some x))
    Kept-confirmation x = k.on_schedule TaskName.confirm_transfer id t (some x) good (x, refl)

    Kept-other :
        Keeps P (schedule_task env TaskName.submit_transfer_to_primary_node id t Option.none)
    Kept-other = k.on_schedule TaskName.submit_transfer_to_primary_node id t Option.none good tt

    Kept-onchain : Keeps P (schedule_task env TaskName.submit_transfer_onchain id t Option.none)
    Kept-onchain = k.on_schedule TaskName.submit_transfer_onchain id t Option.none good tt

    Kept-transaction :
        (nonce : ℕ) (signatures : Signatures)
        → Keeps P (submit_transaction env id t nonce signatures)
    unfolding submit_transaction
    Kept-transaction nonce signatures = search (Kept-start, kept_rules) depth 10

    Kept-record : (x : String) → Keeps P (record_submission env id t x)
    unfolding record_submission
    Kept-record x = search (Kept-store, kept_rules) depth 10

    Kept-with_signatures :
        (nonce : ℕ) (signatures : Signatures)
        → Keeps P (submit_with_signatures env id t nonce signatures)
    unfolding submit_with_signatures
    Kept-with_signatures nonce signatures =
        search (Kept-confirmation, Kept-add, Kept-transaction, Kept-record, kept_rules) depth 12

    Kept-body : Keeps P (submit_transfer_onchain_body env id t)
    unfolding submit_transfer_onchain_body
    Kept-body = search (Kept-sufficient, Kept-with_signatures, kept_rules) depth 12

    pub submit_transfer_onchain-IsKept : Keeps P (submit_transfer_onchain env id t)
    unfolding submit_transfer_onchain
    submit_transfer_onchain-IsKept =
        search (Kept-other, Kept-body, Kept-submission_error, kept_rules) depth 10

    Kept-signature : Keeps P (submit_signature env id t)
    unfolding submit_signature
    Kept-signature = search (Kept-record, Kept-post_error, Kept-sign, kept_rules) depth 12

    pub submit_transfer_to_primary_node-IsKept : Keeps P (submit_transfer_to_primary_node env id t)
    unfolding submit_transfer_to_primary_node
    submit_transfer_to_primary_node-IsKept =
        search (Kept-onchain, Kept-signature, kept_rules) depth 10

-- ===== src/Business/Kept/Validate.antt =====
-- `validate_transfer`, which schedules the submission of the transfer that it has found.
use validatornode.Common.{
  ℕ, Bool, true, false, Option, none, some, List, [], ◌∷◌, if◌then◌else◌, ◌≡◌, arith, inl, inr,
}
use validatornode.Exec.{
  Exception, permanent_transfer_validation_error, transitory_transfer_validation_error,
  transfer_interactor_error, ok, ◌>>=◌, ◌>>◌, Exec-cases, Call-cases,
}
use validatornode.Exec.Keeps.{Keeps, Keeps->>=, Keeps-from, Keeps-raise, Keeps-pure}
use validatornode.Entities.{CrossChainTransfer}
use validatornode.Business.Client.{
  Env, TaskName, TransactionStatus, unincluded, unconfirmed, confirmed, reverted,
}
use validatornode.Database.Models.{Database}
use validatornode.Database.Kept.{IsAccess}
use validatornode.Business.Kept.{IsKept, SameBlockchains, method_rules}
use validatornode.Business.State.{State, db, call, schedule_task}
use validatornode.Exec.{Exec, Call, ok}
use validatornode.Business.Transfers.Validate.{
  on_source_status, validate_source_transaction_status, on_search,
  validate_transfer_in_source_transaction, validate_source_token_registration,
  validate_destination_blockchain_feasibility, check_destination,
  validate_transfer_recipient_address, validate_destination_token_registration,
  validate_token_addresses, validate_token_decimals, or_reversal, on_validation_error,
  schedule_submission, validation, validate_transfer, with_source_of, find_in_transaction,
}

module _ {W : Type 0} (env : Env W) {P : State W → Type 0} {Good : CrossChainTransfer → Type 0}
    (k : IsKept env P Good) where
  Kept-db : {A : Type 0} (m : Exec Database A) → IsAccess m → Keeps P (db m)
  Kept-db = k.on_db

  Kept-call : {A : Type 0} (m : Call W A) → Keeps P (call m)
  Kept-call = k.on_call

  ruleset kept_rules = (Kept-db, Kept-call, method_rules)

  Kept-source_status :
      (id : ℕ) (status : TransactionStatus) → Keeps P (on_source_status env id status)
  Kept-source_status id unincluded = Keeps-raise transitory_transfer_validation_error
  Kept-source_status id unconfirmed = Keeps-raise transitory_transfer_validation_error
  Kept-source_status id reverted = search kept_rules depth 8
  Kept-source_status id confirmed = Keeps-pure tt

  Kept-search : (id : ℕ) (o : Option CrossChainTransfer) → Keeps P (on_search env id o)
  Kept-search id none = Keeps-raise transfer_interactor_error
  Kept-search id (some t) = search kept_rules depth 8

  Kept-reversal : (t : CrossChainTransfer) (e : Exception) → Keeps P (or_reversal env t e)
  Kept-reversal t permanent_transfer_validation_error = search kept_rules
  Kept-reversal t _ = search kept_rules

  Kept-validation_error : (e : Exception) → Keeps P (on_validation_error env e)
  Kept-validation_error permanent_transfer_validation_error = Keeps-pure true
  Kept-validation_error transitory_transfer_validation_error = Keeps-pure false
  Kept-validation_error e = Keeps-raise e

  ruleset branches =
      (Kept-source_status, Kept-search, Kept-reversal, Kept-validation_error, kept_rules)

  module _ (id : ℕ) (t : CrossChainTransfer) where
    Kept-source_transaction : Keeps P (validate_source_transaction_status env id t)
    unfolding validate_source_transaction_status
    Kept-source_transaction = search branches depth 8

    Kept-in_source : Keeps P (validate_transfer_in_source_transaction env id t)
    unfolding validate_transfer_in_source_transaction
    Kept-in_source = search branches depth 8

    Kept-source_token : Keeps P (validate_source_token_registration env id t)
    unfolding validate_source_token_registration
    Kept-source_token = search branches depth 10

    Kept-destination : Keeps P (check_destination env t)
    unfolding check_destination validate_transfer_recipient_address
        validate_destination_token_registration validate_token_addresses validate_token_decimals
    Kept-destination = search branches depth 16

    Kept-feasibility : Keeps P (validate_destination_blockchain_feasibility env t)
    unfolding validate_destination_blockchain_feasibility
    Kept-feasibility = search (Kept-destination, branches) depth 8

  ruleset checks =
      (Kept-source_transaction, Kept-in_source, Kept-source_token, Kept-feasibility, branches)

  module _ (id : ℕ) (t : CrossChainTransfer) (good : Good t) where
    Kept-task :
        (primary : Bool)
        → Keeps P (
            schedule_task env
              (if primary
                then TaskName.submit_transfer_onchain
                else TaskName.submit_transfer_to_primary_node)
              id
              t
              Option.none)
    Kept-task true = k.on_schedule TaskName.submit_transfer_onchain id t Option.none good tt
    Kept-task false =
        k.on_schedule TaskName.submit_transfer_to_primary_node id t Option.none good tt

    Kept-submission : Keeps P (schedule_submission env id t)
    unfolding schedule_submission
    Kept-submission = search (Kept-task, branches) depth 8

  find_in_transaction-same :
      (t t' : CrossChainTransfer) (l : List CrossChainTransfer)
      → find_in_transaction t l ≡ some t'
      → SameBlockchains t t'
  unfolding find_in_transaction with_source_of
  find_in_transaction-same t t' [] h = cc
  find_in_transaction-same t t' (u ∷ l) h =
      let rest = find_in_transaction-same (with_source_of t u) t' l in
      (ground (arith, rest), ground (arith, rest))

  in_source-same :
      (id : ℕ) (t t' : CrossChainTransfer) (s s' : State W)
      → validate_transfer_in_source_transaction env id t s ≡ (ok t', s')
      → SameBlockchains t t'
  unfolding validate_transfer_in_source_transaction
  in_source-same id t t' s s' h =
      elim (Call-cases (
        env.client.read_outgoing_transfers_in_transaction t.source_blockchain
          t.source_transaction_id t.source_hub_address s.world)) [
            | inl (f, w, e) ↦ absurd (ground (arith, h, e))
            | inr (l, w, e) ↦
                let same = find_in_transaction-same t t' l in
                (ground (arith, h, e, same), ground (arith, h, e, same))
          ]

  or_reversal-same :
      (t t' : CrossChainTransfer) (x : Exception) (s s' : State W)
      → or_reversal env t x s ≡ (ok t', s')
      → SameBlockchains t t'
  or_reversal-same t t' permanent_transfer_validation_error s s' h =
      (ground (arith, h), ground (arith, h))
  or_reversal-same t t' _ s s' h = absurd (ground (arith, h))

  feasibility-same :
      (t t' : CrossChainTransfer) (s s' : State W)
      → validate_destination_blockchain_feasibility env t s ≡ (ok t', s')
      → SameBlockchains t t'
  unfolding validate_destination_blockchain_feasibility
  feasibility-same t t' s s' h = elim (Exec-cases (check_destination env t s)) [
    | inl (x, s₁, e) ↦ or_reversal-same t t' x s₁ s' (ground (arith, h, e))
    | inr (u, s₁, e) ↦ (ground (arith, h, e), ground (arith, h, e))
  ]

  module _ (id : ℕ) (t : CrossChainTransfer) (good : Good t) where
    Kept-feasible :
        (found : CrossChainTransfer)
        → Good found
        → Keeps P (
            validate_destination_blockchain_feasibility env found >>= λ feasible.
            schedule_submission env id feasible)
    Kept-feasible found p =
        Keeps-from Good _ _ (Kept-feasibility id found)
          (λ s t' s' e. k.good_same found t' (feasibility-same found t' s s' e) p)
          (λ t' q. Kept-submission id t' q)

    Kept-found : Keeps P (
        validate_transfer_in_source_transaction env id t >>= λ found.
        validate_source_token_registration env id found
        >> (validate_destination_blockchain_feasibility env found >>= λ feasible.
            schedule_submission env id feasible))
    Kept-found =
        Keeps-from Good _ _ (Kept-in_source id t)
          (λ s t' s' e. k.good_same t t' (in_source-same id t t' s s' e) good)
          (λ t' q. Keeps->>= _ _ (Kept-source_token id t') (λ _. Kept-feasible t' q))

    Kept-validation : Keeps P (validation env id t)
    unfolding validation
    Kept-validation = search (Kept-found, checks) depth 12

    pub validate_transfer-IsKept : Keeps P (validate_transfer env id t)
    unfolding validate_transfer
    validate_transfer-IsKept = search (Kept-validation, checks) depth 8

-- ===== src/Business/Kept/Confirm.antt =====
-- `confirm_transfer`, which may schedule a validation.
use validatornode.Common.{ℕ, String, Option, some}
use validatornode.Exec.{
  transfer_interactor_error, assertion_error, unresolvable_transfer_to_submission_error, Result, ok,
  Exec, Call, err, fault,
}
use validatornode.Exec.Keeps.{
  Keeps, Keeps->>=, Keeps-catch, Keeps-then, Keeps-assert, Keeps-raise, keeps_rules,
}
use validatornode.Entities.{eventual_destination_blockchain, CrossChainTransfer}
use validatornode.Business.Client.{
  Env, TaskName, TransferToSubmissionStatusResponse, TransactionStatus, confirmed, reverted,
}
use validatornode.Business.State.{State, db, call, schedule_task}
use validatornode.Database.Models.{Database}
use validatornode.Database.Kept.{IsAccess}
use validatornode.Business.Kept.{IsKept, method_rules}
use validatornode.Business.Transfers.Confirm.{
  get_validator_nonce, on_status, restart_validation, record_confirmation, on_response, on_reply,
  confirm_transfer,
}

module _ {W : Type 0} (env : Env W) {P : State W → Type 0} {Good : CrossChainTransfer → Type 0}
    (k : IsKept env P Good) where
  Kept-db : {A : Type 0} (m : Exec Database A) → IsAccess m → Keeps P (db m)
  Kept-db = k.on_db

  Kept-call : {A : Type 0} (m : Call W A) → Keeps P (call m)
  Kept-call = k.on_call

  ruleset kept_rules = (Kept-db, Kept-call, method_rules)

  pub get_validator_nonce-IsKept : (b : ℕ) (x : String) → Keeps P (get_validator_nonce env b x)
  unfolding get_validator_nonce
  get_validator_nonce-IsKept b x = search kept_rules depth 8

  module _ (id : ℕ) (t : CrossChainTransfer) (good : Good t) where
    Kept-validation : Keeps P (schedule_task env TaskName.validate_transfer id t Option.none)
    Kept-validation = k.on_schedule TaskName.validate_transfer id t Option.none good tt

    Kept-restart : Keeps P (restart_validation env id t)
    unfolding restart_validation
    Kept-restart = search (Kept-validation, kept_rules) depth 12

    Kept-record :
        (r : TransferToSubmissionStatusResponse) → Keeps P (record_confirmation env id t r)
    unfolding record_confirmation
    Kept-record r = search kept_rules depth 12

    Kept-on_status :
        (r : TransferToSubmissionStatusResponse) (status : Option TransactionStatus)
        → Keeps P (on_status env id t r status)
    Kept-on_status r (some reverted) = search (Kept-restart, keeps_rules) depth 6
    Kept-on_status r (some confirmed) = Kept-record r
    Kept-on_status r _ = Keeps-raise assertion_error

    Kept-on_response : (r : TransferToSubmissionStatusResponse) → Keeps P (on_response env id t r)
    unfolding on_response
    Kept-on_response r = search (Kept-on_status, keeps_rules) depth 6

    Kept-on_reply : (r : Result TransferToSubmissionStatusResponse) → Keeps P (on_reply env id t r)
    Kept-on_reply (ok r) = Kept-on_response r
    Kept-on_reply (err (fault unresolvable_transfer_to_submission_error)) =
        search (Kept-restart, keeps_rules) depth 6
    Kept-on_reply (err e) = Keeps-raise e

    pub confirm_transfer-IsKept : (x : String) → Keeps P (confirm_transfer env id x t)
    unfolding confirm_transfer
    confirm_transfer-IsKept x =
        let status =
          call
            (env.client.get_transfer_to_submission_status (eventual_destination_blockchain t) x) in
        Keeps-catch _ _
          (Keeps->>= _ _ (Keeps-assert (env.is_active (eventual_destination_blockchain t))) (λ _.
            Keeps-then status (on_reply env id t)
              (k.on_call (
                env.client.get_transfer_to_submission_status (eventual_destination_blockchain t) x))
              Kept-on_reply))
          (λ _. Keeps-raise transfer_interactor_error)

-- ===== src/Business/Transfers/Submit/Failure.antt =====
-- `__submit_transaction` where the submission cannot be started.
use validatornode.Common.{ℕ, true, false, ◌≡◌, ◌≢◌, ◌⊎◌, refl, arith, inl, inr, Bool-cases}
use validatornode.Exec.{
  Exception, Fault, fault, err, failure, non_matching_forwarder_error,
  source_transfer_id_already_used_error, permanent_transfer_submission_error,
}
use validatornode.Entities.{CrossChainTransfer, eventual_destination_blockchain}
use validatornode.Database.Models.{
  Database, Transfer, value, source_reversal_transaction_failed, destination_transaction_failed,
}
use validatornode.Database.Access.Signatures.{Signatures}
use validatornode.Database.Rows.{HasRow, update_transfer_status-HasRow}
use validatornode.Business.Client.{Env}
use validatornode.Business.State.{State}
use validatornode.Business.Transfers.Submit.{failed_status, submission_error, submit_transaction}

-- The failures after which a submission is not tried again.
abbrev pub IsPermanent : Fault → Type 0
IsPermanent f = (f ≡ non_matching_forwarder_error) ⊎ (f ≡ source_transfer_id_already_used_error)

-- The error for a failure of the client.
abbrev pub IsReported : Fault → Exception → Type 0
IsReported f e =
    (IsPermanent f × (e ≡ permanent_transfer_submission_error))
    ⊎ ((¬ IsPermanent f) × (e ≡ fault f))

-- The status of the record afterwards, by the kind of the transfer.
abbrev pub IsFailedStatus : CrossChainTransfer → ℕ → Type 0
IsFailedStatus t n =
    ((t.is_reversal_transfer ≡ true) × (n ≡ value source_reversal_transaction_failed))
    ⊎ ((t.is_reversal_transfer ≡ false) × (n ≡ value destination_transaction_failed))

failed_status-IsFailedStatus : (t : CrossChainTransfer) → IsFailedStatus t (value (failed_status t))
failed_status-IsFailedStatus t = elim (Bool-cases t.is_reversal_transfer) [
  | inl e ↦ inl (e, ground (arith, e))
  | inr e ↦ inr (e, ground (arith, e))
]

temporary :
    (f : Fault)
    → f ≢ non_matching_forwarder_error
    → f ≢ source_transfer_id_already_used_error
    → ¬ IsPermanent f
temporary f p q (inl e) = p e
temporary f p q (inr e) = q e

module _ {W : Type 0} (env : Env W) (id : ℕ) (t : CrossChainTransfer) where
  submission_error-IsReported : (f : Fault) → IsReported f (submission_error env (fault f))
  submission_error-IsReported non_matching_forwarder_error = inl (inl refl, refl)
  submission_error-IsReported source_transfer_id_already_used_error = inl (inr refl, refl)
  submission_error-IsReported f = inr (temporary f (cc) (cc), refl)

  -- If the client fails to start the submission, leaving one record of the transfer, then this
  -- record has afterwards the failed status of a reversal or of a transfer to the destination, the
  -- error is the permanent one exactly for a Forwarder that does not match or a source transfer ID
  -- that is in use and is the client's error otherwise, and no task is scheduled.
  pub submit_transaction-fails :
      (nonce : ℕ) (signatures : Signatures) (s : State W) (f : Fault) (d : Database) (w : W)
      (row : Transfer)
      → env.client.start_transfer_to_submission
          (eventual_destination_blockchain t)
          (record {
            internal_transfer_id = id;
            incoming_transfer = t;
            validator_nonce = nonce;
            validator_node_signatures = signatures;
          })
          (s.database, s.world)
        ≡ (failure f, (d, w))
      → HasRow id row d
      → (e : Exception) × (n : ℕ) × ((submit_transaction env id t nonce signatures s).0 ≡ err e)
        × IsReported f e
        × HasRow id
            (record row { status_id = n })
            (submit_transaction env id t nonce signatures s).1.database
        × IsFailedStatus t n
        × ((submit_transaction env id t nonce signatures s).1.tasks ≡ s.tasks)
  unfolding submit_transaction
  submit_transaction-fails nonce signatures s f d w row e h =
      let written = update_transfer_status-HasRow id row d h (failed_status t) in
      (
        submission_error env (fault f),
        value (failed_status t),
        ground (arith, written),
        submission_error-IsReported f,
        ground (arith, written),
        failed_status-IsFailedStatus t,
        ground (arith, written),
      )

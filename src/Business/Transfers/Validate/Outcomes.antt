-- ===== src/Business/Transfers/Validate/Outcomes.antt =====
-- `validate_transfer` where the source transaction is not confirmed.
use validatornode.Common.{ℕ, true, false, ◌≡◌, arith, inl, inr, ◌⊎◌}
use validatornode.Exec.{ok, reply}
use validatornode.Entities.{CrossChainTransfer}
use validatornode.Database.Models.{Transfer, value, source_transaction_reverted}
use validatornode.Database.Rows.{HasRow, update_transfer_status-HasRow}
use validatornode.Business.Client.{Env, TransactionStatus, unincluded, unconfirmed, reverted}
use validatornode.Business.State.{State}
use validatornode.Business.Transfers.Validate.{
  validate_transfer, validation, validate_source_transaction_status,
}

module _ {W : Type 0} (env : Env W) (id : ℕ) (t : CrossChainTransfer) (s : State W) (w : W)
    (source_active : env.is_active t.source_blockchain ≡ true)
    (destination_active : env.is_active t.destination_blockchain ≡ true) where
  abbrev ReadsStatus : TransactionStatus → Type 0
  ReadsStatus status =
      env.client.read_transaction_status t.source_blockchain t.source_transaction_id s.world
      ≡ (reply status, w)

  -- While the source transaction is not included in a block, or not confirmed yet, the validation
  -- returns False and changes nothing but the world outside.
  pub validate_transfer-waits :
      (status : TransactionStatus)
      → (status ≡ unincluded) ⊎ (status ≡ unconfirmed)
      → ReadsStatus status
      → validate_transfer env id t s ≡ (ok false, record s { world = w })
  unfolding validate_transfer validation validate_source_transaction_status
  validate_transfer-waits status (inl u) e = ground arith
  validate_transfer-waits status (inr u) e = ground arith

  -- If the source transaction was reverted, the validation returns True, gives the transfer's
  -- record the status SOURCE_TRANSACTION_REVERTED and changes nothing else in it, and schedules no
  -- task.
  pub validate_transfer-reverts :
      (row : Transfer)
      → ReadsStatus reverted
      → HasRow id row s.database
      → ((validate_transfer env id t s).0 ≡ ok true)
        × HasRow id
            (record row { status_id = value source_transaction_reverted })
            (validate_transfer env id t s).1.database
        × ((validate_transfer env id t s).1.tasks ≡ s.tasks)
  unfolding validate_transfer validation validate_source_transaction_status
  validate_transfer-reverts row e h =
      let written = update_transfer_status-HasRow id row s.database h source_transaction_reverted in
      (ground (arith, written), ground (arith, written), ground (arith, written))

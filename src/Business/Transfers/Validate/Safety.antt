-- ===== src/Business/Transfers/Validate/Safety.antt =====
-- `validate_transfer` and what it has read of the source blockchain.
use validatornode.Common.{
  ℕ, Bool, true, none, List, [], ◌∷◌, ◌++◌, ◌≡◌, ◌≢◌, refl, inl, inr, sym, ap,
}
use mathlib.Core.Path.{subst}
use mathlib.Core.List.{Mem}
use validatornode.Exec.{reply}
use validatornode.Entities.{CrossChainTransfer}
use validatornode.Business.Client.{Env, confirmed}
use validatornode.Business.State.{State}
use validatornode.Business.Transfers.Tasks.Schedule.{scheduled_task}
use validatornode.Business.Transfers.Validate.{
  validate_transfer, validate_transfer_in_source_transaction, validate_source_token_registration,
}
use validatornode.Business.Transfers.Validate.Source.{
  IsSourceOf, in_source_found, source_token_active,
}
use validatornode.Business.Transfers.Validate.Scheduling.{
  IsDecided, submission_task, validate_transfer-IsScheduled,
}

module _ {W : Type 0} (env : Env W) (id : ℕ) where
  -- What the node has read of the source blockchain, one read after another, before it submits
  -- transfer `t`: its transaction is confirmed, `found` stands among the transfers of that
  -- transaction, and the token of `found` is active. The task is for `found`, or its reversal.
  pub record IsSourceValid (t : CrossChainTransfer) (s : State W) : Type 0 where
    pub found : CrossChainTransfer
    pub transfers : List CrossChainTransfer
    pub world₁ : W
    pub world₂ : W
    pub world₃ : W
    pub confirmed_transaction :
        env.client.read_transaction_status t.source_blockchain t.source_transaction_id s.world
        ≡ (reply confirmed, world₁)
    pub read_transfers :
        env.client.read_outgoing_transfers_in_transaction t.source_blockchain
          t.source_transaction_id t.source_hub_address world₁
        ≡ (reply transfers, world₂)
    pub is_among : Mem found transfers
    pub same_transfer : IsSourceOf t found
    pub active_token :
        env.client.is_token_active found.source_blockchain found.source_token_address world₂
        ≡ (reply true, world₃)
    pub reversal : Bool
    pub queued :
        (validate_transfer env id t s).1.tasks
        ≡ s.tasks
          ++ scheduled_task env
              (submission_task env id)
              id
              (record found { is_reversal_transfer = reversal })
              none
            ∷ []

  decided :
      (found feasible : CrossChainTransfer) (s : State W)
      → IsDecided env id found s feasible
      → feasible ≡ record found { is_reversal_transfer = feasible.is_reversal_transfer }
  decided found feasible s (inl (_, e)) =
      subst (λ v. v ≡ record found { is_reversal_transfer = v.is_reversal_transfer }) (sym e) refl
  decided found feasible s (inr (_, e)) =
      subst (λ v. v ≡ record found { is_reversal_transfer = v.is_reversal_transfer }) (sym e) refl

  -- If the validation of a transfer changes the scheduled tasks, then the source transaction has been
  -- read as confirmed, a transfer has been found in the list that was read of the transaction, and
  -- its source token has been read as active. The transfer that was found is the validated one, of
  -- which at most the ID on the source blockchain and the block's number and hash are read anew, and
  -- exactly one task is scheduled, the submission by the role of the node, for the transfer that was
  -- found or for its reversal.
  pub validate_transfer-IsSourceValid :
      (t : CrossChainTransfer) (s : State W)
      → (validate_transfer env id t s).1.tasks ≢ s.tasks
      → IsSourceValid t s
  validate_transfer-IsSourceValid t s changed =
      let v = validate_transfer-IsScheduled env id t s changed in
      let searched = (validate_transfer_in_source_transaction env id t v.read).1 in
      let (l, read, among, same) = in_source_found env id t v.read v.found v.found_in_source in
      record {
        found = v.found;
        transfers = l;
        world₁ = v.read.world;
        world₂ = searched.world;
        world₃ = (validate_source_token_registration env id v.found searched).1.world;
        confirmed_transaction = v.confirmed_transaction;
        read_transfers = read;
        is_among = among;
        same_transfer = same;
        active_token = source_token_active env id v.found searched (ap (λ r. r.0) v.source_checked);
        reversal = v.feasible.is_reversal_transfer;
        queued =
            subst
              (λ f.
                (validate_transfer env id t s).1.tasks
                ≡ s.tasks ++ scheduled_task env (submission_task env id) id f none ∷ [])
              (decided v.found v.feasible v.checked v.decision) v.queued;
      }

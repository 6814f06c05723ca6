-- ===== src/Business/Transfers/Validate/Source.antt =====
-- The search of a transfer in its source transaction, and what the source checks leave behind.
use validatornode.Common.{
  ℕ, true, some, List, [], ◌∷◌, any, ◌≡◌, ◌⊎◌, refl, arith, inl, inr, Bool-cases, sym,
}
use mathlib.Core.Path.{subst}
use mathlib.Core.List.{Mem, mem-cons_self, mem-cons_of_mem}
use validatornode.Entities.Equality.{transfer_eq_sound}
use validatornode.Exec.{ok, reply, Call-cases, Exec-cases}
use validatornode.Entities.{CrossChainTransfer, transfer_eq}
use validatornode.Business.Client.{Env, confirmed}
use validatornode.Business.State.{State}
use validatornode.Business.Transfers.Validate.{
  validate_transfer, validation, with_source_of, find_in_transaction,
  validate_source_transaction_status, validate_transfer_in_source_transaction,
  validate_source_token_registration, validate_destination_blockchain_feasibility,
  check_destination, validate_transfer_recipient_address, validate_destination_token_registration,
  validate_token_addresses, validate_token_decimals,
}

-- The transfer `found` is `t`, but for what may be read anew of its source transaction.
abbrev pub IsSourceOf : CrossChainTransfer → CrossChainTransfer → Type 0
IsSourceOf t found = found ≡ record t {
  source_transfer_id = found.source_transfer_id;
  source_block_number = found.source_block_number;
  source_block_hash = found.source_block_hash;
}

any-Mem :
    (t : CrossChainTransfer) (l : List CrossChainTransfer)
    → any (λ u. transfer_eq t u) l ≡ true
    → Mem t l
any-Mem t [] h = cc
any-Mem t (u ∷ l) h = elim (Bool-cases (transfer_eq t u)) [
  | inl e ↦ subst (λ v. Mem t (v ∷ l)) (transfer_eq_sound t u e) mem-cons_self
  | inr e ↦ mem-cons_of_mem u (any-Mem t l (ground (arith, h, e)))
]

-- The loop ends with a transfer of the list, in which the rest of `t` is unchanged.
find_in_transaction-found :
    (t t' : CrossChainTransfer) (l : List CrossChainTransfer)
    → find_in_transaction t l ≡ some t'
    → Mem t' l × IsSourceOf t t'
unfolding find_in_transaction with_source_of
find_in_transaction-found t t' [] h = cc
find_in_transaction-found t t' (u ∷ l) h = elim (Bool-cases (transfer_eq (with_source_of t u) u)) [
  | inl e ↦
      let same : with_source_of t u ≡ t' = ground (arith, h, e) in
      subst (λ v. Mem v (u ∷ l) × IsSourceOf t v) same
        (
          subst (λ v. Mem (with_source_of t u) (v ∷ l)) (transfer_eq_sound _ u e) mem-cons_self,
          refl,
        )
  | inr e ↦
      let (m, data_) = find_in_transaction-found (with_source_of t u) t' l (ground (arith, h, e)) in
      (mem-cons_of_mem u m, data_)
]

module _ {W : Type 0} (env : Env W) (id : ℕ) (t : CrossChainTransfer) (s : State W) where
  pub source_status_tasks : (validate_source_transaction_status env id t s).1.tasks ≡ s.tasks
  unfolding validate_source_transaction_status
  source_status_tasks = ground arith

  pub source_status_confirmed :
      (validate_source_transaction_status env id t s).0 ≡ ok tt
      → env.client.read_transaction_status t.source_blockchain t.source_transaction_id s.world
        ≡ (reply confirmed, (validate_source_transaction_status env id t s).1.world)
  unfolding validate_source_transaction_status
  source_status_confirmed h = ground arith

  pub in_source_tasks : (validate_transfer_in_source_transaction env id t s).1.tasks ≡ s.tasks
  unfolding validate_transfer_in_source_transaction
  in_source_tasks = ground arith

  search-found :
      (found : CrossChainTransfer) (l : List CrossChainTransfer)
      → ((found ≡ t) × (any (λ u. transfer_eq t u) l ≡ true))
        ⊎ (find_in_transaction t l ≡ some found)
      → Mem found l × IsSourceOf t found
  search-found found l (inl (same, h)) =
      subst (λ v. Mem v l × IsSourceOf t v) (sym same) (any-Mem t l h, refl)
  search-found found l (inr h) = find_in_transaction-found t found l h

  -- The transfer that is validated stands in the list that the client has read.
  pub in_source_found :
      (found : CrossChainTransfer)
      → (validate_transfer_in_source_transaction env id t s).0 ≡ ok found
      → (l : List CrossChainTransfer) × (env.client.read_outgoing_transfers_in_transaction
            t.source_blockchain t.source_transaction_id t.source_hub_address s.world
          ≡ (reply l, (validate_transfer_in_source_transaction env id t s).1.world))
        × Mem found l
        × IsSourceOf t found
  unfolding validate_transfer_in_source_transaction
  in_source_found found h =
      elim (Call-cases (
        env.client.read_outgoing_transfers_in_transaction t.source_blockchain
          t.source_transaction_id t.source_hub_address s.world)) [
            | inl (f, w, e) ↦ absurd (ground arith)
            | inr (l, w, e) ↦
                let searched : ((found ≡ t) × (any (λ u. transfer_eq t u) l ≡ true))
                    ⊎ (find_in_transaction t l ≡ some found) =
                  ground arith in
                let (m, data_) = search-found found l searched in (l, ground arith, m, data_)
          ]

  pub source_token_tasks : (validate_source_token_registration env id t s).1.tasks ≡ s.tasks
  unfolding validate_source_token_registration
  source_token_tasks = ground arith

  pub source_token_active :
      (validate_source_token_registration env id t s).0 ≡ ok tt
      → env.client.is_token_active t.source_blockchain t.source_token_address s.world
        ≡ (reply true, (validate_source_token_registration env id t s).1.world)
  unfolding validate_source_token_registration
  source_token_active h = ground arith

  pub check_destination_state :
      ((check_destination env t s).1.tasks ≡ s.tasks)
      × ((check_destination env t s).1.database ≡ s.database)
  unfolding check_destination validate_transfer_recipient_address
      validate_destination_token_registration validate_token_addresses validate_token_decimals
  check_destination_state = ground arith

  pub feasibility_state :
      ((validate_destination_blockchain_feasibility env t s).1.tasks ≡ s.tasks)
      × ((validate_destination_blockchain_feasibility env t s).1.database ≡ s.database)
  unfolding validate_destination_blockchain_feasibility
  feasibility_state = ground (arith, check_destination_state)

-- The `except` clauses change nothing but the result.
module _ {W : Type 0} (env : Env W) where
  pub validate_transfer-state :
      (id : ℕ) (t : CrossChainTransfer) (s : State W)
      → (validate_transfer env id t s).1 ≡ (validation env id t s).1
  unfolding validate_transfer
  validate_transfer-state id t s = elim (Exec-cases (validation env id t s)) [
    | inl (e, s1, h) ↦ ground arith
    | inr (b, s1, h) ↦ ground arith
  ]

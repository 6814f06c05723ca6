-- ===== src/Business/Transfers/Detect/Records.antt =====
-- The rows that a round of the loop of `detect_new_transfers` leaves for the transfers it has read.
use validatornode.Common.{
  ℕ, Bool, true, false, ◌&&◌, ◌==◌, str_eq, str_eq_refl, eq_iff, some, List, [], ◌∷◌, All, any,
  find, ◌≡◌, ◌⊎◌, refl, arith, inl, inr, Bool-cases,
}
use validatornode.Exec.{ok, Exec-cases}
use validatornode.Entities.{CrossChainTransfer}
use validatornode.Database.Models.{Transfer}
use validatornode.Database.Access.Transfers.{is_source, new_transfer}
use validatornode.Business.Client.{Env}
use validatornode.Business.State.{State}
use validatornode.Business.Transfers.Detect.{creation_request, process_transfer, process_transfers}
use validatornode.Business.Transfers.Detect.Registration.{IsKnown, IgnoresTask, process-IsAdded}

-- Every transfer of the list is in the table, by its source transaction.
abbrev pub AreKnown : List CrossChainTransfer → List Transfer → Type 0
AreKnown ts rows = All (λ t. IsKnown t.source_blockchain t.source_transaction_id rows) ts

-- Two transfers in one transaction of one blockchain.
abbrev pub same_source : CrossChainTransfer → CrossChainTransfer → Bool
same_source t u =
    t.source_blockchain == u.source_blockchain
    && str_eq t.source_transaction_id u.source_transaction_id

-- The row holds the data of the transfer.
abbrev pub is_row_of : CrossChainTransfer → Transfer → Bool
is_row_of t row =
    row.source_blockchain_id == t.source_blockchain
    && (row.destination_blockchain_id == t.destination_blockchain
        && (str_eq row.sender_address t.sender_address
            && (str_eq row.recipient_address t.recipient_address
                && (row.amount == t.amount
                    && (row.source_transfer_id == t.source_transfer_id
                        && (str_eq row.source_transaction_id t.source_transaction_id
                            && row.source_block_number == t.source_block_number))))))

-- The first transfer of the list in the transaction of `t` has a row with its data.
abbrev pub IsRecorded : CrossChainTransfer → List CrossChainTransfer → List Transfer → Type 0
IsRecorded t ts rows =
    (u : CrossChainTransfer) × (find (same_source t) ts ≡ some u) × (any (is_row_of u) rows ≡ true)

-- From the table `rows` to the table `rows'`: what was not known before is recorded.
abbrev pub AreRecorded : List CrossChainTransfer → List Transfer → List Transfer → Type 0
AreRecorded ts rows rows' =
    All (λ t. IsKnown t.source_blockchain t.source_transaction_id rows ⊎ IsRecorded t ts rows') ts

module _ {W : Type 0} (env : Env W) where
  new-is_row_of :
      (t : CrossChainTransfer) (n id a b h : ℕ)
      → is_row_of t (new_transfer id (creation_request env t n) a b h) ≡ true
  unfolding new_transfer creation_request
  new-is_row_of t n id a b h = ground (
    arith,
    str_eq_refl t.sender_address,
    str_eq_refl t.recipient_address,
    str_eq_refl t.source_transaction_id,
  )

  new-is_source :
      (t u : CrossChainTransfer) (n id a b h : ℕ)
      → is_source u.source_blockchain u.source_transaction_id
          (new_transfer id (creation_request env t n) a b h)
        ≡ true
      → same_source u t ≡ true
  unfolding new_transfer creation_request
  new-is_source t u n id a b h e = ground (
    arith,
    eq_iff t.source_transaction_id u.source_transaction_id,
    eq_iff u.source_transaction_id t.source_transaction_id,
  )

  new-IsKnown :
      (t : CrossChainTransfer) (n id a b h : ℕ)
      → is_source t.source_blockchain t.source_transaction_id
          (new_transfer id (creation_request env t n) a b h)
        ≡ true
  unfolding new_transfer creation_request
  new-IsKnown t n id a b h = ground (arith, str_eq_refl t.source_transaction_id)

  process-keeps :
      (p : Transfer → Bool)
      → IgnoresTask p
      → (t : CrossChainTransfer) (s : State W) → (process_transfer env t s).0 ≡ ok tt
      → any p s.database.transfers ≡ true
      → any p (process_transfer env t s).1.database.transfers ≡ true
  process-keeps p ignores t s done h = elim (process-IsAdded env t s done) [
    | inl (known, same) ↦ rw same h
    | inr (n, id, a, b, c, added) ↦ ground (arith, added p ignores, h)
  ]

  pub processes-keep :
      (p : Transfer → Bool)
      → IgnoresTask p
      → (ts : List CrossChainTransfer) (s : State W) → (process_transfers env ts s).0 ≡ ok tt
      → any p s.database.transfers ≡ true
      → any p (process_transfers env ts s).1.database.transfers ≡ true
  unfolding process_transfers
  processes-keep p ignores [] s done h = h
  processes-keep p ignores (t ∷ ts) s done h = elim (Exec-cases (process_transfer env t s)) [
    | inl (e, s₁, q) ↦ absurd (ground arith)
    | inr (u, s₁, q) ↦
        let first : any p s₁.database.transfers ≡ true =
          ground (arith, process-keeps p ignores t s) in
        ground (arith, processes-keep p ignores ts s₁)
  ]

  -- What a round leaves: the transaction is known, and the transfer recorded if it was not before.
  pub process-records :
      (t : CrossChainTransfer) (s : State W)
      → (process_transfer env t s).0 ≡ ok tt
      → IsKnown t.source_blockchain t.source_transaction_id
          (process_transfer env t s).1.database.transfers
        × (IsKnown t.source_blockchain t.source_transaction_id s.database.transfers
            ⊎ (any (is_row_of t) (process_transfer env t s).1.database.transfers ≡ true))
  process-records t s done = elim (process-IsAdded env t s done) [
    | inl (known, same) ↦ (rw same known, inl known)
    | inr (n, id, a, b, c, added) ↦ (
      ground (
        arith,
        added (is_source t.source_blockchain t.source_transaction_id) (λ r y. refl),
        new-IsKnown t n id a b c,
      ),
      inr (ground (arith, added (is_row_of t) (λ r y. refl), new-is_row_of t n id a b c)),
    )
  ]

  -- What is known after a round was known before, or is in the transaction of its transfer.
  process-IsKnown :
      (t u : CrossChainTransfer) (s : State W)
      → (process_transfer env t s).0 ≡ ok tt
      → same_source u t ≡ false
      → IsKnown u.source_blockchain u.source_transaction_id
          (process_transfer env t s).1.database.transfers
      → IsKnown u.source_blockchain u.source_transaction_id s.database.transfers
  process-IsKnown t u s done other h = elim (process-IsAdded env t s done) [
    | inl (known, same) ↦ rw same at h
    | inr (n, id, a, b, c, added) ↦ ground (
      arith,
      added (is_source u.source_blockchain u.source_transaction_id) (λ r y. refl),
      new-is_source t u n id a b c,
      other,
      h,
    )
  ]

  same-IsKnown :
      (t u : CrossChainTransfer) (rows : List Transfer)
      → same_source u t ≡ true
      → IsKnown t.source_blockchain t.source_transaction_id rows
      → IsKnown u.source_blockchain u.source_transaction_id rows
  same-IsKnown t u rows e h =
      let b : t.source_blockchain ≡ u.source_blockchain = ground (arith, e) in
      let x : t.source_transaction_id ≡ u.source_transaction_id =
        ground (arith, e, eq_iff u.source_transaction_id t.source_transaction_id) in
      rw (b, x) at h

  pub head-IsRecorded :
      (t : CrossChainTransfer) (ts : List CrossChainTransfer) (rows rows' : List Transfer)
      → IsKnown t.source_blockchain t.source_transaction_id rows ⊎ (any (is_row_of t) rows' ≡ true)
      → IsKnown t.source_blockchain t.source_transaction_id rows ⊎ IsRecorded t (t ∷ ts) rows'
  head-IsRecorded t ts rows rows' (inl h) = inl h
  head-IsRecorded t ts rows rows' (inr h) =
      inr (t, ground (arith, str_eq_refl t.source_transaction_id), h)

  pub tail-IsRecorded :
      (t v : CrossChainTransfer) (ts : List CrossChainTransfer) (s s₁ : State W)
      (rows' : List Transfer)
      → (process_transfer env t s).0 ≡ ok tt
      → (process_transfer env t s).1 ≡ s₁
      → IsKnown t.source_blockchain t.source_transaction_id s.database.transfers
        ⊎ (any (is_row_of t) rows' ≡ true)
      → IsKnown v.source_blockchain v.source_transaction_id s₁.database.transfers
        ⊎ IsRecorded v ts rows'
      → IsKnown v.source_blockchain v.source_transaction_id s.database.transfers
        ⊎ IsRecorded v (t ∷ ts) rows'
  tail-IsRecorded t v ts s s₁ rows' done state head h = elim (Bool-cases (same_source v t)) [
    | inl e ↦ elim head [
      | inl before ↦ inl (same-IsKnown t v s.database.transfers e before)
      | inr row ↦ inr (t, ground (arith, e), row)
    ]
    | inr e ↦ elim h [
      | inl known ↦ inl (process-IsKnown t v s done e (ground (arith, state, known)))
      | inr (u, found, row) ↦ inr (u, ground (arith, e, found), row)
    ]
  ]

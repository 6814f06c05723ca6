-- ===== src/Database/Creation.antt =====
-- Proofs on `create_transfer` of database/access.py.
use validatornode.Common.{
  ℕ, String, Bool, none, some, List, [], ◌∷◌, map, select, ◌≡◌, ◌≢◌, refl, ◌⊎◌, inl, inr,
  Option-cases, str_eq_refl, eq_iff, ap, arith,
}
use validatornode.Exec.{
  Result, ok, err, Exception, Constraint, integrity_error, validator_nonce_not_unique_error,
  Exec-cases, unique_validator_nonce,
}
use validatornode.Database.Models.{Database, Transfer}
use validatornode.Database.Session.{Engine, clash, clash_with, violation}
use validatornode.Database.Transactions.{check_constraints-none, check_constraints-some}
use validatornode.Database.Consistency.Contracts.{read_or_create_contract-transfers}
use validatornode.Database.Access.Contracts.{ContractModel, hub, token, read_or_create_contract}
use validatornode.Database.Access.Transfers.{
  TransferCreationRequest, new_transfer, insert_transfer, create_transfer, creation_error,
  is_source, transfer_id, read_transfer_id, read_validator_nonce_by_source_transaction_id,
}

module _ (engine : Engine) where
  contract_error :
      (model : ContractModel) (b : ℕ) (a : String) (db : Database) (e : Exception)
      → (read_or_create_contract engine model b a db).0 ≡ err e
      → creation_error e ≢ validator_nonce_not_unique_error
  unfolding read_or_create_contract
  contract_error model b a db e h = ground arith

  -- A new row has no Forwarder contract, so it clashes with no validator nonce.
  new_clash :
      (request : TransferCreationRequest) (id s d h : ℕ) (ts : List Transfer)
      → clash_with (new_transfer id request s d h) ts ≢ some unique_validator_nonce
  unfolding clash_with clash new_transfer
  new_clash r id s d h [] = cc
  new_clash r id s d h (t ∷ ts) = ground (arith, new_clash r id s d h ts)

  insert_error :
      (request : TransferCreationRequest) (id s d h : ℕ) (ts : List Transfer) (c : Constraint)
      → violation (new_transfer id request s d h ∷ ts) ≡ some c
      → violation ts ≡ none
      → creation_error (integrity_error c) ≢ validator_nonce_not_unique_error
  unfolding violation
  insert_error r id s d h ts c v consistent = ground (arith, new_clash r id s d h ts)

  abbrev pub new_id : Database → ℕ
  new_id db = engine.next_id (map transfer_id db.transfers)

  abbrev inserted : TransferCreationRequest → ℕ → ℕ → ℕ → Database → Database
  inserted request s d h db = record db {
    transfers = new_transfer (new_id db) request s d h ∷ db.transfers;
  }

  -- How the creation ends: an exception leaves the database as it was; otherwise one row is added
  -- to the transfers, and no constraint is violated.
  abbrev pub Created : TransferCreationRequest → Database → Type 0
  Created request db =
      ((e : Exception) × (create_transfer engine request db ≡ (err (creation_error e), db))
        × (violation db.transfers ≡ none → creation_error e ≢ validator_nonce_not_unique_error))
      ⊎ ((s d h : ℕ) × (db' : Database) × (create_transfer engine request db
            ≡ (ok (new_id db), db'))
          × (db'.transfers ≡ new_transfer (new_id db) request s d h ∷ db.transfers)
          × (violation db'.transfers ≡ none))

  insert_transfer-none :
      (request : TransferCreationRequest) (s d h : ℕ) (db : Database)
      → violation (inserted request s d h db).transfers ≡ none
      → insert_transfer engine request s d h db ≡ (ok (new_id db), inserted request s d h db)
  unfolding insert_transfer
  insert_transfer-none request s d h db v =
      ground (arith, check_constraints-none (inserted request s d h db) v)

  insert_transfer-some :
      (request : TransferCreationRequest) (s d h : ℕ) (db : Database) {c : Constraint}
      → violation (inserted request s d h db).transfers ≡ some c
      → (insert_transfer engine request s d h db).0 ≡ err (integrity_error c)
  unfolding insert_transfer
  insert_transfer-some request s d h db v =
      ground (arith, check_constraints-some (inserted request s d h db) v)

  pub create_transfer-Created :
      (request : TransferCreationRequest) (db : Database) → Created request db
  unfolding create_transfer
  create_transfer-Created r db =
      elim (Exec-cases
        (read_or_create_contract engine token r.source_blockchain r.source_token_address db)) [
          | inl (e, s1, e1) ↦ inl (
            e,
            ground arith,
            λ _. contract_error token _ _ db e (ap (λ (p : Result ℕ × Database). p.0) e1),
          )
          | inr (a1, s1, e1) ↦
              elim (Exec-cases (
                read_or_create_contract engine token r.destination_blockchain
                  r.destination_token_address s1)) [
                    | inl (e, s2, e2) ↦ inl (
                      e,
                      ground arith,
                      λ _. contract_error token _ _ s1 e (ap (λ (p : Result ℕ × Database). p.0) e2),
                    )
                    | inr (a2, s2, e2) ↦
                        elim (Exec-cases (
                          read_or_create_contract engine hub r.source_blockchain
                            r.source_hub_address s2)) [
                              | inl (e, s3, e3) ↦ inl (
                                e,
                                ground arith,
                                λ _.
                                    contract_error hub _ _ s2 e
                                      (ap (λ (p : Result ℕ × Database). p.0) e3),
                              )
                              | inr (a3, s3, e3) ↦
                                  let same : s3.transfers ≡ db.transfers = ground (
                                    arith,
                                    read_or_create_contract-transfers engine token
                                        r.source_blockchain r.source_token_address db,
                                    read_or_create_contract-transfers engine token
                                        r.destination_blockchain r.destination_token_address s1,
                                    read_or_create_contract-transfers engine hub r.source_blockchain
                                        r.source_hub_address s2,
                                  ) in
                                  elim (Option-cases
                                    (violation (inserted r a1 a2 a3 s3).transfers)) [
                                      | inl v ↦ inr (
                                        a1,
                                        a2,
                                        a3,
                                        inserted r a1 a2 a3 s3,
                                        ground (arith, insert_transfer-none r a1 a2 a3 s3 v),
                                        ground arith,
                                        v,
                                      )
                                      | inr (c, v) ↦ inl (
                                        integrity_error c,
                                        ground (arith, insert_transfer-some r a1 a2 a3 s3 v),
                                        λ h.
                                            insert_error r (new_id s3) a1 a2 a3 s3.transfers c v
                                              (rw same h),
                                      )
                                    ]
                            ]
                  ]
        ]

module _ (engine : Engine) (request : TransferCreationRequest) (db : Database) where
  abbrev created : Database
  created = (create_transfer engine request db).1

  abbrev source_transaction : Transfer → Bool
  source_transaction = is_source request.source_blockchain request.source_transaction_id

  select-new :
      (id s d h : ℕ)
      → select source_transaction db.transfers ≡ []
      → select source_transaction (new_transfer id request s d h ∷ db.transfers)
        ≡ new_transfer id request s d h ∷ []
  unfolding new_transfer
  select-new id s d h none_before = ground (arith, str_eq_refl request.source_transaction_id)

  -- A transfer with the source transaction of the new row clashes with it.
  clash-source :
      (id s d h : ℕ) (ts : List Transfer)
      → clash_with (new_transfer id request s d h) ts ≡ none
      → select source_transaction ts ≡ []
  unfolding clash_with clash new_transfer
  clash-source id s d h [] e = refl
  clash-source id s d h (t ∷ ts) e = ground (
    arith,
    clash-source id s d h ts,
    eq_iff request.source_transaction_id t.source_transaction_id,
    eq_iff t.source_transaction_id request.source_transaction_id,
  )

  violation-source :
      (id s d h : ℕ)
      → violation (new_transfer id request s d h ∷ db.transfers) ≡ none
      → select source_transaction db.transfers ≡ []
  unfolding violation
  violation-source id s d h v = ground (arith, clash-source id s d h db.transfers)

  -- For a source transaction that no transfer has yet, a creation that returns an ID makes the
  -- transfer known: its ID and its validator nonce are read back by its source transaction.
  pub read-create_transfer :
      (id : ℕ)
      → select source_transaction db.transfers ≡ []
      → (create_transfer engine request db).0 ≡ ok id
      → ((read_transfer_id request.source_blockchain request.source_transaction_id created).0
          ≡ ok (some id))
        × ((read_validator_nonce_by_source_transaction_id request.source_blockchain
              request.source_transaction_id created).0
            ≡ ok (some request.validator_nonce))
  unfolding read_transfer_id read_validator_nonce_by_source_transaction_id new_transfer
  read-create_transfer id none_before done = elim (create_transfer-Created engine request db) [
    | inl (e, refused, _) ↦ ground arith
    | inr (s, d, h, db', done', row, v) ↦ (
      ground (arith, select-new (new_id engine db) s d h none_before),
      ground (arith, select-new (new_id engine db) s d h none_before),
    )
  ]

  -- A transfer whose source transaction is known already cannot be created again: an exception is
  -- raised, and the database is as before.
  pub create_transfer-known :
      select source_transaction db.transfers ≢ []
      → (e : Exception) × (create_transfer engine request db ≡ (err e, db))
  create_transfer-known known = elim (create_transfer-Created engine request db) [
    | inl (e, refused, _) ↦ (creation_error e, refused)
    | inr (s, d, h, db', done', row, v) ↦
        absurd (known (violation-source (new_id engine db) s d h (rw row at v)))
  ]

  -- In a database that violates no constraint, `create_transfer` never raises the
  -- ValidatorNonceNotUniqueError, whichever validator nonce is requested.
  pub create_transfer-ne-not_unique :
      violation db.transfers ≡ none
      → (create_transfer engine request db).0 ≢ err validator_nonce_not_unique_error
  create_transfer-ne-not_unique consistent = elim (create_transfer-Created engine request db) [
    | inl (e, refused, other) ↦ ground (arith, other consistent)
    | inr (s, d, h, db', done', row, v) ↦ ground arith
  ]

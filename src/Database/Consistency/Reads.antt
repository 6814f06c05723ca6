-- ===== src/Database/Consistency/Reads.antt =====
-- The reads of one transfer in database/access.py.
use validatornode.Common.{
  ℕ, String, true, false, Option, none, some, List, [], ◌∷◌, All, select, ◌≡◌, ◌≢◌, refl, arith,
  inl, inr, ◌⊎◌, eq_iff, str_eq, sym, ◌∙◌,
}
use validatornode.Exec.{ok}
use validatornode.Exec.Keeps.{Keeps}
use validatornode.Database.Models.{Database, Transfer}
use validatornode.Database.Session.{violation, clash, clash_with}
use validatornode.Database.Access.Transfers.{
  is_source, has_id, read_blockchain_last_block_number, read_transfer_to_data, read_transfer_id,
  read_transfer_nonce, read_validator_nonce_by_internal_transfer_id,
  read_validator_nonce_by_source_transaction_id,
}
use validatornode.Database.Access.Signatures.{
  read_validator_node_signature, read_validator_node_signatures,
}
use validatornode.Database.Nonce.Clash.{HasUniqueIds}
use validatornode.Database.Consistency.{IsConsistent}

-- A list of at most one row.
abbrev IsAtMostOne : List Transfer → Type 0
IsAtMostOne ts = (ts ≡ []) ⊎ ((t : Transfer) × (ts ≡ t ∷ []))

same-text : (s u x : String) → str_eq s x ≡ true → str_eq u x ≡ true → str_eq s u ≡ true
same-text s u x p q = (eq_iff s u).1 ((eq_iff s x).0 p ∙ sym ((eq_iff u x).0 q))

module _ (b : ℕ) (x : String) where
  other-source :
      (t u : Transfer) → is_source b x t ≡ true → clash t u ≡ none → is_source b x u ≡ false
  unfolding clash
  other-source t u e h = ground (arith, same-text t.source_transaction_id u.source_transaction_id x)

  clash-source :
      (t : Transfer) (ts : List Transfer)
      → is_source b x t ≡ true
      → clash_with t ts ≡ none
      → select (is_source b x) ts ≡ []
  unfolding clash_with
  clash-source t [] e h = refl
  clash-source t (u ∷ ts) e h = ground (arith, clash-source t ts e, other-source t u e)

  select-source :
      (ts : List Transfer) → violation ts ≡ none → IsAtMostOne (select (is_source b x) ts)
  unfolding violation
  select-source [] h = inl refl
  select-source (t ∷ ts) h = ground (arith, clash-source t ts, select-source ts)

module _ (id : ℕ) where
  other-ids :
      (t : Transfer) (ts : List Transfer)
      → t.id ≡ id
      → All (λ u. u.id ≢ t.id) ts
      → select (has_id id) ts ≡ []
  other-ids t [] e h = refl
  other-ids t (u ∷ ts) e h = ground (arith, h.0, other-ids t ts e h.1)

  select-id : (ts : List Transfer) → HasUniqueIds ts → IsAtMostOne (select (has_id id) ts)
  select-id [] h = inl refl
  select-id (t ∷ ts) h = ground (arith, other-ids t ts, select-id ts h.1)

-- In a consistent database the reads of one transfer never raise an exception: by its key, or by
-- its source blockchain and source transaction, they find one row or none.
pub reads-of-one :
    (db : Database)
    → IsConsistent db
    → ((b : ℕ) (x : String) → (o : Option ℕ) × (read_transfer_id b x db ≡ (ok o, db)))
      × ((b : ℕ) (x : String)
          → (o : Option ℕ) × (read_validator_nonce_by_source_transaction_id b x db ≡ (ok o, db)))
      × ((id : ℕ)
          → (o : Option ℕ) × (read_validator_nonce_by_internal_transfer_id id db ≡ (ok o, db)))
      × ((id : ℕ) → (o : Option ℕ) × (read_transfer_nonce id db ≡ (ok o, db)))
unfolding read_transfer_id read_validator_nonce_by_source_transaction_id
    read_validator_nonce_by_internal_transfer_id read_transfer_nonce
reads-of-one db h = (
  λ b x. elim (select-source b x db.transfers h.1) [
    | inl e ↦ (none, ground arith)
    | inr (t, e) ↦ (some t.id, ground arith)
  ],
  λ b x. elim (select-source b x db.transfers h.1) [
    | inl e ↦ (none, ground arith)
    | inr (t, e) ↦ (some t.validator_nonce, ground arith)
  ],
  λ id. elim (select-id id db.transfers h.0) [
    | inl e ↦ (none, ground arith)
    | inr (t, e) ↦ (some t.validator_nonce, ground arith)
  ],
  λ id. elim (select-id id db.transfers h.0) [
    | inl e ↦ (none, ground arith)
    | inr (t, e) ↦ (t.nonce, ground arith)
  ],
)

-- The reads change nothing.
pub read_transfer_id-IsConsistent : (b : ℕ) (x : String) → Keeps IsConsistent (read_transfer_id b x)
unfolding read_transfer_id
read_transfer_id-IsConsistent b x = record { after = λ db h. h }

pub read_validator_nonce-IsConsistent :
    (id : ℕ) → Keeps IsConsistent (read_validator_nonce_by_internal_transfer_id id)
unfolding read_validator_nonce_by_internal_transfer_id
read_validator_nonce-IsConsistent id = record { after = λ db h. h }

pub read_source_nonce-IsConsistent :
    (b : ℕ) (x : String) → Keeps IsConsistent (read_validator_nonce_by_source_transaction_id b x)
unfolding read_validator_nonce_by_source_transaction_id
read_source_nonce-IsConsistent b x = record { after = λ db h. h }

pub read_blockchain_last_block_number-IsConsistent :
    (b : ℕ) → Keeps IsConsistent (read_blockchain_last_block_number b)
unfolding read_blockchain_last_block_number
read_blockchain_last_block_number-IsConsistent b = record {
  after = λ db h. (ground (arith, h.0), ground (arith, h.1));
}

pub read_transfer_to_data-IsConsistent :
    (b : ℕ) (x : String) → Keeps IsConsistent (read_transfer_to_data b x)
unfolding read_transfer_to_data
read_transfer_to_data-IsConsistent b x = record { after = λ db h. h }

pub read_validator_node_signature-IsConsistent :
    (id b : ℕ) (f a : String) → Keeps IsConsistent (read_validator_node_signature id b f a)
unfolding read_validator_node_signature
read_validator_node_signature-IsConsistent id b f a = record { after = λ db h. h }

pub read_validator_node_signatures-IsConsistent :
    (id : ℕ) → Keeps IsConsistent (read_validator_node_signatures id)
unfolding read_validator_node_signatures
read_validator_node_signatures-IsConsistent id = record { after = λ db h. h }

pub ruleset read_rules = (
  read_transfer_id-IsConsistent, read_source_nonce-IsConsistent, read_validator_nonce-IsConsistent,
  read_blockchain_last_block_number-IsConsistent, read_transfer_to_data-IsConsistent,
  read_validator_node_signature-IsConsistent, read_validator_node_signatures-IsConsistent,
)

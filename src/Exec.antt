-- ===== src/Exec.antt =====
-- Python's exceptions as values, and the methods that change a state and may raise. What was
-- written before a raise stays written, so the state comes back beside the exception too.
pub mod Keeps
use validatornode.Common.{Bool, true, false, Option, none, some, ◌≡◌, ◌⊎◌, inl, inr, refl}

-- The unique constraints of `database/models.py` that a statement on `transfers` can violate,
-- and one name for every other integrity rule (a foreign key, a primary key, another table).
pub data Constraint : Type 0 where
  unique_validator_nonce unique_blockchain_nonce : Constraint
  unique_source_transfer_id unique_destination_transfer_id : Constraint
  unique_source_transaction_id unique_destination_transaction_id : Constraint
  unique_task_id other_constraint : Constraint

-- What a call that leaves the program can raise: the classes of blockchains/base.py and of
-- restclient.py, and anything else.
pub data Fault : Type 0 where
  blockchain_client_error non_matching_forwarder_error : Fault
  source_transfer_id_already_used_error unresolvable_transfer_to_submission_error : Fault
  primary_node_client_error primary_node_duplicate_signature_error : Fault
  primary_node_invalid_signature_error primary_node_invalid_signer_error : Fault
  primary_node_unknown_transfer_error : Fault
  -- of pantos.common: the configured blockchain nodes give different results
  results_not_matching_error other_fault : Fault

pub data Exception : Type 0 where
  -- business/base.py and the interactors' own classes
  transfer_interactor_error signature_interactor_error : Exception
  duplicate_signature_error invalid_signature_error invalid_signer_error : Exception
  unknown_transfer_error : Exception
  permanent_transfer_submission_error : Exception
  permanent_transfer_validation_error transitory_transfer_validation_error : Exception
  -- raised by a blockchain client, by the primary node's client, or by a library
  fault : Fault → Exception
  -- database/exceptions.py and SQLAlchemy
  database_error validator_nonce_not_unique_error : Exception
  integrity_error : Constraint → Exception
  no_result_found multiple_results_found : Exception
  -- the language, and anything else
  assertion_error key_error value_error : Exception
  -- no exception of the program: a loop of the model was given too few rounds
  out_of_rounds : Exception

pub data Result {ℓ} (A : Type ℓ) : Type ℓ where
  ok : A → Result A
  err : Exception → Result A

abbrev pub Exec : Type 0 → Type 0 → Type 0
Exec S A = S → Result A × S

module _ {S A : Type 0} where
  abbrev pub pure : A → Exec S A
  pure a s = (ok a, s)

  abbrev pub raise : Exception → Exec S A
  raise e s = (err e, s)

  abbrev pub lift : Result A → Exec S A
  lift r s = (r, s)

  abbrev pub gets : (S → A) → Exec S A
  gets f s = (ok (f s), s)

  -- `assert x is not None`, and other uses of a value that may be missing
  abbrev pub or_raise : Option A → Exception → Exec S A
  or_raise none e s = (err e, s)
  or_raise (some a) e s = (ok a, s)

infixl 5 ◌>>=◌ ◌>>◌
abbrev pub ◌>>=◌ : {S A B : Type 0} → Exec S A → (A → Exec S B) → Exec S B
◌>>=◌ m f s = let (r, s') = m s in elim r [ ok a ↦ f a s' | err e ↦ (err e, s') ]

abbrev pub ◌>>◌ : {S A B : Type 0} → Exec S A → Exec S B → Exec S B
m >> k = m >>= λ _. k

abbrev pub modify : {S : Type 0} → (S → S) → Exec S (Unit {0})
modify f s = (ok tt, f s)

abbrev pub skip : {S : Type 0} → Exec S (Unit {0})
skip s = (ok tt, s)

-- `if c: raise e`
abbrev pub raise_if : {S : Type 0} → Bool → Exception → Exec S (Unit {0})
raise_if true e s = (err e, s)
raise_if false e s = (ok tt, s)

-- `assert c`
abbrev pub assert : {S : Type 0} → Bool → Exec S (Unit {0})
assert true s = (ok tt, s)
assert false s = (err assertion_error, s)

-- `try: m except …: h`
abbrev pub catch : {S A : Type 0} → Exec S A → (Exception → Exec S A) → Exec S A
catch m h s = let (r, s') = m s in elim r [ ok a ↦ (ok a, s') | err e ↦ h e s' ]

-- A call that leaves the program: it changes only the state that is handed to it.
pub data Reply (A : Type 0) : Type 0 where
  reply : A → Reply A
  failure : Fault → Reply A

abbrev pub Call : Type 0 → Type 0 → Type 0
Call S A = S → Reply A × S

abbrev pub to_result : {A : Type 0} → Reply A → Result A
to_result (reply a) = ok a
to_result (failure f) = err (fault f)

-- To split on how a call ended, with the state after it.
pub Exec-cases :
    {S A : Type 0} (r : Result A × S)
    → ((e : Exception) × (s : S) × (r ≡ (err e, s))) ⊎ ((a : A) × (s : S) × (r ≡ (ok a, s)))
Exec-cases (ok a, s) = inr (a, s, refl)
Exec-cases (err e, s) = inl (e, s, refl)

pub Call-cases :
    {S A : Type 0} (r : Reply A × S)
    → ((f : Fault) × (s : S) × (r ≡ (failure f, s))) ⊎ ((a : A) × (s : S) × (r ≡ (reply a, s)))
Call-cases (reply a, s) = inr (a, s, refl)
Call-cases (failure f, s) = inl (f, s, refl)

pub Result-cases {ℓ} :
    {A : Type ℓ} (r : Result A) → ((e : Exception) × (r ≡ err e)) ⊎ ((a : A) × (r ≡ ok a))
Result-cases (ok a) = inr (a, refl)
Result-cases (err e) = inl (e, refl)

-- ===== src/Rest/Server.antt =====
-- restapi.py: the validation schemas, and the two resources of the primary node. The fields of the
-- package marshmallow are parameters: what `fields.Integer` and `fields.String` make of a value.
use validatornode.Common.{
  ℕ, String, Bool, true, false, not, ◌&&◌, Option, none, some, List, [], ◌∷◌, any, if◌then◌else◌,
  str_eq,
}
use validatornode.Common.Int.{ℤ, pos, negsuc}
use validatornode.Exec.{
  Exception, Result, ok, err, assertion_error, duplicate_signature_error, invalid_signature_error,
  invalid_signer_error, unknown_transfer_error,
}
use validatornode.Entities.{Blockchain}
use validatornode.Business.Client.{Env}
use validatornode.Business.State.{State}
use validatornode.Business.Signatures.{
  SecondaryNodeSignatureAddRequest, add_secondary_node_signature,
}
use validatornode.Business.Transfers.Confirm.{get_validator_nonce}
use validatornode.Rest.Http.{
  Reply, ok_response, no_content_response, internal_server_error, bad_request_messages, bad_request,
  conflict, forbidden, resource_not_found, Resource, transfer_signature, validator_nonce,
}

-- What `load` of a schema does: it returns the values, raises a `ValidationError`, or lets another
-- exception of a validator through.
pub data Loaded (A : Type 0) : Type 0 where
  loaded : A → Loaded A
  invalid : Loaded A
  raised : Exception → Loaded A

infixl 5 ◌>>=◌ ◌>>◌
abbrev ◌>>=◌ : {A B : Type 0} → Loaded A → (A → Loaded B) → Loaded B
loaded a >>= f = f a
invalid >>= f = invalid
raised e >>= f = raised e

abbrev ◌>>◌ : {A B : Type 0} → Loaded A → Loaded B → Loaded B
m >> k = m >>= λ _. k

abbrev pub from_option : {A : Type 0} → Option A → Loaded A
from_option none = invalid
from_option (some a) = loaded a

abbrev pub valid_if : Bool → Loaded (Unit {0})
valid_if true = loaded tt
valid_if false = invalid

-- A validator's answer, or its exception.
abbrev pub valid_if_ok : Result Bool → Loaded (Unit {0})
valid_if_ok (ok b) = valid_if b
valid_if_ok (err e) = raised e

module _ {Raw : Type 0} where
  -- The value of a required field.
  abbrev pub required : String → List (String × Raw) → Loaded Raw
  required key [] = invalid
  required key ((k, v) ∷ rest) =
      let found = required key rest in if str_eq k key then loaded v else found

  -- An argument that is no field of the schema is refused.
  abbrev pub no_unknown : List String → List (String × Raw) → Loaded (Unit {0})
  no_unknown fields arguments =
      valid_if (not (any (λ a. not (any (λ f. str_eq f a.0) fields)) arguments))

-- The `except` clauses of `_TransferSignature.post`
abbrev pub signature_reply : Result (Unit {0}) → Reply
signature_reply (ok _) = no_content_response
signature_reply (err duplicate_signature_error) = conflict "Duplicate signature."
signature_reply (err invalid_signature_error) = bad_request "Invalid signature."
signature_reply (err invalid_signer_error) = forbidden "Invalid signer."
signature_reply (err unknown_transfer_error) = resource_not_found "Unknown transfer."
signature_reply (err e) = internal_server_error

-- The `except` clauses of `_ValidatorNonce.get`
abbrev pub nonce_reply : Result ℕ → Reply
nonce_reply (ok n) = ok_response n
nonce_reply (err unknown_transfer_error) = resource_not_found "Unknown transfer."
nonce_reply (err e) = internal_server_error

module _ {W Raw : Type 0} (env : Env W) (integer : Raw → Option ℤ) (string : Raw → Option String)
    (is_valid_transaction_id : Blockchain → String → Result Bool) where
  -- `_validate_blockchain_id`: the ID of an active blockchain
  abbrev pub validate_blockchain_id : ℤ → Loaded Blockchain
  validate_blockchain_id (pos n) = valid_if (env.is_blockchain n && env.is_active n) >> loaded n
  validate_blockchain_id (negsuc n) = invalid

  -- `_validate_transaction_id`
  abbrev pub validate_transaction_id : Blockchain → String → Loaded (Unit {0})
  validate_transaction_id blockchain transaction_id =
      if env.is_active blockchain
      then valid_if_ok (is_valid_transaction_id blockchain transaction_id)
      else raised assertion_error

  unfoldable pub load_transfer_signature :
      List (String × Raw) → Loaded SecondaryNodeSignatureAddRequest
  load_transfer_signature arguments = do
    no_unknown ("source_blockchain_id" ∷ "source_transaction_id" ∷ "signature" ∷ []) arguments
    raw_blockchain_id ← required "source_blockchain_id" arguments
    blockchain_id ← from_option (integer raw_blockchain_id)
    raw_transaction_id ← required "source_transaction_id" arguments
    transaction_id ← from_option (string raw_transaction_id)
    raw_signature ← required "signature" arguments
    signature ← from_option (string raw_signature)
    blockchain ← validate_blockchain_id blockchain_id
    validate_transaction_id blockchain transaction_id
    loaded (record {
      source_blockchain = blockchain;
      source_transaction_id = transaction_id;
      signature = signature;
    })

  unfoldable pub load_validator_nonce : List (String × Raw) → Loaded (Blockchain × String)
  load_validator_nonce arguments = do
    no_unknown ("source_blockchain_id" ∷ "source_transaction_id" ∷ []) arguments
    raw_blockchain_id ← required "source_blockchain_id" arguments
    blockchain_id ← from_option (integer raw_blockchain_id)
    raw_transaction_id ← required "source_transaction_id" arguments
    transaction_id ← from_option (string raw_transaction_id)
    blockchain ← validate_blockchain_id blockchain_id
    validate_transaction_id blockchain transaction_id
    loaded (blockchain, transaction_id)

  abbrev pub add_loaded : Loaded SecondaryNodeSignatureAddRequest → State W → Reply × State W
  add_loaded invalid s = (bad_request_messages, s)
  add_loaded (raised e) s = (internal_server_error, s)
  add_loaded (loaded request) s =
      let (r, s') = add_secondary_node_signature env request s in (signature_reply r, s')

  unfoldable pub post_signature : List (String × Raw) → State W → Reply × State W
  post_signature arguments = add_loaded (load_transfer_signature arguments)

  abbrev pub get_loaded : Loaded (Blockchain × String) → State W → Reply × State W
  get_loaded invalid s = (bad_request_messages, s)
  get_loaded (raised e) s = (internal_server_error, s)
  get_loaded (loaded (blockchain, transaction_id)) s =
      let (r, s') = get_validator_nonce env blockchain transaction_id s in (nonce_reply r, s')

  unfoldable pub get_nonce : List (String × Raw) → State W → Reply × State W
  get_nonce arguments = get_loaded (load_validator_nonce arguments)

  -- The resources by their paths.
  abbrev pub serve : Resource → List (String × Raw) → State W → Reply × State W
  serve transfer_signature = post_signature
  serve validator_nonce = get_nonce

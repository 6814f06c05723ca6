-- ===== src/Rest/Client.antt =====
-- restclient.py: `PrimaryNodeClient`, with the package requests as a parameter.
use validatornode.Common.{
  ℕ, String, Bool, false, ◌&&◌, Option, none, some, [], ◌∷◌, if◌then◌else◌, ◌==◌, contains,
}
use validatornode.Common.Int.{ℤ}
use validatornode.Exec.{
  Exec, Result, ok, err, fault, assertion_error, primary_node_client_error,
  primary_node_duplicate_signature_error, primary_node_invalid_signature_error,
  primary_node_invalid_signer_error, primary_node_unknown_transfer_error,
}
use validatornode.Entities.{Blockchain}
use validatornode.Rest.Http.{
  Field, absent, other, text, number, ResponseJson, undecodable, no_object, object, Response,
  Delivery, timeout, request_exception, delivered, transfer_signature, validator_nonce, Request,
}

infixl 5 ◌>>=◌ ◌>>◌
abbrev ◌>>=◌ : {A B : Type 0} → Result A → (A → Result B) → Result B
ok a >>= f = f a
err e >>= f = err e

abbrev ◌>>◌ : {A B : Type 0} → Result A → Result B → Result B
m >> k = m >>= λ _. k

-- The JSON object, by its two keys that are read.
abbrev pub decode_json_response : ResponseJson → Result (Field × Field)
decode_json_response undecodable = err (fault primary_node_client_error)
decode_json_response no_object = err assertion_error
decode_json_response (object message nonce) = ok (message, nonce)

abbrev pub extract_response_message : Field → Result (Option String)
extract_response_message absent = ok none
extract_response_message (text t) = ok (some t)
extract_response_message (number n) = err assertion_error
extract_response_message other = err assertion_error

-- `assert response_message is not None` and `assert … in response_message`
abbrev pub assert_message : String → Option String → Result (Unit {0})
assert_message expected none = err assertion_error
assert_message expected (some message) =
    if contains expected message then ok tt else err assertion_error

abbrev pub reports : String → Option String → Bool
reports expected none = false
reports expected (some message) = contains expected message

abbrev pub get_nonce : Field → Result ℤ
get_nonce (number n) = ok n
get_nonce _ = err assertion_error

unfoldable pub validator_nonce_of : Response → Result ℤ
validator_nonce_of response = do
  json ← decode_json_response response.json
  if response.status_code == 200 then get_nonce json.1 else (do
    message ← extract_response_message json.0
    if response.status_code == 404
        then (assert_message "Unknown transfer." message
            >> err (fault primary_node_unknown_transfer_error))
        else err (fault primary_node_client_error))

-- What the response says, if it has another status code than that of success.
abbrev pub signature_error_of : ℕ → Option String → Result (Unit {0})
signature_error_of status_code message =
    if status_code == 400 && reports "Invalid signature." message
    then err (fault primary_node_invalid_signature_error)
    else if status_code == 409
    then assert_message "Duplicate signature." message
      >> err (fault primary_node_duplicate_signature_error)
    else if status_code == 403
    then assert_message "Invalid signer." message >> err (fault primary_node_invalid_signer_error)
    else if status_code == 404
    then assert_message "Unknown transfer." message
      >> err (fault primary_node_unknown_transfer_error)
    else err (fault primary_node_client_error)

unfoldable pub signature_post_result_of : Response → Result (Unit {0})
signature_post_result_of response = if response.status_code == 204 then ok tt else (do
  json ← decode_json_response response.json
  message ← extract_response_message json.0
  signature_error_of response.status_code message)

abbrev pub on_delivery : {A : Type 0} → (Response → Result A) → Delivery → Result A
on_delivery f timeout = err (fault primary_node_client_error)
on_delivery f request_exception = err (fault primary_node_client_error)
on_delivery f (delivered response) = f response

-- `from_int` and `from_text` make an argument of a request, in the URL or in JSON.
module _ {W Raw : Type 0} (from_int : ℕ → Raw) (from_text : String → Raw)
    (send_request : Request Raw → W → Delivery × W) where
  abbrev pub validator_nonce_request : Blockchain → String → Request Raw
  validator_nonce_request source_blockchain source_transaction_id = record {
    resource = validator_nonce;
    arguments =
        ("source_blockchain_id", from_int source_blockchain)
        ∷ ("source_transaction_id", from_text source_transaction_id)
        ∷ [];
  }

  unfoldable pub get_validator_nonce : Blockchain → String → Exec W ℤ
  get_validator_nonce source_blockchain source_transaction_id w =
      let (d, w') =
        send_request (validator_nonce_request source_blockchain source_transaction_id) w in
      (on_delivery validator_nonce_of d, w')

  abbrev pub transfer_signature_request : Blockchain → String → String → Request Raw
  transfer_signature_request source_blockchain source_transaction_id signature = record {
    resource = transfer_signature;
    arguments =
        ("source_blockchain_id", from_int source_blockchain)
        ∷ ("source_transaction_id", from_text source_transaction_id)
        ∷ ("signature", from_text signature)
        ∷ [];
  }

  unfoldable pub post_transfer_signature : Blockchain → String → String → Exec W (Unit {0})
  post_transfer_signature source_blockchain source_transaction_id signature w =
      let (d, w') =
        send_request (transfer_signature_request source_blockchain source_transaction_id signature)
          w in
      (on_delivery signature_post_result_of d, w')

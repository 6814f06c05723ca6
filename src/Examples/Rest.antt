-- ===== src/Examples/Rest.antt =====
-- A secondary node whose requests reach the example's node over a small wire.
use validatornode.Common.{ℕ, String, Bool, true, Option, none, some, ◌≡◌, refl, inl}
use validatornode.Common.Int.{ℤ, pos}
use validatornode.Exec.{Result, ok, err, assertion_error}
use validatornode.Business.Signatures.{add_secondary_node_signature}
use validatornode.Business.Transfers.Confirm.{get_validator_nonce}
use validatornode.Rest.Http.{
  Reply, ok_response, no_content_response, internal_server_error, bad_request_messages, bad_request,
  conflict, forbidden, resource_not_found, Response, absent, other, text, number, object, IsWire,
}
use validatornode.Rest.Client
use validatornode.Rest.Exchange.{
  exchange, remote_signature, remote_nonce, post_transfer_signature-refines,
  get_validator_nonce-refines, post_transfer_signature-invalid,
}
use validatornode.Examples.{env, state}

data Raw : Type 0 where
  raw_int : ℕ → Raw
  raw_text : String → Raw

abbrev integer : Raw → Option ℤ
integer (raw_int n) = some (pos n)
integer (raw_text t) = none

abbrev string : Raw → Option String
string (raw_int n) = none
string (raw_text t) = some t

abbrev is_valid_transaction_id : ℕ → String → Result Bool
is_valid_transaction_id b x = ok true

abbrev send : Reply → Response
send (ok_response n) = record { status_code = 200; json = object absent (number (pos n)) }
send no_content_response = record { status_code = 204; json = object absent absent }
send internal_server_error = record { status_code = 500; json = object absent absent }
send bad_request_messages = record { status_code = 400; json = object other absent }
send (bad_request m) = record { status_code = 400; json = object (text m) absent }
send (conflict m) = record { status_code = 409; json = object (text m) absent }
send (forbidden m) = record { status_code = 403; json = object (text m) absent }
send (resource_not_found m) = record { status_code = 404; json = object (text m) absent }

send-IsWire : IsWire send
send-IsWire = record {
  ok_sent = λ n. refl;
  no_content_sent = refl;
  bad_request_sent = λ m. refl;
  messages_sent = refl;
  forbidden_sent = λ m. refl;
  not_found_sent = λ m. refl;
  conflict_sent = λ m. refl;
  error_sent = refl;
}

post_transfer_signature-refines_example :
    let (r, s') =
      add_secondary_node_signature env
        (record { source_blockchain = 0; source_transaction_id = "tx12"; signature = "theirs" })
        state in
    Client.post_transfer_signature raw_int raw_text
      (exchange env integer string is_valid_transaction_id send)
      0
      "tx12"
      "theirs"
      state
    ≡ (remote_signature r, s')
post_transfer_signature-refines_example =
    post_transfer_signature-refines env integer string is_valid_transaction_id send send-IsWire
      raw_int raw_text 0 "tx12" refl refl "theirs" state refl refl refl refl

get_validator_nonce-refines_example :
    let (r, s') = get_validator_nonce env 0 "tx12" state in
    Client.get_validator_nonce raw_int raw_text
      (exchange env integer string is_valid_transaction_id send)
      0
      "tx12"
      state
    ≡ (remote_nonce r, s')
get_validator_nonce-refines_example =
    get_validator_nonce-refines env integer string is_valid_transaction_id send send-IsWire raw_int
      raw_text 0 "tx12" refl refl state refl refl refl

post_transfer_signature-invalid_example :
    Client.post_transfer_signature raw_int raw_text
      (exchange env integer string is_valid_transaction_id send)
      5
      "tx12"
      "theirs"
      state
    ≡ (err assertion_error, state)
post_transfer_signature-invalid_example =
    post_transfer_signature-invalid env integer string is_valid_transaction_id send send-IsWire
      raw_int raw_text 5 "tx12" refl refl "theirs" state refl (inl refl)

-- ===== src/Rest/Http.antt =====
-- What restapi.py and restclient.py hand to the packages around them (flask, marshmallow, requests,
-- pantos.common.restapi), and what they get back.
use validatornode.Common.{ℕ, String, List, ◌≡◌}
use validatornode.Common.Int.{ℤ, pos}

-- A value of a JSON object under one key; null and a missing key are both None in Python.
pub data Field : Type 0 where
  absent other : Field
  text : String → Field
  number : ℤ → Field

pub data ResponseJson : Type 0 where
  undecodable no_object : ResponseJson
  object : (message validator_nonce : Field) → ResponseJson

pub record Response : Type 0 where
  pub status_code : ℕ
  pub json : ResponseJson

-- What a request ends with: `requests.Timeout`, another `requests.RequestException`, a response.
pub data Delivery : Type 0 where
  timeout request_exception : Delivery
  delivered : Response → Delivery

pub data Resource : Type 0 where
  transfer_signature validator_nonce : Resource

-- A request and its arguments, from the JSON body or from the query of the URL. `Raw` are the values
-- as marshmallow finds them.
pub record Request (Raw : Type 0) : Type 0 where
  pub resource : Resource
  pub arguments : List (String × Raw)

-- The functions of pantos.common.restapi with which a handler ends. The messages of a
-- `ValidationError` are a dictionary, which is left out.
pub data Reply : Type 0 where
  ok_response : ℕ → Reply
  no_content_response internal_server_error bad_request_messages : Reply
  bad_request conflict forbidden resource_not_found : String → Reply

-- What the client relies on of the responses to these functions: the status code of each, the text
-- that it is given under the key `message`, and JSON in all but an empty response.
pub record IsWire (send : Reply → Response) : Type 0 where
  pub ok_sent :
      (n : ℕ)
      → send (ok_response n) ≡ record { status_code = 200; json = object absent (number (pos n)) }
  pub no_content_sent : (send no_content_response).status_code ≡ 204
  pub bad_request_sent :
      (m : String)
      → send (bad_request m) ≡ record { status_code = 400; json = object (text m) absent }
  pub messages_sent :
      send bad_request_messages ≡ record { status_code = 400; json = object other absent }
  pub forbidden_sent :
      (m : String)
      → send (forbidden m) ≡ record { status_code = 403; json = object (text m) absent }
  pub not_found_sent :
      (m : String)
      → send (resource_not_found m) ≡ record { status_code = 404; json = object (text m) absent }
  pub conflict_sent :
      (m : String) → send (conflict m) ≡ record { status_code = 409; json = object (text m) absent }
  pub error_sent :
      send internal_server_error ≡ record { status_code = 500; json = object absent absent }

-- ===== src/Auth/Reply.antt =====
-- src/auth.rs, `parse_auth_response`: which replies authenticate.
use bilbycast_gateway_sdk.Base.{
  String, ◌≡◌, refl, ◌↔◌, inl, inr, Option-cases, none, some, eq_iff, ok, err, arith,
}
use bilbycast_gateway_sdk.Json.{Json, get_str}
use bilbycast_gateway_sdk.Envelope.{payload_of}
use bilbycast_gateway_sdk.Auth.{registered, authenticated, parse_auth_response, unwrap_or}
use bilbycast_gateway_sdk.Errors.{json}

module _ (j : Json) (debug : String → String) where
  open j use {Value, from_str}

  -- The reply that registers a node.
  pub record IsRegisterAck (text node_id node_secret : String) : Type 0 where
    pub value : Value
    pub is_json : from_str text ≡ some value
    pub has_type : get_str j value "type" ≡ some "register_ack"
    pub has_id : get_str j (payload_of j value) "node_id" ≡ some node_id
    pub has_secret : get_str j (payload_of j value) "node_secret" ≡ some node_secret

  -- The reply that accepts a node that is registered.
  pub record IsAuthOk (text : String) : Type 0 where
    pub value : Value
    pub is_json : from_str text ≡ some value
    pub has_type : get_str j value "type" ≡ some "auth_ok"

  module _ (text : String) (v : Value) (is_json : from_str text ≡ some v) where
    registered_sound :
        (id secret : String)
        → parse_auth_response j debug text ≡ ok (registered id secret)
        → IsRegisterAck text id secret
    unfolding parse_auth_response
    registered_sound id secret h = record {
      value = v;
      is_json = is_json;
      has_type = ground (
        arith,
        eq_iff (unwrap_or (get_str j v "type") "") "register_ack",
        eq_iff "" "register_ack",
      );
      has_id = ground arith;
      has_secret = ground arith;
    }

    authenticated_sound : parse_auth_response j debug text ≡ ok authenticated → IsAuthOk text
    unfolding parse_auth_response
    authenticated_sound h = record {
      value = v;
      is_json = is_json;
      has_type =
          ground (arith, eq_iff (unwrap_or (get_str j v "type") "") "auth_ok", eq_iff "" "auth_ok");
    }

  not_json : (text : String) → from_str text ≡ none → parse_auth_response j debug text ≡ err json
  unfolding parse_auth_response
  not_json text e = rw (e, parse_auth_response) refl

  registered_complete :
      (text id secret : String)
      → IsRegisterAck text id secret
      → parse_auth_response j debug text ≡ ok (registered id secret)
  unfolding parse_auth_response
  registered_complete text id secret r = ground (
    arith,
    r.is_json,
    r.has_type,
    r.has_id,
    r.has_secret,
    eq_iff (unwrap_or (get_str j r.value "type") "") "register_ack",
  )

  authenticated_complete :
      (text : String) → IsAuthOk text → parse_auth_response j debug text ≡ ok authenticated
  unfolding parse_auth_response
  authenticated_complete text r = ground (
    arith,
    r.is_json,
    r.has_type,
    eq_iff (unwrap_or (get_str j r.value "type") "") "register_ack",
    eq_iff (unwrap_or (get_str j r.value "type") "") "auth_ok",
    eq_iff "auth_ok" "register_ack",
  )

  registered_of_ok :
      (text id secret : String)
      → parse_auth_response j debug text ≡ ok (registered id secret)
      → IsRegisterAck text id secret
  registered_of_ok text id secret h = elim (Option-cases (from_str text)) [
    | inl e ↦ cc (not_json text e)
    | inr p ↦ registered_sound text p.0 p.1 id secret h
  ]

  authenticated_of_ok :
      (text : String) → parse_auth_response j debug text ≡ ok authenticated → IsAuthOk text
  authenticated_of_ok text h = elim (Option-cases (from_str text)) [
    | inl e ↦ cc (not_json text e)
    | inr p ↦ authenticated_sound text p.0 p.1 h
  ]

-- The reply to the auth frame registers the node under an id and a secret exactly when it is JSON
-- of type `register_ack` whose payload has both as strings, and it authenticates the node exactly
-- when it is JSON of type `auth_ok`. Every other reply is an error.
pub parse_auth_response_iff :
    (j : Json) (debug : String → String) (text id secret : String)
    → ((parse_auth_response j debug text ≡ ok (registered id secret))
        ↔ IsRegisterAck j debug text id secret)
      × ((parse_auth_response j debug text ≡ ok authenticated) ↔ IsAuthOk j debug text)
parse_auth_response_iff j debug text id secret = (
  (registered_of_ok j debug text id secret, registered_complete j debug text id secret),
  (authenticated_of_ok j debug text, authenticated_complete j debug text),
)

-- ===== src/Envelope/Roundtrip.antt =====
-- src/envelope.rs: a parse recovers the message that was enveloped.
use bilbycast_gateway_sdk.Base.{String, ◌≡◌, refl, some, List, [], ◌∷◌}
use bilbycast_gateway_sdk.Json.{Json, get_str}
use bilbycast_gateway_sdk.Json.Laws.{get-obj, get_str-obj}
use bilbycast_gateway_sdk.Envelope.{envelope, envelope_value, parse, payload_of}

module _ (j : Json) (now msg_type : String) (payload : j.Value) where
  get_str-envelope : get_str j (envelope_value j now msg_type payload) "type" ≡ some msg_type
  unfolding envelope_value
  get_str-envelope = get_str-obj j "type" msg_type entries refl
    where
      entries : List (String × j.Value)
      entries =
          ("type", j.string msg_type) ∷ ("timestamp", j.string now) ∷ ("payload", payload) ∷ []

  payload_of-envelope : payload_of j (envelope_value j now msg_type payload) ≡ payload
  unfolding envelope_value payload_of
  payload_of-envelope = rw (get-obj j "payload" entries, payload_of) refl
    where
      entries : List (String × j.Value)
      entries =
          ("type", j.string msg_type) ∷ ("timestamp", j.string now) ∷ ("payload", payload) ∷ []

-- Where the JSON library reads back the envelope that it wrote, parsing an envelope gives its type
-- and its payload, whatever the time stamp.
parse-envelope :
    (j : Json) (now msg_type : String) (payload : j.Value)
    → j.from_str (j.to_string (envelope_value j now msg_type payload))
      ≡ some (envelope_value j now msg_type payload)
    → parse j (envelope j now msg_type payload)
      ≡ some (record { msg_type = msg_type; payload = payload })
unfolding parse
parse-envelope j now msg_type payload h =
    unfold envelope in rw (h, parse) (simp (get_str-envelope, payload_of-envelope))

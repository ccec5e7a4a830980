-- ===== src/Tests/Store.antt =====
-- A credentials file and an event at concrete values.
use bilbycast_gateway_sdk.Base.{
  ◌≡◌, refl, ◌⊎◌, String, str_eq, if◌then◌else◌, none, some, [], ok, err,
}
use bilbycast_gateway_sdk.Errors.{SdkError}
use bilbycast_gateway_sdk.Json.{Json, get_str}
use bilbycast_gateway_sdk.Auth.Credentials.{
  PersistedCredentials, Codec, Faults, no_fault, missing, stored, written, CredentialStore, load,
  save,
}
use bilbycast_gateway_sdk.Auth.Credentials.Roundtrip.{save-load}
use bilbycast_gateway_sdk.Events.{GatewayEvent, major, to_payload, with_error_code}
use bilbycast_gateway_sdk.Events.Payload.{Describes, to_payload-Describes}
use bilbycast_gateway_sdk.Tests.SampleJson.{object, string, field, end, sample_json}

abbrev credentials : PersistedCredentials
credentials = record { node_id = some "n1"; node_secret = some "s1"; registration_token = none }

abbrev codec : Codec
codec = record {
  to_string_pretty = λ c. "{n1, s1}";
  from_str = λ text. if str_eq text "{n1, s1}" then some credentials else none;
}

-- The permissions cannot be set.
abbrev faults : Faults
faults = record { mkdir = none; write = no_fault; chmod = some "denied"; read = none }

abbrev store : CredentialStore
store = record { path = "etc/credentials.json" }

save-load_example :
    ((load codec faults store (save codec faults store (some "etc") 420 credentials missing).1
        ≡ ok credentials)
      × ((save codec faults store (some "etc") 420 credentials missing).1 ≡ stored "{n1, s1}" 384))
    ⊎ ((error : SdkError) × ((save codec faults store (some "etc") 420 credentials missing).0
          ≡ err error)
        × (((save codec faults store (some "etc") 420 credentials missing).1 ≡ missing)
            ⊎ ((text : String) × ((save codec faults store (some "etc") 420 credentials missing).1
                  ≡ written 420 text missing))))
save-load_example = save-load codec faults store (some "etc") 420 credentials missing refl refl

abbrev library : Json
library = sample_json []

abbrev event : GatewayEvent library
event = record {
  severity = major;
  category = "vendor_api";
  message = "no answer";
  details = object (field "attempts" (string "3") end);
  flow_id = some "f1";
  input_id = none;
  output_id = none;
}

to_payload-Describes_example :
    Describes library (to_payload library event) event
    × (library.get (to_payload library (with_error_code library event "http_timeout")) "details"
        ≡ some (with_error_code library event "http_timeout").details)
    × (get_str library (with_error_code library event "http_timeout").details "error_code"
        ≡ some "http_timeout")
    × (library.get (with_error_code library event "http_timeout").details "attempts"
        ≡ library.get event.details "attempts")
to_payload-Describes_example = to_payload-Describes library event "http_timeout" "attempts" refl

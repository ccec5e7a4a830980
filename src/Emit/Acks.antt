-- ===== src/Emit/Acks.antt =====
-- src/emit.rs, `command_ack_payload`: what the manager reads in an ack.
use bilbycast_gateway_sdk.Base.{
  String, Bool, true, false, ◌≡◌, refl, ap, Option, none, some, Result, ok, err, if◌then◌else◌,
  arith,
}
use bilbycast_gateway_sdk.Json.{Json}
use bilbycast_gateway_sdk.Json.Laws.{map_laws}
use bilbycast_gateway_sdk.Emit.{CommandError, command_ack_payload}

module _ (j : Json) where
  open j use {Value, string, bool, is_null, get}

  -- The entries of the ack for a result.
  abbrev pub success_of : Result (CommandError j) Value → Bool
  success_of (ok v) = true
  success_of (err e) = false

  abbrev pub data_of : Result (CommandError j) Value → Option Value
  data_of (ok v) = if is_null v then none else some v
  data_of (err e) = none

  abbrev pub error_of : Result (CommandError j) Value → Option Value
  error_of (ok v) = none
  error_of (err e) = some (string e.message)

  abbrev pub code_of : Result (CommandError j) Value → Option Value
  code_of (ok v) = none
  code_of (err e) = some (string e.code)

  abbrev pub details_of : Result (CommandError j) Value → Option Value
  details_of (ok v) = none
  details_of (err e) = e.details

  pub record Acknowledges (ack : Value) (id : String) (r : Result (CommandError j) Value)
      : Type 0 where
    pub command_id : get ack "command_id" ≡ some (string id)
    pub success : get ack "success" ≡ some (bool (success_of r))
    pub result : get ack "data" ≡ data_of r
    pub error : get ack "error" ≡ error_of r
    pub error_code : get ack "error_code" ≡ code_of r
    pub details : get ack "details" ≡ details_of r

module _ (j : Json) (id : String) where
  open j use {Map, insert, object, empty}

  -- What every ack begins with.
  begun : Bool → Map
  begun b = insert "success" (j.bool b) (insert "command_id" (j.string id) empty)

  payload_null :
      (v : j.Value) → j.is_null v ≡ true → command_ack_payload j id (ok v) ≡ object (begun true)
  unfolding command_ack_payload begun
  payload_null v e = ap object (ground (arith, e))

  payload_data :
      (v : j.Value)
      → j.is_null v ≡ false
      → command_ack_payload j id (ok v) ≡ object (insert "data" v (begun true))
  unfolding command_ack_payload begun
  payload_data v e = ap object (ground (arith, e))

  failed : CommandError j → Map
  failed e =
      insert "error_code" (j.string e.code) (insert "error" (j.string e.message) (begun false))

  payload_error :
      (e : CommandError j) → e.details ≡ none → command_ack_payload j id (err e) ≡ object (failed e)
  unfolding command_ack_payload failed begun
  payload_error e p = ap object (ground (arith, p))

  payload_details :
      (e : CommandError j) (d : j.Value)
      → e.details ≡ some d
      → command_ack_payload j id (err e) ≡ object (insert "details" d (failed e))
  unfolding command_ack_payload failed begun
  payload_details e d p = ap object (ground (arith, p))

  ack_ok :
      (v : j.Value) (b : Bool)
      → j.is_null v ≡ b
      → Acknowledges j (command_ack_payload j id (ok v)) id (ok v)
  unfolding begun
  ack_ok v true e = rw (payload_null v e) (record {
    command_id = simp map_laws;
    success = simp map_laws;
    result = rw e (simp map_laws);
    error = simp map_laws;
    error_code = simp map_laws;
    details = simp map_laws;
  })
  ack_ok v false e = rw (payload_data v e) (record {
    command_id = simp map_laws;
    success = simp map_laws;
    result = rw e (simp map_laws);
    error = simp map_laws;
    error_code = simp map_laws;
    details = simp map_laws;
  })

  ack_err :
      (e : CommandError j) (o : Option j.Value)
      → e.details ≡ o
      → Acknowledges j (command_ack_payload j id (err e)) id (err e)
  unfolding failed begun
  ack_err e none p = rw (payload_error e p) (record {
    command_id = simp map_laws;
    success = simp map_laws;
    result = simp map_laws;
    error = simp map_laws;
    error_code = simp map_laws;
    details = rw p (simp map_laws);
  })
  ack_err e (some d) p = rw (payload_details e d p) (record {
    command_id = simp map_laws;
    success = simp map_laws;
    result = simp map_laws;
    error = simp map_laws;
    error_code = simp map_laws;
    details = rw p (simp map_laws);
  })

-- The ack of a command names it, says whether it succeeded, carries the result unless that is null,
-- or the error with its message, its code and its details where there are some; and nothing of the
-- one in the other case.
pub command_ack_payload-Acknowledges :
    (j : Json) (id : String) (r : Result (CommandError j) j.Value)
    → Acknowledges j (command_ack_payload j id r) id r
command_ack_payload-Acknowledges j id (ok v) = ack_ok j id v (j.is_null v) refl
command_ack_payload-Acknowledges j id (err e) = ack_err j id e e.details refl

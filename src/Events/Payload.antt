-- ===== src/Events/Payload.antt =====
-- src/events.rs, `to_payload` and `with_error_code`: what the manager reads in an event.
use bilbycast_gateway_sdk.Base.{
  String, false, ◌≡◌, refl, sym, ◌∙◌, [], ◌∷◌, Option, none, some, Bool-cases, inl, inr,
  if◌then◌else◌, str_eq,
}
use bilbycast_gateway_sdk.Json.{Json, get_str, obj}
use bilbycast_gateway_sdk.Json.Laws.{map_laws, get_str-obj, get-obj}
use bilbycast_gateway_sdk.Events.{
  GatewayEvent, as_str, to_payload, insert_text, insert_details, with_error_code, coded,
}

module _ (j : Json) where
  open j use {Value, Map, string, is_null, get, lookup, object, as_object}

  abbrev pub text_of : Option String → Option Value → Option Value
  text_of none o = o
  text_of (some v) o = some (string v)

  abbrev pub unless_null : Value → Option Value
  unless_null v = if is_null v then none else some v

  -- What each key of an event's payload holds.
  pub record Describes (payload : Value) (e : GatewayEvent j) : Type 0 where
    pub severity : get payload "severity" ≡ some (string (as_str e.severity))
    pub category : get payload "category" ≡ some (string e.category)
    pub message : get payload "message" ≡ some (string e.message)
    pub details : get payload "details" ≡ unless_null e.details
    pub flow_id : get payload "flow_id" ≡ text_of e.flow_id none
    pub input_id : get payload "input_id" ≡ text_of e.input_id none
    pub output_id : get payload "output_id" ≡ text_of e.output_id none

  lookup-insert_text :
      (k i : String) (o : Option String) (m : Map)
      → lookup i (insert_text j k o m) ≡ (if str_eq k i then text_of o (lookup i m) else lookup i m)
  unfolding insert_text
  lookup-insert_text k i none m = elim (Bool-cases (str_eq k i)) [
    | inl e ↦ rw e refl
    | inr e ↦ rw e refl
  ]
  lookup-insert_text k i (some v) m = j.lookup-insert k i (string v) m

  lookup-insert_details :
      (i : String) (d : Value) (m : Map)
      → lookup i (insert_details j d m)
        ≡ (if str_eq "details" i then (if is_null d then lookup i m else some d) else lookup i m)
  unfolding insert_details
  lookup-insert_details i d m = elim (Bool-cases (is_null d)) [
    | inl e ↦ elim (Bool-cases (str_eq "details" i)) [
      | inl e' ↦ rw (e, e', insert_details) refl
      | inr e' ↦ rw (e, e', insert_details) refl
    ]
    | inr e ↦ rw (e, insert_details) (j.lookup-insert "details" i d m)
  ]

  to_payload-lem : (e : GatewayEvent j) → Describes (to_payload j e) e
  unfolding to_payload
  to_payload-lem e = record {
    severity = simp (lookup-insert_text, lookup-insert_details, map_laws);
    category = simp (lookup-insert_text, lookup-insert_details, map_laws);
    message = simp (lookup-insert_text, lookup-insert_details, map_laws);
    details = simp (lookup-insert_text, lookup-insert_details, map_laws);
    flow_id = simp (lookup-insert_text, lookup-insert_details, map_laws);
    input_id = simp (lookup-insert_text, lookup-insert_details, map_laws);
    output_id = simp (lookup-insert_text, lookup-insert_details, map_laws);
  }

  -- The details with an error code: an object's other entries stay.
  record Coded (d : Value) (code key : String) (v : Value) : Type 0 where
    error_code : get_str j v "error_code" ≡ some code
    others : get v key ≡ get d key
    not_null : is_null v ≡ false

  coded-Coded :
      (d : Value) (code key : String) (o : Option Map)
      → as_object d ≡ o
      → str_eq "error_code" key ≡ false
      → Coded d code key (coded j o code)
  unfolding coded get_str obj
  coded-Coded d code key none e ne = record {
    error_code = get_str-obj j "error_code" code (("error_code", string code) ∷ []) refl;
    others =
        get-obj j key (("error_code", string code) ∷ [])
        ∙ rw ne refl
        ∙ sym (j.get-not_object d key e);
    not_null = j.is_null-object _;
  }
  coded-Coded d code key (some m) e ne = record {
    error_code =
        rw
          (
            j.get-object (j.insert "error_code" (string code) m) "error_code",
            j.lookup-insert "error_code" "error_code" (string code) m,
            get_str,
          )
          (j.as_str-string code);
    others =
        j.get-object (j.insert "error_code" (string code) m) key
        ∙ j.lookup-insert "error_code" key (string code) m
        ∙ rw ne refl
        ∙ sym (j.get-as_object d m key e);
    not_null = j.is_null-object _;
  }

  -- What each key of an event's payload holds, the details being left out if they are null. With an
  -- error code, whatever the details were, they hold the code, and what they held under other keys.
  pub to_payload-Describes :
      (e : GatewayEvent j) (code key : String)
      → str_eq "error_code" key ≡ false
      → Describes (to_payload j e) e
        × (get (to_payload j (with_error_code j e code)) "details"
            ≡ some (with_error_code j e code).details)
        × (get_str j (with_error_code j e code).details "error_code" ≡ some code)
        × (get (with_error_code j e code).details key ≡ get e.details key)
  unfolding with_error_code
  to_payload-Describes e code key ne =
      let c = coded-Coded e.details code key (as_object e.details) refl ne in
      (
        to_payload-lem e,
        (to_payload-lem (with_error_code j e code)).details ∙ rw c.not_null refl,
        c.error_code,
        c.others,
      )

-- ===== src/Json.antt =====
-- The JSON library (serde_json) that the SDK calls, as an interface: the operations the source uses
-- with the laws of their documentation. `get` is `Value::get` with a string, `as_object` the match
-- on `Value::Object`, and a map keeps one value for each key. `from_str` is partial: it is `none`
-- on a text that is not JSON. `to_string` of a value always gives a text.
pub mod Laws
use bilbycast_gateway_sdk.Base.{
  ℕ, String, Bool, true, false, ◌≡◌, Option, none, some, List, [], ◌∷◌, str_eq, if◌then◌else◌,
}

pub record Json : Type 1 where
  pub Value : Type 0
  pub Map : Type 0
  pub null : Value
  pub bool : Bool → Value
  pub number : ℕ → Value
  pub string : String → Value
  pub object : Map → Value
  pub empty : Map
  pub insert : String → Value → Map → Map
  pub lookup : String → Map → Option Value
  pub is_null : Value → Bool
  pub as_str : Value → Option String
  pub as_object : Value → Option Map
  pub get : Value → String → Option Value
  pub from_str : String → Option Value
  pub to_string : Value → String
  pub lookup-empty : (k : String) → lookup k empty ≡ none
  pub lookup-insert :
      (k j : String) (v : Value) (m : Map)
      → lookup j (insert k v m) ≡ (if str_eq k j then some v else lookup j m)
  pub as_object-object : (m : Map) → as_object (object m) ≡ some m
  pub get-object : (m : Map) (k : String) → get (object m) k ≡ lookup k m
  pub get-as_object :
      (v : Value) (m : Map) (k : String) → as_object v ≡ some m → get v k ≡ lookup k m
  pub get-not_object : (v : Value) (k : String) → as_object v ≡ none → get v k ≡ none
  pub as_str-string : (s : String) → as_str (string s) ≡ some s
  pub is_null-null : is_null null ≡ true
  pub is_null-string : (s : String) → is_null (string s) ≡ false
  pub is_null-object : (m : Map) → is_null (object m) ≡ false

module _ (j : Json) where
  open j use {Value, Map, empty, insert, object, as_str, get}

  -- `json!({ k: v, ... })`: the entries are inserted in order.
  abbrev pub fields : List (String × Value) → Map → Map
  fields [] m = m
  fields ((k, v) ∷ kvs) m = fields kvs (insert k v m)

  unfoldable pub obj : List (String × Value) → Value
  obj kvs = object (fields kvs empty)

  -- `v.get(k).and_then(|v| v.as_str())`
  unfoldable pub get_str : Value → String → Option String
  get_str v k = elim (get v k) [ none ↦ none | some w ↦ as_str w ]

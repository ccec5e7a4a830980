-- ===== src/Json/Laws.antt =====
-- What the interface's laws give for objects built field by field.
use bilbycast_gateway_sdk.Base.{
  String, ◌≡◌, refl, ◌∙◌, Option, none, some, List, [], ◌∷◌, str_eq, if◌then◌else◌,
}
use bilbycast_gateway_sdk.Json.{Json, fields, obj, get_str}

-- The value of a key: that of its last entry.
module _ {ℓ} {V : Type ℓ} where
  abbrev pub last_of : String → List (String × V) → Option V → Option V
  last_of k [] o = o
  last_of k ((j, v) ∷ kvs) o = last_of k kvs (if str_eq j k then some v else o)

module _ (j : Json) where
  open j use {Value, Map, lookup, get, empty, insert}

  lookup-fields :
      (k : String) (kvs : List (String × Value)) (m : Map)
      → lookup k (fields j kvs m) ≡ last_of k kvs (lookup k m)
  lookup-fields k [] m = refl
  lookup-fields k ((i, v) ∷ kvs) m =
      rw (lookup-fields k kvs (insert i v m), j.lookup-insert i k v m) refl

  pub get-obj : (k : String) (kvs : List (String × Value)) → get (obj j kvs) k ≡ last_of k kvs none
  unfolding obj
  get-obj k kvs =
      j.get-object (fields j kvs empty) k ∙ rw (lookup-fields k kvs empty, j.lookup-empty k) refl

  pub get_str-obj :
      (k s : String) (kvs : List (String × Value))
      → last_of k kvs none ≡ some (j.string s)
      → get_str j (obj j kvs) k ≡ some s
  unfolding get_str
  get_str-obj k s kvs e = rw (get-obj k kvs, e, get_str) (j.as_str-string s)

-- The interface's laws for maps, for `simp`.
module _ (j : Json) where
  open j use {Value, Map, object, empty, insert, lookup, get}

  pub get_lem : (m : Map) (k : String) → get (object m) k ≡ lookup k m
  get_lem = j.get-object

  pub lookup-insert :
      (k i : String) (v : Value) (m : Map)
      → lookup i (insert k v m) ≡ (if str_eq k i then some v else lookup i m)
  lookup-insert = j.lookup-insert

  pub lookup-empty : (k : String) → lookup k empty ≡ none
  lookup-empty = j.lookup-empty

pub ruleset map_laws = (get_lem, lookup-insert, lookup-empty)

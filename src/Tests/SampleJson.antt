-- ===== src/Tests/SampleJson.antt =====
-- A small JSON library that has the laws which the model asks of one: maps are lists of entries of
-- which the first counts, texts are written without escapes, and the texts that it reads are listed.
use bilbycast_gateway_sdk.Base.{
  ℕ, ◌+◌, ◌≡◌, zero, suc, ◌/◌, ◌%◌, String, append, Bool, true, false, Option, none, some, List, [],
  ◌∷◌, refl, ap, ltb, str_eq, if◌then◌else◌, arith,
}
use Prim.Native.String.{slice}
use mathlib.Core.Option.{some-injective}
use bilbycast_gateway_sdk.Json.{Json}

mutual
  pub data Value : Type 0 where
    null : Value
    bool : Bool → Value
    number : ℕ → Value
    string : String → Value
    object : Fields → Value

  pub data Fields : Type 0 where
    end : Fields
    field : String → Value → Fields → Fields

abbrev pub lookup : String → Fields → Option Value
lookup k end = none
lookup k (field l v fs) = if str_eq l k then some v else lookup k fs

abbrev is_null : Value → Bool
is_null null = true
is_null (bool b) = false
is_null (number n) = false
is_null (string s) = false
is_null (object fs) = false

abbrev as_str : Value → Option String
as_str (string s) = some s
as_str null = none
as_str (bool b) = none
as_str (number n) = none
as_str (object fs) = none

abbrev as_object : Value → Option Fields
as_object (object fs) = some fs
as_object null = none
as_object (bool b) = none
as_object (number n) = none
as_object (string s) = none

abbrev get : Value → String → Option Value
get v k = elim (as_object v) [ none ↦ none | some fs ↦ lookup k fs ]

abbrev digit : ℕ → String
digit n = slice "0123456789" n (n + 1)

abbrev decimal : ℕ → ℕ → String
decimal zero n = ""
decimal (suc fuel) n =
    let rest = decimal fuel (n / 10) in if ltb n 10 then digit n else append rest (digit (n % 10))

abbrev quoted : String → String
quoted s = append "\"" (append s "\"")

abbrev mutual
  print : Value → String
  print null = "null"
  print (bool true) = "true"
  print (bool false) = "false"
  print (number n) = decimal 20 n
  print (string s) = quoted s
  print (object fs) = append "{" (append (print_fields fs) "}")

  print_fields : Fields → String
  print_fields end = ""
  print_fields (field k v fs) =
      append (quoted k) (append ":" (append (print v) (append "," (print_fields fs))))

abbrev pub read : List (String × Value) → String → Option Value
read [] text = none
read ((t, v) ∷ known) text = if str_eq t text then some v else read known text

pub get-as_object :
    (v : Value) (m : Fields) (k : String) → as_object v ≡ some m → get v k ≡ lookup k m
get-as_object null m k h = absurd (ground (arith, h))
get-as_object (bool b) m k h = absurd (ground (arith, h))
get-as_object (number n) m k h = absurd (ground (arith, h))
get-as_object (string s) m k h = absurd (ground (arith, h))
get-as_object (object fs) m k h = ap (lookup k) (some-injective fs m h)

pub get-not_object : (v : Value) (k : String) → as_object v ≡ none → get v k ≡ none
get-not_object null k h = refl
get-not_object (bool b) k h = refl
get-not_object (number n) k h = refl
get-not_object (string s) k h = refl
get-not_object (object fs) k h = ground arith

-- The library that reads the listed texts.
abbrev pub sample_json : List (String × Value) → Json
sample_json known = record {
  Value = Value;
  Map = Fields;
  null = null;
  bool = bool;
  number = number;
  string = string;
  object = object;
  empty = end;
  insert = field;
  lookup = lookup;
  is_null = is_null;
  as_str = as_str;
  as_object = as_object;
  get = get;
  from_str = read known;
  to_string = print;
  lookup-empty = λ k. refl;
  lookup-insert = λ k j v m. refl;
  as_object-object = λ m. refl;
  get-object = λ m k. refl;
  get-as_object = get-as_object;
  get-not_object = get-not_object;
  as_str-string = λ s. refl;
  is_null-null = refl;
  is_null-string = λ s. refl;
  is_null-object = λ m. refl;
}

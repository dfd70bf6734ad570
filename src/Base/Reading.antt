-- ===== src/Base/Reading.antt =====
-- What the program does with the values of a JSON payload that it reads: str(value), iteration,
-- payload[key] and payload.get(key), and the payload of a text, of an option and of a list.
use Prim.Native.String.{String}
use mathlib.Core.Path.{◌≡◌, refl, ap}
use mathlib.Core.Bool.{Bool, true, false}
use mathlib.Core.Option.{Option, none, some}
use mathlib.Core.List.{List, [], ◌∷◌, map}
use project_os.Base.Results.{Result, ok, raise}
use project_os.Base.Enums.{Enum, of_value}
use project_os.Base.Payloads.{
  Json, Items, Fields, null, truth, number, text, array, object, nil, cons, end, field, member,
}

-- KeyError, the ValueError of an enumeration, and the TypeError of an iteration
pub data PayloadError : Type 0 where
  missing_key unknown_value not_iterable : PayloadError

-- {key: value, ...}
abbrev pub dict_of : List (String × Json) → Fields
dict_of [] = end
dict_of ((key, value) ∷ rest) = field key value (dict_of rest)

abbrev pub text_or_null : Option String → Json
text_or_null none = null
text_or_null (some s) = text s

abbrev texts : List String → Items
texts [] = nil
texts (s ∷ rest) = cons (text s) (texts rest)

-- list(values)
abbrev pub text_array : List String → Json
text_array values = array (texts values)

-- payload[key]
abbrev pub required : String → Fields → Result PayloadError Json
required key payload = elim (member key payload) [
  | none ↦ raise missing_key
  | some value ↦ ok value
]

-- payload.get(key, default)
abbrev pub member_or : Json → String → Fields → Json
member_or default key payload = elim (member key payload) [ none ↦ default | some value ↦ value ]

-- value is True
abbrev pub is_true : Json → Bool
is_true (truth b) = b
is_true value = false

-- value is not False
abbrev pub is_not_false : Json → Bool
is_not_false (truth b) = b
is_not_false value = true

-- E(s)
abbrev pub known : {A : Type 0} → Enum A → String → Result PayloadError A
known m s = elim (of_value m s) [ none ↦ raise unknown_value | some a ↦ ok a ]

abbrev values_of : Items → List Json
values_of nil = []
values_of (cons value rest) = value ∷ values_of rest

abbrev keys_of : Fields → List Json
keys_of end = []
keys_of (field key value rest) = text key ∷ keys_of rest

abbrev characters : String → List Json
characters String.[] = []
characters (String.◌∷◌ c s) = text (String.◌∷◌ c "") ∷ characters s

-- for value in payload
abbrev iterate : Json → Result PayloadError (List Json)
iterate null = raise not_iterable
iterate (truth b) = raise not_iterable
iterate (number n) = raise not_iterable
iterate (text s) = ok (characters s)
iterate (array items) = ok (values_of items)
iterate (object payload) = ok (keys_of payload)

-- repr(value) of a list or a dict is a parameter.
module _ (repr : Json → String) where
  -- str(value)
  abbrev pub str_of : Json → String
  str_of null = "None"
  str_of (truth true) = "True"
  str_of (truth false) = "False"
  str_of (number n) = n
  str_of (text s) = s
  str_of (array items) = repr (array items)
  str_of (object payload) = repr (object payload)

  abbrev some_text : Json → Option String
  some_text null = none
  some_text (truth b) = some (str_of (truth b))
  some_text (number n) = some n
  some_text (text s) = some s
  some_text (array items) = some (repr (array items))
  some_text (object payload) = some (repr (object payload))

  -- str(payload[key]) if payload.get(key) is not None else None
  abbrev pub optional : String → Fields → Option String
  optional key payload = some_text (member_or null key payload)

  -- str(payload[key])
  abbrev pub required_text : String → Fields → Result PayloadError String
  required_text key payload = elim (member key payload) [
    | none ↦ raise missing_key
    | some value ↦ ok (str_of value)
  ]

  -- tuple(str(value) for value in values)
  abbrev pub text_tuple : Json → Result PayloadError (List String)
  text_tuple values = elim (iterate values) [ raise e ↦ raise e | ok found ↦ ok (map str_of found) ]

  pub some_text-text_or_null : (o : Option String) → some_text (text_or_null o) ≡ o
  some_text-text_or_null none = refl
  some_text-text_or_null (some s) = refl

  map-str_of-texts : (values : List String) → map str_of (values_of (texts values)) ≡ values
  map-str_of-texts [] = refl
  map-str_of-texts (s ∷ rest) = ap (λ left. s ∷ left) (map-str_of-texts rest)

  pub text_tuple-text_array : (values : List String) → text_tuple (text_array values) ≡ ok values
  text_tuple-text_array values = ap ok (map-str_of-texts values)

-- A member of an enumeration is known by its value.
pub known-value : {A : Type 0} (m : Enum A) (a : A) → known m (m.value a) ≡ ok a
known-value m a = rw (m.found a, known) refl

-- ===== src/Client/Json.antt =====
-- The part of json-c that the client calls. json-c is not part of the repository, so a JSON value is
-- of any type `J`, and its functions are the fields of a record that the definitions take. A NULL
-- `json_object *`, which is also how json-c spells JSON null, is `none`.
use the_convex_100_language.Common.{Bool, false, Option, none, some, List, Bytes, ℤ}

-- `enum json_type`
pub data JsonType : Type 0 where
  null boolean double int object array string : JsonType

pub record JsonLib (J : Type 0) : Type 0 where
  pub get_type : J → JsonType
  -- `json_object_object_get_ex`: `none` for a missing key, `some none` for a member that is null.
  pub get_ex : J → Bytes → Option (Option J)
  pub get_int64 : J → ℤ
  pub get_string : J → Bytes
  -- `json_object_array_length` and `json_object_array_get_idx`
  pub elements : J → List (Option J)
  pub equal : J → J → Bool
  -- `json_object_new_object` with one `json_object_object_add` for each member, in order.
  pub new_object : List (Bytes × Option J) → J
  pub new_array : List (Option J) → J
  pub new_string : Bytes → J
  pub new_int64 : ℤ → J
  -- `json_object_to_json_string_ext(…, JSON_C_TO_STRING_PLAIN)`
  pub to_plain : J → Bytes
  pub parse : Bytes → Option J

-- The functions at a pointer that may be NULL, as json-c documents them.
module _ {J : Type 0} (json : JsonLib J) where
  abbrev pub type_of : Option J → JsonType
  type_of none = JsonType.null
  type_of (some j) = json.get_type j

  abbrev pub member : Option J → Bytes → Option (Option J)
  member none key = none
  member (some j) key = json.get_ex j key

  abbrev pub string_of : Option J → Option Bytes
  string_of none = none
  string_of (some j) = some (json.get_string j)

  abbrev pub elements_of : Option J → List (Option J)
  elements_of none = List.[]
  elements_of (some j) = json.elements j

-- `json_object_object_get_ex` leaves its out-parameter NULL for a missing key.
abbrev pub found {ℓ} : {A : Type ℓ} → Option (Option A) → Option A
found none = none
found (some o) = o

abbrev pub is_some {ℓ} : {A : Type ℓ} → Option A → Bool
is_some none = false
is_some (some _) = Bool.true

-- `json_object_get_type(…) == type`
abbrev pub is_type : JsonType → JsonType → Bool
is_type JsonType.null JsonType.null = Bool.true
is_type JsonType.boolean JsonType.boolean = Bool.true
is_type JsonType.double JsonType.double = Bool.true
is_type JsonType.int JsonType.int = Bool.true
is_type JsonType.object JsonType.object = Bool.true
is_type JsonType.array JsonType.array = Bool.true
is_type JsonType.string JsonType.string = Bool.true
is_type _ _ = false

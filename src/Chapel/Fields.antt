-- ===== src/Chapel/Fields.antt =====
-- `parse_json`, `json_key_equals`, `find_top_level_field` and `ct_json_integral_field`: an integer that
-- is a field of an object, read from its text.
pub mod Last
pub mod Integral
use the_convex_100_language.Common.{
  ℕ, zero, suc, ◌-◌, Bool, true, false, not, ◌&&◌, ◌||◌, Option, none, some, [], ◌∷◌, length, take,
  drop, ◌==◌, if◌then◌else◌, Bytes, same, ℤ,
}
use the_convex_100_language.Client.Json.{JsonLib, JsonType, is_type, type_of, is_some}
use the_convex_100_language.Chapel.Chars.{head, tail, skip_space}
use the_convex_100_language.Chapel.Json.{
  Cursor, at, null, beyond, out_of_fuel, skip_json_string_token, skip_json_value, value_fuel,
}
use the_convex_100_language.Chapel.Decimal.{decimal_to_int64}

-- What `json_tokener_parse_ex` leaves: its value, whether it reports success, and where it stopped.
pub record Tokened (J : Type 0) : Type 0 where
  pub value : Option J
  pub success : Bool
  pub parse_end : ℕ

-- The search: the function returned 0, or came to the end of the object with what it found last. It is
-- `astray` when the cursor runs over the end of the text, or the fuel is used up.
pub data Search : Type 0 where
  refused astray : Search
  ended : Option Bytes → Search

abbrev pub search : Cursor → (Bytes → Search) → Search
search (at s) f = f s
search null f = refused
search beyond f = astray
search out_of_fuel f = astray

-- The bytes from one cursor to another one behind it.
abbrev pub between : Bytes → Bytes → Bytes
between start end = take (length start - length end) start

module _ {J : Type 0} (json : JsonLib J) (parse_ex : Bytes → Tokened J) where
  -- `parse_json`: nothing but white space may follow the value.
  unfoldable pub parse_json : Bytes → Option J
  parse_json s =
      let t = parse_ex s in
      if not t.success || not (length (skip_space (drop t.parse_end s)) == 0) then none else t.value

  abbrev is_field : Bytes → Option J → Bool
  is_field field none = false
  is_field field (some key) =
      is_type (json.get_type key) JsonType.string && same (json.get_string key) field

  unfoldable pub json_key_equals : Bytes → Bytes → Bool
  json_key_equals encoded field = is_field field (parse_json encoded)

  unfoldable pub field_rounds : ℕ → Bytes → Bytes → Option Bytes → Search
  field_rounds zero field cursor found = astray
  field_rounds (suc n) field cursor found =
      let pass = search (skip_json_string_token cursor) λ key_end.
        let colon = skip_space key_end in
        let start = skip_space (tail colon) in
        let value = search (skip_json_value (value_fuel start) start 1) λ end.
          let now =
            if json_key_equals (between cursor key_end) field
            then some (between start end)
            else found in
          let after = skip_space end in
          let more = field_rounds n field (skip_space (tail after)) now in
          if head after == b'}' then ended now else if head after == b',' then more else refused in
        if head colon == b':' then value else refused in
      if (length cursor == 0) || (head cursor == b'}') then ended found else pass

  -- Each round takes a character at least.
  unfoldable pub find_top_level_field : Bytes → Bytes → Search
  find_top_level_field s field =
      let cursor = skip_space s in
      if head cursor == b'{'
      then field_rounds (length cursor) field (skip_space (tail cursor)) none
      else refused

  abbrev integral : Search → Option ℤ
  integral (ended (some lexeme)) = decimal_to_int64 lexeme
  integral _ = none

  -- Allocation succeeds.
  unfoldable pub ct_json_integral_field : Bytes → Bytes → Option ℤ
  ct_json_integral_field s field =
      if not (is_type (type_of json (parse_json s)) JsonType.object)
      then none
      else integral (find_top_level_field s field)

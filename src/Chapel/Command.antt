-- ===== src/Chapel/Command.antt =====
-- `ct_validate_adapter_command` with `exact_fields`, `string_field`, `object_field` and
-- `ct_valid_http_field_value`.
pub mod Keys
pub mod Accepts
use the_convex_100_language.Common.{
  ℕ, zero, suc, ◌+◌, Bool, true, false, not, ◌&&◌, ◌||◌, Option, none, some, List, [], ◌∷◌, length,
  ltb, leb, ◌==◌, if◌then◌else◌, Bytes, text, same, ℤ, pos, negsuc,
}
use the_convex_100_language.Client.Json.{JsonLib, JsonType, is_type, is_some, found}
use the_convex_100_language.Chapel.Utf8.{has_nul, utf8_scalar_count}
use the_convex_100_language.Chapel.Fields.{Tokened, parse_json}

-- `byte == 0 || byte == '\r' || byte == '\n' || byte == 0x7f || (byte < 0x20 && byte != '\t')`
abbrev is_control : ℕ → Bool
is_control byte =
    (byte == 0)
    || (byte == 13)
    || (byte == 10)
    || (byte == 0x7f)
    || (ltb byte 0x20 && not (byte == 9))

unfoldable pub no_controls : Bytes → Bool
no_controls [] = true
no_controls (byte ∷ value) = not (is_control byte) && no_controls value

-- A buffer of `size` bytes; NULL is `none`.
unfoldable pub ct_valid_http_field_value : Option Bytes → ℕ → Bool
ct_valid_http_field_value none size = size == 0
ct_valid_http_field_value (some value) size = if size == 0 then true else no_controls value

-- The three messages.
pub data Complaint : Type 0 where
  no_object no_id_or_op no_match : Complaint

-- The out-parameter `safe_id`, and 1 or the error.
pub record Verdict : Type 0 where
  pub safe_id : Option Bytes
  pub complaint : Option Complaint

abbrev pub at_least : ℕ → Option ℕ → Bool
at_least n none = false
at_least n (some count) = leb n count

abbrev pub is_one : ℤ → Bool
is_one (pos n) = n == 1
is_one (negsuc n) = false

abbrev pub hello : List Bytes
hello = text "protocolVersion" ∷ text "id" ∷ text "op" ∷ []

abbrev pub call : List Bytes
call = text "id" ∷ text "op" ∷ text "path" ∷ text "args" ∷ []

abbrev pub subscribe : List Bytes
subscribe = text "id" ∷ text "op" ∷ text "subscriptionId" ∷ text "path" ∷ text "args" ∷ []

abbrev pub unsubscribe : List Bytes
unsubscribe = text "id" ∷ text "op" ∷ text "subscriptionId" ∷ []

abbrev pub auth : List Bytes
auth = text "id" ∷ text "op" ∷ text "token" ∷ []

abbrev pub control : List Bytes
control = text "id" ∷ text "op" ∷ []

module _ {J : Type 0} (json : JsonLib J) (object_length : J → ℕ) where
  unfoldable pub has_fields : J → List Bytes → Bool
  has_fields root [] = true
  has_fields root (f ∷ fields) = is_some (json.get_ex root f) && has_fields root fields

  unfoldable pub exact_fields : J → List Bytes → Bool
  exact_fields root fields = (object_length root == length fields) && has_fields root fields

  abbrev string_of_value : Option J → Option Bytes
  string_of_value none = none
  string_of_value (some value) =
      if is_type (json.get_type value) JsonType.string
      then (if has_nul (json.get_string value) then none else some (json.get_string value))
      else none

  unfoldable pub string_field : J → Bytes → Option Bytes
  string_field root name = string_of_value (found (json.get_ex root name))

  abbrev pub has_type : JsonType → Option J → Bool
  has_type type none = false
  has_type type (some value) = is_type (json.get_type value) type

  unfoldable pub object_field : J → Bytes → Bool
  object_field root name = has_type JsonType.object (found (json.get_ex root name))

  -- A string field with so many characters.
  abbrev pub counted : Option Bytes → ℕ → Bool → ℕ → Bool
  counted none maximum nonblank least = false
  counted (some value) maximum nonblank least =
      at_least least (utf8_scalar_count value maximum nonblank)

  abbrev pub id_field : J → Bytes → Bool
  id_field root name = counted (string_field root name) 128 true 1

  abbrev pub path_field : J → Bool
  path_field root = counted (string_field root (text "path")) 1024 false 3

  abbrev is_version_one : Option J → Bool
  is_version_one none = false
  is_version_one (some version) =
      is_type (json.get_type version) JsonType.int && is_one (json.get_int64 version)

  abbrev token_field : Option Bytes → Bool
  token_field none = false
  token_field (some token) = ct_valid_http_field_value (some token) (length token)

  -- The variable `valid`.
  unfoldable pub is_valid : J → Bytes → Bool
  is_valid root operation =
      if same operation (text "hello")
      then exact_fields root hello
        && is_version_one (found (json.get_ex root (text "protocolVersion")))
      else if same operation (text "query")
          || same operation (text "mutation")
          || same operation (text "action")
      then exact_fields root call && path_field root && object_field root (text "args")
      else if same operation (text "subscribe")
      then exact_fields root subscribe
        && id_field root (text "subscriptionId")
        && path_field root
        && object_field root (text "args")
      else if same operation (text "unsubscribe")
      then exact_fields root unsubscribe && id_field root (text "subscriptionId")
      else if same operation (text "setAuth")
      then exact_fields root auth && token_field (string_field root (text "token"))
      else if same operation (text "debugDisconnect") || same operation (text "close")
      then exact_fields root control
      else false

  -- `id` when it is a string of 1 to 128 characters that are not all white space.
  unfoldable pub read_id : J → Option Bytes
  read_id root = if id_field root (text "id") then string_field root (text "id") else none

  abbrev judge : J → Option Bytes → Option Bytes → Verdict
  judge root (some id) (some operation) = record {
    safe_id = some id;
    complaint = if is_valid root operation then none else some no_match;
  }
  judge root id operation = record { safe_id = id; complaint = some no_id_or_op }

  abbrev examine : Option J → Verdict
  examine none = record { safe_id = none; complaint = some no_object }
  examine (some root) =
      if is_type (json.get_type root) JsonType.object
      then judge root (read_id root) (string_field root (text "op"))
      else record { safe_id = none; complaint = some no_object }

  -- Allocation succeeds.
  unfoldable pub ct_validate_adapter_command : (Bytes → Tokened J) → Bytes → Verdict
  ct_validate_adapter_command parse_ex s = examine (parse_json json parse_ex s)

-- ===== src/Chapel/Fields/Integral.antt =====
-- `ct_json_integral_field` on objects as they are written.
use the_convex_100_language.Common.{◌<◌, Option, none, some, if◌then◌else◌, Bytes, ℤ}
use the_convex_100_language.Client.Json.{JsonLib}
use the_convex_100_language.Chapel.Json.Syntax.{
  print_string, Value, numeral, Fields, last_field, field, print, IsJson,
}
use the_convex_100_language.Chapel.Decimal.Literal.{size}
use the_convex_100_language.Chapel.Decimal.Exact.{IsValue}
use the_convex_100_language.Chapel.Fields.{Tokened, json_key_equals}

abbrev print_found : Option Value → Option Bytes
print_found none = none
print_found (some v) = some (print v)

-- What the value of a field, if there is one, means as an integer of 64 bits.
abbrev pub Means : Option Value → ℤ → Type 0
Means none z = ⊥
Means (some (numeral l)) z = IsValue l z
Means (some v) z = ⊥

-- A number has an exponent below ten thousand.
abbrev pub IsSmall : Option Value → Type 0
IsSmall (some (numeral l)) = size l.power < 10000
IsSmall _ = Unit

abbrev AreJson : Option Value → Type 0
AreJson none = Unit
AreJson (some v) = IsJson v

module _ {J : Type 0} (json : JsonLib J) (parse_ex : Bytes → Tokened J) where
  -- The last value whose key is `name`, as json-c reads the key.
  abbrev pub last_value : Fields → Bytes → Option Value → Option Value
  last_value (last_field a k b c v e) name found =
      if json_key_equals json parse_ex (print_string k) name then some v else found
  last_value (field a k b c v e fs) name found =
      last_value fs name
        (if json_key_equals json parse_ex (print_string k) name then some v else found)

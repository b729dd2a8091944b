-- ===== src/Tests/Numbers.antt =====
-- JSON numbers and texts of the Chapel client.
use the_convex_100_language.Common.{
  ◌+◌, ◌*◌, ◌<◌, ◌≤◌, ◌≡◌, ◌≢◌, ◌↔◌, inr, refl, arith, true, false, some, [], ◌∷◌, ◌++◌, length,
  Bytes, text, ◌-◌, pos, ◌==◌, if◌then◌else◌, take, drop,
}
use the_convex_100_language.Tests.Toy.{Toy, object, word}
use the_convex_100_language.Chapel.Chars.{head, tail}
use the_convex_100_language.Chapel.Decimal.{accumulate, decimal_to_int64}
use the_convex_100_language.Chapel.Decimal.Literal.{Literal, plain, exponent, IsLiteral, Ends}
use the_convex_100_language.Chapel.Decimal.Exact.{IsValue, decimal_to_int64_iff}
use the_convex_100_language.Chapel.Json.{
  at, beyond, skip_json_string_token, string_rounds, skip_escape, out_of_fuel, skip_json_value,
  value_fuel,
}
use the_convex_100_language.Chapel.Json.Syntax
use the_convex_100_language.Chapel.Json.Syntax.{
  blank, newline, spaces, numeral, string, last_item, item, last_field, field, Value, Fields, print,
  print_items, IsJson, depth,
}
use the_convex_100_language.Chapel.Json.Nesting.{skip_json_value-print}
use the_convex_100_language.Chapel.Json.Cut.{is_cut}
use the_convex_100_language.Chapel.Json.Fuel.{skip_json_value_total}
use the_convex_100_language.Chapel.Fields.{Tokened}

-- A text that ends in a backslash.
abbrev cut : Bytes
cut = 34 ∷ 92 ∷ []

cut_is_beyond : skip_json_string_token cut ≡ beyond
unfolding skip_json_string_token string_rounds skip_escape head tail
cut_is_beyond = refl

-- 12.5e1 is 125.
abbrev twelve : Literal
twelve = record {
  negative = false;
  integer = b'1' ∷ b'2' ∷ [];
  fraction = b'5' ∷ [];
  power = exponent false plain (b'1' ∷ []);
}

twelve-IsLiteral : IsLiteral twelve
unfolding head
twelve-IsLiteral = record {
  integer_ok = (omega arith, (refl, (refl, tt)), inr refl);
  fraction_ok = (refl, tt);
  exponent_ok = (omega arith, (refl, tt));
}

abbrev twelve_text : Bytes
twelve_text = b'1' ∷ b'2' ∷ b'.' ∷ b'5' ∷ b'e' ∷ b'1' ∷ []

decimal_to_int64_iff_example :
    (decimal_to_int64 twelve_text ≡ some (pos 125)) ↔ IsValue twelve (pos 125)
decimal_to_int64_iff_example = decimal_to_int64_iff twelve (pos 125) twelve-IsLiteral (omega arith)

-- Of an exponent of five digits the last one is dropped.
exponent_cut_off : accumulate 0 (b'1' ∷ b'2' ∷ b'0' ∷ b'0' ∷ b'0' ∷ []) ≡ 1200
unfolding accumulate
exponent_cut_off = refl

-- [12.5e1 , "a"]
abbrev pair : Value
pair = Syntax.array (
    item [] (numeral twelve) (blank ∷ [])
      (last_item (blank ∷ []) (string (Syntax.plain b'a' ∷ [])) []))

abbrev pair_text : Bytes
pair_text = text "[12.5e1 , \"a\"]"

pair-IsJson : IsJson pair
unfolding IsJson
pair-IsJson = (twelve-IsLiteral, ((refl, refl, refl), tt))

comma-Ends : Ends (b',' ∷ [])
unfolding head
comma-Ends = (refl, refl, refl)

pair_fuel : 2 * length (print pair) < 100
unfolding print
pair_fuel = omega arith

pair-depth : depth pair + 1 ≤ 128
unfolding depth
pair-depth = omega arith

skip_json_value-print_example :
    skip_json_value 100 (spaces (newline ∷ []) ++ (print pair ++ b',' ∷ [])) 1 ≡ at (b',' ∷ [])
skip_json_value-print_example =
    skip_json_value-print pair (newline ∷ []) (b',' ∷ []) 100 1 pair-IsJson comma-Ends pair_fuel
      pair-depth

skip_json_value_total_example :
    (skip_json_value (value_fuel cut) cut 1 ≢ out_of_fuel)
    × (skip_json_value (value_fuel cut) cut 1 ≡ beyond → is_cut cut ≡ true)
    × ((t : Bytes) → skip_json_value (value_fuel cut) cut 1 ≡ at t → length t ≤ length cut)
skip_json_value_total_example = skip_json_value_total cut 1

-- A tokener that takes a text in braces for an object, and any other one for a string in quotes.
abbrev brief : Bytes → Tokened Toy
brief s = record {
  value = some (if head s == b'{' then object [] else word (take (length s - 2) (drop 1 s)));
  success = true;
  parse_end = length s;
}

-- { "n" :12.5e1,"n":12.5e1}
abbrev twice : Fields
twice =
    field (blank ∷ []) (Syntax.plain b'n' ∷ []) (blank ∷ []) [] (numeral twelve) []
      (last_field [] (Syntax.plain b'n' ∷ []) [] [] (numeral twelve) [])

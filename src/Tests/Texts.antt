-- ===== src/Tests/Texts.antt =====
-- Texts, timestamps and commands of the Chapel client.
use the_convex_100_language.Common.{
  ℕ, ◌≡◌, ◌↔◌, inl, inr, refl, arith, Bool-cases, true, some, none, List, [], ◌∷◌, length, Bytes,
  text, same, All, pos,
}
use the_convex_100_language.Client.Json.{is_some}
use the_convex_100_language.Tests.Toy.{
  Toy, nothing, number, word, no_items, item, no_members, field, toy, object,
}
use the_convex_100_language.Extension.Utf8.{do_utf8_valid, IsScalar, encode_all}
use the_convex_100_language.Chapel.Chars.{skip_space}
use the_convex_100_language.Chapel.Utf8.{
  valid_utf8, c_string, utf8_scalar_count, is_whitespace, has_nul, passes, pass, count_rounds,
  continuation_of, bits_of, join_bytes,
}
use the_convex_100_language.Chapel.Utf8.Same.{valid_utf8_iff}
use the_convex_100_language.Chapel.Utf8.Count.{utf8_scalar_count-encode}
use the_convex_100_language.Chapel.Timestamp.{ct_timestamp_compare}
use the_convex_100_language.Chapel.Timestamp.Encoding.{encode_timestamp, symbol}
use the_convex_100_language.Chapel.Timestamp.Order.{ct_timestamp_compare_lem}
use the_convex_100_language.Chapel.Fields.{Tokened, parse_json}
use the_convex_100_language.Chapel.Command.{
  string_field, read_id, is_valid, exact_fields, has_fields, ct_validate_adapter_command,
}
use the_convex_100_language.Chapel.Command.Keys.{has}
use the_convex_100_language.Chapel.Command.Accepts.{
  Accepted, Members, ct_validate_adapter_command_accepts,
}

-- The euro sign.
abbrev euro : Bytes
euro = 226 ∷ 130 ∷ 172 ∷ []

valid_utf8_iff_example :
    (valid_utf8 euro ≡ do_utf8_valid euro)
    × ((valid_utf8 euro ≡ true) ↔ ((cs : List ℕ) × All IsScalar cs × (encode_all cs ≡ euro)))
valid_utf8_iff_example = valid_utf8_iff euro (omega arith, (omega arith, (omega arith, tt)))

-- A blank and a euro sign.
utf8_scalar_count-encode_example : utf8_scalar_count (32 ∷ euro) 128 true ≡ some 2
unfolding is_whitespace
utf8_scalar_count-encode_example =
    utf8_scalar_count-encode (32 ∷ 8364 ∷ []) 128 true
      ((inl (omega arith), omega arith), ((inl (omega arith), omega arith), tt))

-- 256 and 255, where the text of the first is the smaller one.
first_text : encode_timestamp 256 ≡ text "AAEAAAAAAAA="
unfolding symbol text
first_text = refl

ct_timestamp_compare_lem_example :
    ct_timestamp_compare (some (encode_timestamp 256)) (some (encode_timestamp 255)) ≡ some (pos 1)
ct_timestamp_compare_lem_example = ct_timestamp_compare_lem 256 255 (omega arith) (omega arith)

-- Member names of the small library.
abbrev names : Toy → List Bytes
names (field k v rest) = k ∷ names rest
names _ = []

finds : (j : Toy) (k : Bytes) → is_some (toy.get_ex j k) ≡ has (names j) k
finds nothing k = refl
finds (number z) k = refl
finds (word s) k = refl
finds no_items k = refl
finds (item a b) k = refl
finds no_members k = refl
finds (field n v rest) k = elim (Bool-cases (same n k)) [
  | inl e ↦ rw e refl
  | inr e ↦ rw e (finds rest k)
]

abbrev count : Toy → ℕ
count j = length (names j)

abbrev members : Members toy count
members = record { names = names; counts = λ j. refl; finds = finds }

-- {"op": "close", "id": "a"}, whatever the text.
abbrev close_command : Toy
close_command =
    object ((text "op", some (word (text "close"))) ∷ (text "id", some (word (text "a"))) ∷ [])

abbrev closing : Bytes → Tokened Toy
closing s = record { value = some close_command; success = true; parse_end = length s }

close_accepted :
    ct_validate_adapter_command toy count closing (text "{}")
    ≡ record { safe_id = some (text "a"); complaint = none }
unfolding ct_validate_adapter_command parse_json skip_space read_id string_field utf8_scalar_count
    c_string valid_utf8 passes pass count_rounds continuation_of bits_of join_bytes is_whitespace
    has_nul is_valid exact_fields has_fields text same
close_accepted = refl

ct_validate_adapter_command_accepts_example :
    Accepted toy count members closing (text "{}") (text "a")
ct_validate_adapter_command_accepts_example =
    ct_validate_adapter_command_accepts toy count members closing (text "{}") (text "a")
      close_accepted

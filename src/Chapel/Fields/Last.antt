-- ===== src/Chapel/Fields/Last.antt =====
-- `find_top_level_field` on objects as they are written.
use the_convex_100_language.Common.{
  ℕ, zero, suc, ◌+◌, ◌-◌, ◌≤◌, ◌≡◌, refl, ap, ◌∙◌, false, Option, none, some, List, [], ◌∷◌, ◌++◌,
  append_assoc, length, length-append, take, take-length_append, ◌==◌, if◌then◌else◌, Bytes, All,
  arith, ◌⊎◌, inl, inr,
}
use the_convex_100_language.Common.Rules.{lengths}
use the_convex_100_language.Client.Json.{JsonLib}
use the_convex_100_language.Chapel.Chars.{head, tail, is_space, skip_space}
use the_convex_100_language.Chapel.Json.{value_fuel}
use the_convex_100_language.Chapel.Json.Syntax.{
  White, spaces, Piece, IsPiece, print_string, Value, object, Fields, last_field, field, print,
  print_fields, IsJson, AreFields, depth, depth_fields, larger-le,
}
use the_convex_100_language.Chapel.Json.Tokens.{
  skip_space-spaces, spaces-Ends, skip_json_string_token-print,
}
use the_convex_100_language.Chapel.Json.Values.{print-Opens}
use the_convex_100_language.Chapel.Json.Nesting.{field_text, skip_json_value-print}
use the_convex_100_language.Chapel.Decimal.Literal.{Ends}
use the_convex_100_language.Chapel.Fields.{
  Tokened, ended, between, json_key_equals, field_rounds, find_top_level_field,
}

between-append : (xs ys : Bytes) → between (xs ++ ys) ys ≡ xs
between-append xs ys =
    let n : length (xs ++ ys) - length ys ≡ length xs = omega (arith, length-append xs ys) in
    ap (λ k. take k (xs ++ ys)) n ∙ take-length_append xs ys

abbrev pub count : Fields → ℕ
count (last_field a k b c v e) = 1
count (field a k b c v e fs) = suc (count fs)

module _ {J : Type 0} (json : JsonLib J) (parse_ex : Bytes → Tokened J) where
  -- The text of the last value whose key is `name`, as json-c reads the key.
  abbrev pub last_match : Fields → Bytes → Option Bytes → Option Bytes
  last_match (last_field a k b c v e) name found =
      if json_key_equals json parse_ex (print_string k) name then some (print v) else found
  last_match (field a k b c v e fs) name found =
      last_match fs name
        (if json_key_equals json parse_ex (print_string k) name then some (print v) else found)

  abbrev now_found : List Piece → Value → Bytes → Option Bytes → Option Bytes
  now_found k v name found =
      if json_key_equals json parse_ex (print_string k) name then some (print v) else found

  -- One round, at a field with the character behind it.
  field_round :
      (a : List White) (k : List Piece) (b c : List White) (v : Value) (e : List White)
      → (n x : ℕ) (name rest : Bytes) (found : Option Bytes) → All IsPiece k
      → IsJson v
      → depth v + 1 ≤ 128
      → (x ≡ b'}') ⊎ (x ≡ b',')
      → field_rounds json parse_ex
          (suc n)
          name
          (skip_space (field_text a k b c v e (x ∷ rest)))
          found
        ≡ (if x == b'}'
            then ended (now_found k v name found)
            else field_rounds json parse_ex n name (skip_space rest) (now_found k v name found))
  unfolding field_rounds head tail
  field_round a k b c v e n x name rest found hk hv deep which =
      let after = x ∷ rest in
      let inner = spaces c ++ (print v ++ (spaces e ++ after)) in
      let cursor = print_string k ++ (spaces b ++ b':' ∷ inner) in
      let start = print v ++ (spaces e ++ after) in
      let stop : Ends after = elim which [
        | inl x' ↦ rw x' (refl, refl, refl)
        | inr x' ↦ rw x' (refl, refl, refl)
      ] in
      let solid : is_space x ≡ false = elim which [ inl x' ↦ rw x' refl | inr x' ↦ rw x' refl ] in
      let value =
        skip_json_value-print v [] (spaces e ++ after) (value_fuel start) 1 hv
          (spaces-Ends e after stop) (grind (arith, lengths)) deep in
      let key_end = spaces b ++ b':' ∷ inner in
      let full : (length cursor == 0) ≡ false = ground arith in
      rw
        (
          skip_space-spaces a cursor refl,
          full,
          skip_json_string_token-print k key_end hk,
          skip_space-spaces b (b':' ∷ inner) refl,
          skip_space-spaces c start (print-Opens v (spaces e ++ after) hv).0,
          value,
          skip_space-spaces e after solid,
          between-append (print_string k) key_end,
          between-append (print v) (spaces e ++ after),
        )
        (elim which [ inl x' ↦ rw x' refl | inr x' ↦ rw x' refl ])

  field_rounds-fields :
      (fs : Fields) (n : ℕ) (name rest : Bytes) (found : Option Bytes)
      → AreFields fs
      → count fs ≤ n
      → depth_fields fs + 1 ≤ 128
      → field_rounds json parse_ex n name (skip_space (print_fields fs ++ rest)) found
        ≡ ended (last_match fs name found)
  unfolding print_fields AreFields depth_fields
  field_rounds-fields (last_field a k b c v e) zero name rest found h l deep = absurd (omega arith)
  field_rounds-fields (field a k b c v e fs) zero name rest found h l deep = absurd (omega arith)
  field_rounds-fields (last_field a k b c v e) (suc n) name rest found h l deep =
      let joined : print_fields (last_field a k b c v e) ++ rest
          ≡ field_text a k b c v e (b'}' ∷ rest) =
        simp (append_assoc) in
      rw joined (field_round a k b c v e n b'}' name rest found h.0 h.1 deep (inl refl))
  field_rounds-fields (field a k b c v e fs) (suc n) name rest found h l deep =
      let more = print_fields fs ++ rest in
      let joined : print_fields (field a k b c v e fs) ++ rest
          ≡ field_text a k b c v e (b',' ∷ more) =
        simp (append_assoc) in
      let (most, others) = larger-le (depth v) (depth_fields fs) in
      let found' = now_found k v name found in
      rw joined (
        field_round a k b c v e n b',' name more found h.0 h.1 (omega arith) (inr refl)
        ∙ field_rounds-fields fs n name rest found' h.2 (omega arith) (omega arith))

  count-le : (fs : Fields) → count fs ≤ length (print_fields fs)
  unfolding print_fields
  count-le (last_field a k b c v e) = grind (arith, lengths)
  count-le (field a k b c v e fs) = grind (arith, lengths, count-le fs)

  -- In an object that is nested at most 128 levels deep, wherever white space stands, the function
  -- finds the text of the last field with the name.
  pub find_top_level_field-print :
      (a : List White) (fs : Fields) (name rest : Bytes)
      → AreFields fs
      → depth (object fs) ≤ 128
      → find_top_level_field json parse_ex (spaces a ++ (print (object fs) ++ rest)) name
        ≡ ended (last_match fs name none)
  unfolding find_top_level_field print depth head tail
  find_top_level_field-print a fs name rest h deep =
      let skip = skip_space-spaces a (b'{' ∷ (print_fields fs ++ rest)) refl in
      let few : count fs ≤ length (b'{' ∷ (print_fields fs ++ rest)) =
        grind (arith, lengths, count-le fs) in
      rw skip (
        field_rounds-fields fs (length (b'{' ∷ (print_fields fs ++ rest))) name rest none h few
          (omega arith))

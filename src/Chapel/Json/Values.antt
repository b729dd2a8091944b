-- ===== src/Chapel/Json/Values.antt =====
-- `skip_json_value` before the rest of a text.
use the_convex_100_language.Common.{
  ℕ, zero, suc, ◌+◌, ◌*◌, ◌≤◌, ◌<◌, ◌≡◌, refl, Bool, true, false, ◌||◌, List, [], ◌∷◌, ◌++◌,
  append_assoc, length, ltb, ◌==◌, Bytes, arith, text, starts_with,
}
use the_convex_100_language.Chapel.Chars.{head, tail, is_digit, is_space, skip_space}
use the_convex_100_language.Chapel.Json.{at, skip_json_value, skip_items, skip_members}
use the_convex_100_language.Chapel.Json.Syntax.{
  White, spaces, Piece, print_string, Word, true_word, false_word, null_word, print_word, Value,
  word, numeral, string, empty_array, empty_object, array, object, Items, last_item, item, Fields,
  print, print_items, print_fields, IsJson, AreItems, AreFields, depth, depth_items, depth_fields,
}
use the_convex_100_language.Chapel.Json.Tokens.{
  skip_space-spaces, skip_space_idem, skip_json_string_token-print,
}
use the_convex_100_language.Chapel.Json.Numbers.{skip_json_number_token-print}
use the_convex_100_language.Chapel.Decimal.Literal.{
  Literal, IsLiteral, IsInteger, print_literal, minus_sign, print_fraction, print_exponent, Ends,
}

-- The first character of a value: no white space, and none of those that end an array or object.
abbrev pub Opens : Bytes → Type 0
Opens s = (is_space (head s) ≡ false) × ((head s == b']') ≡ false)

print_literal-head :
    (l : Literal) (rest : Bytes)
    → IsLiteral l
    → (head (print_literal l ++ rest) == b'-') || is_digit (head (print_literal l ++ rest)) ≡ true
unfolding head
print_literal-head l rest h = go l.negative l.integer h.integer_ok
  where
    go :
        (b : Bool) (ds : Bytes)
        → IsInteger ds
        → let s =
            (minus_sign b ++ (ds ++ (print_fraction l.fraction ++ print_exponent l.power)))
            ++ rest in
          (head s == b'-') || is_digit (head s) ≡ true
    go true ds h = refl
    go false [] h = absurd (omega (arith, h.0))
    go false (c ∷ ds) h = let d = h.1.0 in ground arith

pub print-Opens : (v : Value) (rest : Bytes) → IsJson v → Opens (print v ++ rest)
unfolding print head text IsJson
print-Opens (word true_word) rest h = (refl, refl)
print-Opens (word false_word) rest h = (refl, refl)
print-Opens (word null_word) rest h = (refl, refl)
print-Opens (numeral l) rest h = let d = print_literal-head l rest h in (ground arith, ground arith)
print-Opens (string ps) rest h = (refl, refl)
print-Opens (empty_array a) rest h = (refl, refl)
print-Opens (empty_object a) rest h = (refl, refl)
print-Opens (array is) rest h = (refl, refl)
print-Opens (object fs) rest h = (refl, refl)

-- White space before a value makes no difference.
skip_json_value-spaced :
    (n : ℕ) (s : Bytes) (d : ℕ) → skip_json_value n (skip_space s) d ≡ skip_json_value n s d
unfolding skip_json_value
skip_json_value-spaced zero s d = refl
skip_json_value-spaced (suc n) s d = rw (skip_space_idem s) refl

skip_items-spaced : (n : ℕ) (s : Bytes) (d : ℕ) → skip_items n (skip_space s) d ≡ skip_items n s d
unfolding skip_items
skip_items-spaced zero s d = refl
skip_items-spaced (suc n) s d = rw (skip_json_value-spaced n s (suc d)) refl

abbrev pub ReadsValue : Value → Type 0
ReadsValue v =
    IsJson v
    → (a : List White) (rest : Bytes) (n d : ℕ) → Ends rest
    → 2 * length (print v) < n
    → depth v + d ≤ 128
    → skip_json_value n (spaces a ++ (print v ++ rest)) d ≡ at rest

abbrev pub ReadsItems : Items → Type 0
ReadsItems is =
    AreItems is
    → (rest : Bytes) (n d : ℕ) → 2 * length (print_items is) + 1 < n
    → suc (depth_items is) + d ≤ 128
    → skip_items n (print_items is ++ rest) d ≡ at rest

abbrev pub ReadsFields : Fields → Type 0
ReadsFields fs =
    AreFields fs
    → (rest : Bytes) (n d : ℕ) → 2 * length (print_fields fs) + 1 < n
    → suc (depth_fields fs) + d ≤ 128
    → skip_members n (skip_space (print_fields fs ++ rest)) d ≡ at rest

pub reads_word : (w : Word) → ReadsValue (word w)
unfolding skip_json_value print IsJson head text starts_with
reads_word w h a rest zero d ends fuel deep = absurd (omega arith)
reads_word true_word h a rest (suc n) d ends fuel deep =
    let near : ltb 128 d ≡ false = ground arith in
    let skip = skip_space-spaces a (print_word true_word ++ rest) refl in rw (near, skip) refl
reads_word false_word h a rest (suc n) d ends fuel deep =
    let near : ltb 128 d ≡ false = ground arith in
    let skip = skip_space-spaces a (print_word false_word ++ rest) refl in rw (near, skip) refl
reads_word null_word h a rest (suc n) d ends fuel deep =
    let near : ltb 128 d ≡ false = ground arith in
    let skip = skip_space-spaces a (print_word null_word ++ rest) refl in rw (near, skip) refl

pub reads_string : (ps : List Piece) → ReadsValue (string ps)
unfolding skip_json_value print IsJson head
reads_string ps h a rest zero d ends fuel deep = absurd (omega arith)
reads_string ps h a rest (suc n) d ends fuel deep =
    let near : ltb 128 d ≡ false = ground arith in
    let skip = skip_space-spaces a (print_string ps ++ rest) refl in
    rw (near, skip) (skip_json_string_token-print ps rest h)

pub reads_numeral : (l : Literal) → ReadsValue (numeral l)
unfolding skip_json_value print IsJson
reads_numeral l h a rest zero d ends fuel deep = absurd (omega arith)
reads_numeral l h a rest (suc n) d ends fuel deep =
    let near : ltb 128 d ≡ false = ground arith in
    let first = print_literal-head l rest h in
    let quote : (head (print_literal l ++ rest) == 34) ≡ false = ground arith in
    let skip = skip_space-spaces a (print_literal l ++ rest) (ground arith) in
    rw (near, skip, quote, first) (skip_json_number_token-print l rest h ends)

pub reads_empty_array : (b : List White) → ReadsValue (empty_array b)
unfolding skip_json_value print IsJson head tail text starts_with
reads_empty_array b h a rest zero d ends fuel deep = absurd (omega arith)
reads_empty_array b h a rest (suc n) d ends fuel deep =
    let near : ltb 128 d ≡ false = ground arith in
    let joined = append_assoc (spaces b) (b']' ∷ []) rest in
    let inner = skip_space-spaces b (b']' ∷ rest) refl in
    let skip = skip_space-spaces a (b'[' ∷ (spaces b ++ b']' ∷ rest)) refl in
    rw (near, joined, skip, inner) refl

pub reads_empty_object : (b : List White) → ReadsValue (empty_object b)
unfolding skip_json_value print IsJson head tail text starts_with
reads_empty_object b h a rest zero d ends fuel deep = absurd (omega arith)
reads_empty_object b h a rest (suc n) d ends fuel deep =
    let near : ltb 128 d ≡ false = ground arith in
    let joined = append_assoc (spaces b) (b'}' ∷ []) rest in
    let inner = skip_space-spaces b (b'}' ∷ rest) refl in
    let skip = skip_space-spaces a (b'{' ∷ (spaces b ++ b'}' ∷ rest)) refl in
    rw (near, joined, skip, inner) refl

-- The first item of an array does not look like its end.
items-Opens :
    (is : Items) (rest : Bytes) → AreItems is → Opens (skip_space (print_items is ++ rest))
unfolding print_items AreItems
items-Opens (last_item a v b) rest h =
    let o = print-Opens v (spaces b ++ b']' ∷ rest) h in
    let joined : print_items (last_item a v b) ++ rest
        ≡ spaces a ++ (print v ++ (spaces b ++ b']' ∷ rest)) =
      simp (append_assoc) in
    rw (joined, skip_space-spaces a (print v ++ (spaces b ++ b']' ∷ rest)) o.0) o
items-Opens (item a v b is) rest h =
    let after = b',' ∷ (print_items is ++ rest) in
    let o = print-Opens v (spaces b ++ after) h.0 in
    let joined : print_items (item a v b is) ++ rest
        ≡ spaces a ++ (print v ++ (spaces b ++ after)) =
      simp (append_assoc) in
    rw (joined, skip_space-spaces a (print v ++ (spaces b ++ after)) o.0) o

pub reads_array : (is : Items) → ReadsItems is → ReadsValue (array is)
unfolding skip_json_value print IsJson head tail text starts_with depth
reads_array is reads h a rest zero d ends fuel deep = absurd (omega arith)
reads_array is reads h a rest (suc n) d ends fuel deep =
    let near : ltb 128 d ≡ false = ground arith in
    let skip = skip_space-spaces a (b'[' ∷ (print_items is ++ rest)) refl in
    let inner = items-Opens is rest h in
    rw (near, skip, inner.1, skip_items-spaced n (print_items is ++ rest) d)
      (reads h rest n d (omega arith) deep)

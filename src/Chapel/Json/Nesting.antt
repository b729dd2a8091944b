-- ===== src/Chapel/Json/Nesting.antt =====
-- `skip_json_value` on arrays and objects, and on any value.
use the_convex_100_language.Common.{
  ℕ, zero, suc, ◌+◌, ◌*◌, ◌≤◌, ◌<◌, ◌≡◌, refl, false, List, ◌∷◌, ◌++◌, append_assoc, length, ltb,
  ◌==◌, Bytes, arith, text, starts_with,
}
use the_convex_100_language.Common.Rules.{lengths}
use the_convex_100_language.Chapel.Chars.{head, tail, skip_space}
use the_convex_100_language.Chapel.Json.{at, skip_json_value, skip_items, skip_members}
use the_convex_100_language.Chapel.Json.Syntax.{
  White, spaces, Piece, print_string, Value, word, numeral, string, empty_array, empty_object,
  array, object, Items, last_item, item, Fields, last_field, field, print, print_items,
  print_fields, IsJson, AreItems, AreFields, depth, depth_items, depth_fields, larger-le,
}
use the_convex_100_language.Chapel.Json.Tokens.{
  skip_space-spaces, spaces-Ends, skip_json_string_token-print,
}
use the_convex_100_language.Chapel.Decimal.Literal.{Ends}
use the_convex_100_language.Chapel.Json.Values.{
  ReadsValue, ReadsItems, ReadsFields, reads_word, reads_string, reads_numeral, reads_empty_array,
  reads_empty_object, reads_array,
}

reads_last_item :
    (a : List White) (v : Value) (b : List White) → ReadsValue v → ReadsItems (last_item a v b)
unfolding skip_items print_items AreItems depth_items head tail
reads_last_item a v b reads h rest zero d fuel deep = absurd (omega arith)
reads_last_item a v b reads h rest (suc n) d fuel deep =
    let after = b']' ∷ rest in
    let joined : print_items (last_item a v b) ++ rest
        ≡ spaces a ++ (print v ++ (spaces b ++ after)) =
      simp (append_assoc) in
    let shorter : 2 * length (print v) < n = grind (arith, lengths) in
    let value =
      reads h a (spaces b ++ after) n (suc d) (spaces-Ends b after (refl, refl, refl)) shorter
        (omega arith) in
    rw (joined, value, skip_space-spaces b after refl) refl

reads_item :
    (a : List White) (v : Value) (b : List White) (is : Items)
    → ReadsValue v
    → ReadsItems is
    → ReadsItems (item a v b is)
unfolding skip_items print_items AreItems depth_items head tail
reads_item a v b is reads reads_more h rest zero d fuel deep = absurd (omega arith)
reads_item a v b is reads reads_more h rest (suc n) d fuel deep =
    let after = b',' ∷ (print_items is ++ rest) in
    let joined : print_items (item a v b is) ++ rest
        ≡ spaces a ++ (print v ++ (spaces b ++ after)) =
      simp (append_assoc) in
    let shorter : 2 * length (print v) < n = grind (arith, lengths) in
    let fewer : 2 * length (print_items is) + 1 < n = grind (arith, lengths) in
    let (most, others) = larger-le (depth v) (depth_items is) in
    let value =
      reads h.0 a (spaces b ++ after) n (suc d) (spaces-Ends b after (refl, refl, refl)) shorter
        (omega arith) in
    let more = reads_more h.1 rest n d fewer (omega arith) in
    rw (joined, value, skip_space-spaces b after refl) more

-- The text of a field, up to the character that ends it.
abbrev pub field_text :
    List White → List Piece → List White → List White → Value → List White → Bytes → Bytes
field_text a k b c v d end =
    spaces a
    ++ (print_string k ++ (spaces b ++ b':' ∷ (spaces c ++ (print v ++ (spaces d ++ end)))))

reads_last_field :
    (a : List White) (k : List Piece) (b c : List White) (v : Value) (e : List White)
    → ReadsValue v
    → ReadsFields (last_field a k b c v e)
unfolding skip_members print_fields AreFields depth_fields head tail
reads_last_field a k b c v e reads h rest zero d fuel deep = absurd (omega arith)
reads_last_field a k b c v e reads h rest (suc n) d fuel deep =
    let after = b'}' ∷ rest in
    let joined : print_fields (last_field a k b c v e) ++ rest ≡ field_text a k b c v e after =
      simp (append_assoc) in
    let shorter : 2 * length (print v) < n = grind (arith, lengths) in
    let inner = spaces c ++ (print v ++ (spaces e ++ after)) in
    let key = skip_json_string_token-print k (spaces b ++ b':' ∷ inner) h.0 in
    let value =
      reads h.1 c (spaces e ++ after) n (suc d) (spaces-Ends e after (refl, refl, refl)) shorter
        (omega arith) in
    rw
      (
        joined,
        skip_space-spaces a (print_string k ++ (spaces b ++ b':' ∷ inner)) refl,
        key,
        skip_space-spaces b (b':' ∷ inner) refl,
        value,
        skip_space-spaces e after refl,
      )
      refl

reads_field :
    (a : List White) (k : List Piece) (b c : List White) (v : Value) (e : List White) (fs : Fields)
    → ReadsValue v
    → ReadsFields fs
    → ReadsFields (field a k b c v e fs)
unfolding skip_members print_fields AreFields depth_fields head tail
reads_field a k b c v e fs reads reads_more h rest zero d fuel deep = absurd (omega arith)
reads_field a k b c v e fs reads reads_more h rest (suc n) d fuel deep =
    let after = b',' ∷ (print_fields fs ++ rest) in
    let joined : print_fields (field a k b c v e fs) ++ rest ≡ field_text a k b c v e after =
      simp (append_assoc) in
    let shorter : 2 * length (print v) < n = grind (arith, lengths) in
    let fewer : 2 * length (print_fields fs) + 1 < n = grind (arith, lengths) in
    let inner = spaces c ++ (print v ++ (spaces e ++ after)) in
    let key = skip_json_string_token-print k (spaces b ++ b':' ∷ inner) h.0 in
    let (most, others) = larger-le (depth v) (depth_fields fs) in
    let value =
      reads h.1 c (spaces e ++ after) n (suc d) (spaces-Ends e after (refl, refl, refl)) shorter
        (omega arith) in
    let more = reads_more h.2 rest n d fewer (omega arith) in
    rw
      (
        joined,
        skip_space-spaces a (print_string k ++ (spaces b ++ b':' ∷ inner)) refl,
        key,
        skip_space-spaces b (b':' ∷ inner) refl,
        value,
        skip_space-spaces e after refl,
      )
      more

fields-quote :
    (fs : Fields) (rest : Bytes)
    → AreFields fs
    → (head (skip_space (print_fields fs ++ rest)) == b'}') ≡ false
unfolding print_fields AreFields head
fields-quote (last_field a k b c v e) rest h =
    let joined : print_fields (last_field a k b c v e) ++ rest
        ≡ field_text a k b c v e (b'}' ∷ rest) =
      simp (append_assoc) in
    rw
      (
        joined,
        skip_space-spaces a
            (print_string k
              ++ (spaces b ++ b':' ∷ (spaces c ++ (print v ++ (spaces e ++ b'}' ∷ rest)))))
            refl,
      )
      refl
fields-quote (field a k b c v e fs) rest h =
    let after = b',' ∷ (print_fields fs ++ rest) in
    let joined : print_fields (field a k b c v e fs) ++ rest ≡ field_text a k b c v e after =
      simp (append_assoc) in
    rw
      (
        joined,
        skip_space-spaces a
            (print_string k ++ (spaces b ++ b':' ∷ (spaces c ++ (print v ++ (spaces e ++ after)))))
            refl,
      )
      refl

reads_object : (fs : Fields) → ReadsFields fs → ReadsValue (object fs)
unfolding skip_json_value print IsJson head tail text starts_with depth
reads_object fs reads h a rest zero d ends fuel deep = absurd (omega arith)
reads_object fs reads h a rest (suc n) d ends fuel deep =
    let near : ltb 128 d ≡ false = ground arith in
    let skip = skip_space-spaces a (b'{' ∷ (print_fields fs ++ rest)) refl in
    let first = fields-quote fs rest h in
    rw (near, skip, first) (reads h rest n d (omega arith) deep)

reads : (v : Value) → ReadsValue v
reads v = elim v as ReadsValue ReadsItems ReadsFields [
  | word w ↦ reads_word w
  | numeral l ↦ reads_numeral l
  | string ps ↦ reads_string ps
  | empty_array b ↦ reads_empty_array b
  | empty_object b ↦ reads_empty_object b
  | array (is → ih) ↦ reads_array is ih
  | object (fs → ih) ↦ reads_object fs ih
  | last_item a (v → ih) b ↦ reads_last_item a v b ih
  | item a (v → ih) b (is → ihs) ↦ reads_item a v b is ih ihs
  | last_field a k b c (v → ih) e ↦ reads_last_field a k b c v e ih
  | field a k b c (v → ih) e (fs → ihs) ↦ reads_field a k b c v e fs ih ihs
]

-- `skip_json_value` goes over exactly the value at the front of a text, after white space, as long as
-- what follows cannot belong to it, the nesting stays within 128 levels from `d` on, and the fuel
-- exceeds twice the length of the value.
pub skip_json_value-print :
    (v : Value) (a : List White) (rest : Bytes) (n d : ℕ)
    → IsJson v
    → Ends rest
    → 2 * length (print v) < n
    → depth v + d ≤ 128
    → skip_json_value n (spaces a ++ (print v ++ rest)) d ≡ at rest
skip_json_value-print v a rest n d h = reads v h a rest n d

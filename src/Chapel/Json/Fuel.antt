-- ===== src/Chapel/Json/Fuel.antt =====
-- The fuel of `skip_json_value` and its loops.
use the_convex_100_language.Common.{
  ℕ, zero, suc, ◌+◌, ◌*◌, ◌≤◌, ◌<◌, ◌≡◌, ◌≢◌, true, false, ◌||◌, length, length-drop, ltb, ◌==◌,
  if◌then◌else◌, Bytes, arith, text, starts_with, drop, subst,
}
use the_convex_100_language.Chapel.Chars.{head, tail, is_digit, skip_space, length-skip_space}
use the_convex_100_language.Chapel.Json.{
  Cursor, at, null, beyond, out_of_fuel, skip_json_string_token, skip_json_number_token,
  skip_json_value, skip_items, skip_members, value_fuel,
}
use the_convex_100_language.Chapel.Json.Cut.{is_cut, skip_json_value-is_cut}
use the_convex_100_language.Chapel.Json.Total.{
  Leaves, Leaves-mono, Leaves-bind, Leaves-if, tail_lt, length-tail, skip_json_string_token-Leaves,
  skip_json_number_token-Leaves,
}

abbrev ValueEnds : ℕ → Type 0
ValueEnds n = (s : Bytes) (d : ℕ) → 2 * length s + 1 ≤ n → Leaves (length s) (skip_json_value n s d)

abbrev ItemsEnd : ℕ → Type 0
ItemsEnd n = (s : Bytes) (d : ℕ) → 2 * length s + 2 ≤ n → Leaves (length s) (skip_items n s d)

abbrev MembersEnd : ℕ → Type 0
MembersEnd n = (s : Bytes) (d : ℕ) → 2 * length s + 2 ≤ n → Leaves (length s) (skip_members n s d)

-- What follows an opening bracket.
bracket_Leaves :
    (k : ℕ) (s : Bytes) (b : ℕ) (more : Cursor)
    → length s ≤ k
    → (length (skip_space (tail s)) ≤ k → Leaves k more)
    → Leaves k (if head (skip_space (tail s)) == b then at (tail (skip_space (tail s))) else more)
bracket_Leaves k s b more h go =
    let t = length-tail s in
    let i = length-skip_space (tail s) in
    let u = length-tail (skip_space (tail s)) in
    Leaves-if k (head (skip_space (tail s)) == b) (at (tail (skip_space (tail s)))) more
      (λ e. omega arith) (λ e. go (omega arith))

inner_lt : (s : Bytes) → (head s == 0) ≡ false → length (skip_space (tail s)) < length s
inner_lt s h = omega (arith, tail_lt s h, length-skip_space (tail s))

skip_json_value-Leaves : (n : ℕ) → ItemsEnd n → MembersEnd n → ValueEnds (suc n)
unfolding skip_json_value
skip_json_value-Leaves n items members cursor d h =
    let s = skip_space cursor in
    let k = length cursor in
    let short = length-skip_space cursor in
    let inner = skip_space (tail s) in
    let part : (m : ℕ) → length (drop m s) ≤ k = λ m. omega (arith, length-drop m s) in
    Leaves-if k (ltb 128 d) null _ (λ e. tt)
      λ e.
        Leaves-if k (head s == 34) (skip_json_string_token s) _
          (λ e.
            Leaves-mono (length s) k (skip_json_string_token s) short
              (skip_json_string_token-Leaves s))
          λ e.
            Leaves-if k ((head s == b'-') || is_digit (head s)) (skip_json_number_token s) _
              (λ e.
                Leaves-mono (length s) k (skip_json_number_token s) short
                  (skip_json_number_token-Leaves s))
              λ e.
                Leaves-if k (starts_with s (text "true")) (at (drop 4 s)) _ (λ e. part 4)
                  λ e.
                    Leaves-if k (starts_with s (text "false")) (at (drop 5 s)) _ (λ e. part 5)
                      λ e.
                        Leaves-if k (starts_with s (text "null")) (at (drop 4 s)) _ (λ e. part 4)
                          λ e.
                            Leaves-if k (head s == b'[') _ _
                              (λ bracket.
                                let small = inner_lt s (ground arith) in
                                bracket_Leaves k s b']' (skip_items n inner d) short (λ l.
                                  Leaves-mono (length inner) k (skip_items n inner d) l
                                    (items inner d (omega arith))))
                              λ e.
                                Leaves-if k (head s == b'{') _ null
                                  (λ bracket.
                                    let small = inner_lt s (ground arith) in
                                    bracket_Leaves k s b'}' (skip_members n inner d) short (λ l.
                                      Leaves-mono (length inner) k (skip_members n inner d) l
                                        (members inner d (omega arith))))
                                  (λ e. tt)

-- What follows an item or a field: the end, or a comma and more.
next_Leaves :
    (k : ℕ) (c : Bytes) (b : ℕ) (more : Cursor)
    → length c ≤ k
    → (suc (length (tail (skip_space c))) ≤ k → Leaves k more)
    → Leaves k (
        if head (skip_space c) == b
        then at (tail (skip_space c))
        else if head (skip_space c) == b','
        then more
        else null)
next_Leaves k c b more h go =
    let s = length-skip_space c in
    let t = length-tail (skip_space c) in
    Leaves-if k (head (skip_space c) == b) (at (tail (skip_space c))) _ (λ e. omega arith)
      (λ e.
        Leaves-if k (head (skip_space c) == b',') more null
          (λ comma. go (omega (arith, tail_lt (skip_space c) (ground arith)))) (λ e. tt))

skip_items-Leaves : (n : ℕ) → ValueEnds n → ItemsEnd n → ItemsEnd (suc n)
unfolding skip_items
skip_items-Leaves n value items s d h =
    let k = length s in
    Leaves-bind k k (skip_json_value n s (suc d)) _ (value s (suc d) (omega arith)) λ c l.
      next_Leaves k c b']' (skip_items n (tail (skip_space c)) d) l λ small.
        Leaves-mono (length (tail (skip_space c))) k (skip_items n (tail (skip_space c)) d)
          (omega arith) (items (tail (skip_space c)) d (omega arith))

skip_members-Leaves : (n : ℕ) → ValueEnds n → MembersEnd n → MembersEnd (suc n)
unfolding skip_members
skip_members-Leaves n value members s d h =
    let k = length s in
    Leaves-bind k k (skip_json_string_token s) _ (skip_json_string_token-Leaves s) λ key l.
      Leaves-if k (head (skip_space key) == b':') _ null
        (λ colon.
          let start = tail (skip_space key) in
          let less = length-skip_space key in
          let less' = tail_lt (skip_space key) (ground arith) in
          Leaves-bind k k (skip_json_value n start (suc d)) _
            (Leaves-mono (length start) k (skip_json_value n start (suc d)) (omega arith)
              (value start (suc d) (omega arith)))
            λ c l.
              let t = length-skip_space (tail (skip_space c)) in
              next_Leaves k c b'}' (skip_members n (skip_space (tail (skip_space c))) d) l λ small.
                Leaves-mono (length (skip_space (tail (skip_space c)))) k
                  (skip_members n (skip_space (tail (skip_space c))) d) (omega arith)
                  (members (skip_space (tail (skip_space c))) d (omega arith)))
        (λ e. tt)

all_end : (n : ℕ) → ValueEnds n × ItemsEnd n × MembersEnd n
all_end zero =
    (λ s d h. absurd (omega arith), λ s d h. absurd (omega arith), λ s d h. absurd (omega arith))
all_end (suc n) =
    let (value, items, members) = all_end n in
    (
      skip_json_value-Leaves n items members,
      skip_items-Leaves n value items,
      skip_members-Leaves n value members,
    )

-- On any text, well-formed or not, and at any depth, the fuel for the text's length is enough: the
-- scanner ends with NULL, or with a cursor at most as far from the end as it started, or outside the text,
-- where the program would go on reading behind the terminating NUL; the last only happens when the text
-- ends in a backslash.
pub skip_json_value_total :
    (s : Bytes) (d : ℕ)
    → (skip_json_value (value_fuel s) s d ≢ out_of_fuel)
      × (skip_json_value (value_fuel s) s d ≡ beyond → is_cut s ≡ true)
      × ((t : Bytes) → skip_json_value (value_fuel s) s d ≡ at t → length t ≤ length s)
skip_json_value_total s d =
    let ends = (all_end (value_fuel s)).0 s d (omega arith) in
    (
      λ e. subst (Leaves (length s)) e ends,
      skip_json_value-is_cut (value_fuel s) s d,
      λ t e. subst (Leaves (length s)) e ends,
    )

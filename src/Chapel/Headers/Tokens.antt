-- ===== src/Chapel/Headers/Tokens.antt =====
-- `header_has_token` against the comma-separated elements of the value.
use the_convex_100_language.Common.{
  ℕ, zero, suc, ◌≤◌, ◌<◌, ◌≡◌, refl, sym, ap, ◌∙◌, Bool, true, false, ◌||◌, List, [], ◌∷◌, length,
  length-drop, drop, ◌==◌, if◌then◌else◌, Bytes, arith, Bool-cases, inl, inr,
}
use the_convex_100_language.Chapel.Headers.{
  is_blank, skip_to_element, before, trim_rounds, trim_end, same_folded, token_rounds,
  header_has_token, skip_blanks,
}

abbrev on_first : ℕ → List Bytes → List Bytes
on_first c [] = (c ∷ []) ∷ []
on_first c (e ∷ es) = (c ∷ e) ∷ es

-- The text between commas.
unfoldable pub elements : Bytes → List Bytes
elements [] = [] ∷ []
elements (c ∷ value) = if c == b',' then [] ∷ elements value else on_first c (elements value)

-- An element, without the blanks around it, is the token, in upper or lower case.
abbrev pub is_token : Bytes → Bytes → Bool
is_token wanted e = same_folded (trim_end is_blank (skip_blanks e)) wanted

abbrev pub any_token : Bytes → List Bytes → Bool
any_token wanted [] = false
any_token wanted (e ∷ es) = is_token wanted e || any_token wanted es

-- What follows the first element.
abbrev later : Bytes → Bytes → Bool
later wanted [] = false
later wanted (c ∷ value) = any_token wanted (elements value)

elements-before :
    (wanted value : Bytes)
    → (es : List Bytes) × (elements value ≡ before b',' value ∷ es)
      × (any_token wanted es ≡ later wanted (drop (length (before b',' value)) value))
unfolding elements before
elements-before wanted [] = ([], refl, refl)
elements-before wanted (c ∷ value) = elim (Bool-cases (c == b',')) [
  | inl e ↦ rw e (elements value, refl, refl)
  | inr e ↦ let (es, split, rest) = elements-before wanted value in rw e (es, rw split refl, rest)
]

empty_no_token : (wanted : Bytes) → 0 < length wanted → is_token wanted [] ≡ false
unfolding same_folded trim_end trim_rounds skip_blanks
empty_no_token [] h = absurd (omega arith)
empty_no_token (c ∷ wanted) h = refl

module _ (wanted : Bytes) (some' : 0 < length wanted) where
  later-elements :
      (value : Bytes)
      → later wanted (drop (length (before b',' value)) value)
        ≡ any_token wanted (elements (drop (length (before b',' value)) value))
  unfolding before elements
  later-elements [] = rw (empty_no_token wanted some') refl
  later-elements (c ∷ value) = elim (Bool-cases (c == b',')) [
    | inl e ↦ let comma : c ≡ b',' = ground arith in rw (comma, empty_no_token wanted some') refl
    | inr e ↦ rw e (later-elements value)
  ]

  any-before :
      (value : Bytes)
      → any_token wanted (elements value)
        ≡ is_token wanted (before b',' value)
          || any_token wanted (elements (drop (length (before b',' value)) value))
  any-before value =
      let (es, split, rest) = elements-before wanted value in
      ap (any_token wanted) split
      ∙ ap (λ b. is_token wanted (before b',' value) || b) (rest ∙ later-elements value)

  any-comma :
      (value : Bytes)
      → any_token wanted (elements (b',' ∷ value)) ≡ any_token wanted (elements value)
  unfolding elements
  any-comma value = rw (empty_no_token wanted some') refl

  any-blank :
      (c : ℕ) (value : Bytes)
      → is_blank c ≡ true
      → any_token wanted (elements (c ∷ value)) ≡ any_token wanted (elements value)
  unfolding elements skip_blanks
  any-blank c value h =
      let (es, split, rest) = elements-before wanted value in
      let no_comma : (c == b',') ≡ false = ground arith in rw (no_comma, split, h) refl

  any-skip :
      (value : Bytes)
      → any_token wanted (elements value) ≡ any_token wanted (elements (skip_to_element value))
  unfolding skip_to_element
  any-skip [] = refl
  any-skip (c ∷ value) = elim (Bool-cases (c == b',')) [
    | inl e ↦ let comma : c ≡ b',' = ground arith in rw comma (any-comma value ∙ any-skip value)
    | inr e ↦ elim (Bool-cases (is_blank c)) [
      | inl b ↦ rw b (any-blank c value b ∙ any-skip value)
      | inr b ↦ rw (b, e) refl
    ]
  ]

  -- The code leaves out the blanks in front of an element while it looks for its start.
  before-skip :
      (value : Bytes)
      → skip_blanks (before b',' (skip_to_element value)) ≡ before b',' (skip_to_element value)
  unfolding skip_to_element skip_blanks before
  before-skip [] = refl
  before-skip (c ∷ value) = elim (Bool-cases (is_blank c || (c == b','))) [
    | inl e ↦ rw e (before-skip value)
    | inr e ↦
        let no_blank : is_blank c ≡ false = ground arith in
        let no_comma : (c == b',') ≡ false = ground arith in rw (e, no_comma, no_blank) refl
  ]

  skip-shorter : (value : Bytes) → length (skip_to_element value) ≤ length value
  unfolding skip_to_element
  skip-shorter [] = omega arith
  skip-shorter (c ∷ value) = let ih = skip-shorter value in ground arith

  -- A round leaves less than it is given.
  rest-shorter :
      (c : ℕ) (value : Bytes)
      → (let s = skip_to_element (c ∷ value) in
          length (drop (length (before b',' s)) s) ≤ length value)
  unfolding skip_to_element before
  rest-shorter c value = elim (Bool-cases (is_blank c || (c == b','))) [
    | inl e ↦
        let s = skip_to_element value in
        rw e (omega (arith, skip-shorter value, length-drop (length (before b',' s)) s))
    | inr e ↦
        let no_comma : (c == b',') ≡ false = ground arith in
        rw (e, no_comma) (omega (arith, length-drop (length (before b',' value)) value))
  ]

  any-nil : any_token wanted (elements []) ≡ false
  unfolding elements
  any-nil = rw (empty_no_token wanted some') refl

  token_rounds-elements :
      (n : ℕ) (value : Bytes)
      → length value ≤ n
      → token_rounds n value wanted ≡ any_token wanted (elements value)
  unfolding token_rounds
  token_rounds-elements zero [] h = sym any-nil
  token_rounds-elements zero (c ∷ value) h = absurd (omega arith)
  token_rounds-elements (suc n) [] h = sym any-nil
  token_rounds-elements (suc n) (c ∷ value) h =
      let s = skip_to_element (c ∷ value) in
      let left = drop (length (before b',' s)) s in
      let short = rest-shorter c value in
      let ih = token_rounds-elements n left (omega arith) in
      let here : same_folded (trim_end is_blank (before b',' s)) wanted
          ≡ is_token wanted (before b',' s) =
        ap (λ b. same_folded (trim_end is_blank b) wanted) (sym (before-skip (c ∷ value))) in
      let full : (length (c ∷ value) == 0) ≡ false = ground arith in
      rw (full, ih, here) (sym (any-skip (c ∷ value) ∙ any-before s))

-- `header_has_token` holds exactly when one of the elements between the commas of the value is the
-- token, in upper or lower case and with blanks around it. The token is not empty.
pub header_has_token-elements :
    (value wanted : Bytes)
    → 0 < length wanted
    → header_has_token value wanted ≡ any_token wanted (elements value)
unfolding header_has_token
header_has_token-elements value wanted some' =
    token_rounds-elements wanted some' (length value) value (omega arith)

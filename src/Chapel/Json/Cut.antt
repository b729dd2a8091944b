-- ===== src/Chapel/Json/Cut.antt =====
-- Where the scanner leaves the text: only behind a backslash that ends it.
use the_convex_100_language.Common.{
  ℕ, zero, suc, ◌≡◌, refl, subst, length, Bool, true, false, not, ◌||◌, [], ◌∷◌, drop, ltb, ◌==◌,
  if◌then◌else◌, Bytes, text, starts_with, arith, Bool-cases, inl, inr,
}
use the_convex_100_language.Chapel.Chars.{
  head, tail, is_digit, skip_digits, is_space, skip_space, hex_digit,
}
use the_convex_100_language.Chapel.Json.{
  Cursor, at, null, beyond, out_of_fuel, ◌>>=◌, skip_hex, is_escape, skip_escape, string_rounds,
  skip_json_string_token, skip_integer, skip_fraction, skip_sign, skip_exponent,
  skip_json_number_token, skip_json_value, skip_items, skip_members,
}

-- Whether the last character is a backslash.
unfoldable pub is_cut : Bytes → Bool
is_cut [] = false
is_cut (c ∷ []) = c == 92
is_cut (c ∷ d ∷ s) = is_cut (d ∷ s)

-- A text at whose end a backslash only stands if `b` holds.
abbrev pub Within : Bool → Bytes → Type 0
Within b s = is_cut s ≡ true → b ≡ true

abbrev pub Stays : Bool → Cursor → Type 0
Stays b (at s) = Within b s
Stays b beyond = b ≡ true
Stays b _ = Unit

module _ (b : Bool) where
  within_rest : (c : ℕ) (s : Bytes) → Within b (c ∷ s) → Within b s
  unfolding is_cut
  within_rest c [] h e = ground (arith, e)
  within_rest c (d ∷ s) h e = h e

  within_tail : (s : Bytes) → Within b s → Within b (tail s)
  unfolding tail
  within_tail [] h = h
  within_tail (c ∷ s) h = within_rest c s h

  within_drop : (n : ℕ) (s : Bytes) → Within b s → Within b (drop n s)
  within_drop zero s h = h
  within_drop (suc n) [] h = h
  within_drop (suc n) (c ∷ s) h = within_drop n s (within_rest c s h)

  within_space : (s : Bytes) → Within b s → Within b (skip_space s)
  unfolding skip_space
  within_space [] h = h
  within_space (c ∷ s) h = elim (Bool-cases (is_space c)) [
    | inl e ↦ rw e (within_space s (within_rest c s h))
    | inr e ↦ rw e h
  ]

  within_digits : (s : Bytes) → Within b s → Within b (skip_digits s)
  unfolding skip_digits
  within_digits [] h = h
  within_digits (c ∷ s) h = elim (Bool-cases (is_digit c)) [
    | inl e ↦ rw e (within_digits s (within_rest c s h))
    | inr e ↦ rw e h
  ]

  Stays-if :
      (t : Bool) (c d : Cursor)
      → (t ≡ true → Stays b c)
      → (t ≡ false → Stays b d)
      → Stays b (if t then c else d)
  Stays-if true c d h k = h refl
  Stays-if false c d h k = k refl

  Stays-bind :
      (c : Cursor) (f : Bytes → Cursor)
      → Stays b c
      → ((s : Bytes) → Within b s → Stays b (f s))
      → Stays b (c >>= f)
  Stays-bind (at s) f h go = go s h
  Stays-bind null f h go = tt
  Stays-bind beyond f h go = h
  Stays-bind out_of_fuel f h go = tt

  skip_hex-Stays : (n : ℕ) (s : Bytes) → Within b s → Stays b (skip_hex n s)
  unfolding skip_hex
  skip_hex-Stays zero s h = h
  skip_hex-Stays (suc n) [] h = tt
  skip_hex-Stays (suc n) (c ∷ s) h =
      Stays-if (hex_digit c) (skip_hex n s) null (λ e. skip_hex-Stays n s (within_rest c s h))
        (λ e. tt)

  skip_escape-Stays : (s : Bytes) → Within b (92 ∷ s) → Stays b (skip_escape s)
  unfolding skip_escape is_cut
  skip_escape-Stays [] h = h refl
  skip_escape-Stays (c ∷ s) h =
      let rest = within_rest c s h in
      Stays-if (c == b'u') (skip_hex 4 s) _ (λ e. skip_hex-Stays 4 s rest)
        (λ e. Stays-if (is_escape c) (at s) null (λ e'. rest) (λ e'. tt))

  string_rounds-Stays : (n : ℕ) (s : Bytes) → Within b s → Stays b (string_rounds n s)
  unfolding string_rounds
  string_rounds-Stays zero s h = tt
  string_rounds-Stays (suc n) [] h = tt
  string_rounds-Stays (suc n) (c ∷ s) h =
      let rest = within_rest c s h in
      Stays-if (c == 34) (at s) _ (λ e. rest)
        λ e.
          Stays-if (ltb c 32) null _ (λ e. tt)
            λ e.
              Stays-if (not (c == 92)) (string_rounds n s) _ (λ e. string_rounds-Stays n s rest)
                λ e.
                  let slash : c ≡ 92 = ground arith in
                  Stays-bind (skip_escape s) (λ r. string_rounds n r)
                    (skip_escape-Stays s (subst (λ x. Within b (x ∷ s)) slash h))
                    (λ r l. string_rounds-Stays n r l)

  skip_json_string_token-Stays : (s : Bytes) → Within b s → Stays b (skip_json_string_token s)
  unfolding skip_json_string_token
  skip_json_string_token-Stays s h =
      Stays-if (head s == 34) (string_rounds (length s) (tail s)) null
        (λ e. string_rounds-Stays (length s) (tail s) (within_tail s h)) (λ e. tt)

  skip_integer-Stays : (s : Bytes) → Within b s → Stays b (skip_integer s)
  unfolding skip_integer
  skip_integer-Stays s h =
      Stays-if (head s == b'0') (at (tail s)) _ (λ e. within_tail s h)
        λ e.
          Stays-if (ltb (head s) b'1' || ltb b'9' (head s)) null (at (skip_digits s)) (λ e. tt)
            (λ e. within_digits s h)

  skip_fraction-Stays : (s : Bytes) → Within b s → Stays b (skip_fraction s)
  unfolding skip_fraction
  skip_fraction-Stays s h =
      Stays-if (head s == b'.') _ (at s)
        (λ e.
          Stays-if (not (is_digit (head (tail s)))) null (at (skip_digits (tail s))) (λ e. tt)
            (λ e. within_digits (tail s) (within_tail s h)))
        (λ e. h)

  within_sign : (s : Bytes) → Within b s → Within b (skip_sign s)
  unfolding skip_sign
  within_sign s h = elim (Bool-cases ((head s == b'+') || (head s == b'-'))) [
    | inl e ↦ rw e (within_tail s h)
    | inr e ↦ rw e h
  ]

  skip_exponent-Stays : (s : Bytes) → Within b s → Stays b (skip_exponent s)
  unfolding skip_exponent
  skip_exponent-Stays s h =
      let digits = skip_sign (tail s) in
      Stays-if ((head s == b'e') || (head s == b'E')) _ (at s)
        (λ e.
          Stays-if (not (is_digit (head digits))) null (at (skip_digits digits)) (λ e. tt)
            (λ e. within_digits digits (within_sign (tail s) (within_tail s h))))
        (λ e. h)

  skip_json_number_token-Stays : (s : Bytes) → Within b s → Stays b (skip_json_number_token s)
  unfolding skip_json_number_token
  skip_json_number_token-Stays s h =
      let first = if head s == b'-' then tail s else s in
      let start : Within b first = elim (Bool-cases (head s == b'-')) [
        | inl e ↦ rw e (within_tail s h)
        | inr e ↦ rw e h
      ] in
      Stays-bind (skip_integer first >>= skip_fraction) skip_exponent
        (Stays-bind (skip_integer first) skip_fraction (skip_integer-Stays first start)
          skip_fraction-Stays)
        skip_exponent-Stays

  abbrev AllStay : (ℕ → Bytes → ℕ → Cursor) → ℕ → Type 0
  AllStay f n = (s : Bytes) (d : ℕ) → Within b s → Stays b (f n s d)

  -- What follows an item or a field, or an opening bracket.
  next_Stays :
      (s : Bytes) (t : ℕ) (more : Cursor)
      → Within b s
      → Stays b more
      → Stays b (if head s == t then at (tail s) else if head s == b',' then more else null)
  next_Stays s t more h m =
      Stays-if (head s == t) (at (tail s)) _ (λ e. within_tail s h)
        (λ e. Stays-if (head s == b',') more null (λ e. m) (λ e. tt))

  open_Stays :
      (s : Bytes) (t : ℕ) (more : Cursor)
      → Within b s
      → Stays b more
      → Stays b (if head s == t then at (tail s) else more)
  open_Stays s t more h m =
      Stays-if (head s == t) (at (tail s)) more (λ e. within_tail s h) (λ e. m)

  value_Stays :
      (n : ℕ) → AllStay skip_items n → AllStay skip_members n → AllStay skip_json_value (suc n)
  unfolding skip_json_value
  value_Stays n items members cursor d h =
      let s = skip_space cursor in
      let w = within_space cursor h in
      let inner = skip_space (tail s) in
      let v = within_space (tail s) (within_tail s w) in
      Stays-if (ltb 128 d) null _ (λ e. tt)
        λ e.
          Stays-if (head s == 34) (skip_json_string_token s) _
            (λ e. skip_json_string_token-Stays s w)
            λ e.
              Stays-if ((head s == b'-') || is_digit (head s)) (skip_json_number_token s) _
                (λ e. skip_json_number_token-Stays s w)
                λ e.
                  Stays-if (starts_with s (text "true")) (at (drop 4 s)) _ (λ e. within_drop 4 s w)
                    λ e.
                      Stays-if (starts_with s (text "false")) (at (drop 5 s)) _
                        (λ e. within_drop 5 s w)
                        λ e.
                          Stays-if (starts_with s (text "null")) (at (drop 4 s)) _
                            (λ e. within_drop 4 s w)
                            λ e.
                              Stays-if (head s == b'[') _ _
                                (λ e.
                                  open_Stays inner b']' (skip_items n inner d) v (items inner d v))
                                λ e.
                                  Stays-if (head s == b'{') _ null
                                    (λ e.
                                      open_Stays inner b'}' (skip_members n inner d) v
                                        (members inner d v))
                                    (λ e. tt)

  items_Stay :
      (n : ℕ) → AllStay skip_json_value n → AllStay skip_items n → AllStay skip_items (suc n)
  unfolding skip_items
  items_Stay n value items s d h =
      Stays-bind (skip_json_value n s (suc d)) _ (value s (suc d) h) λ c l.
        let w = within_space c l in
        next_Stays (skip_space c) b']' (skip_items n (tail (skip_space c)) d) w
          (items (tail (skip_space c)) d (within_tail (skip_space c) w))

  members_Stay :
      (n : ℕ) → AllStay skip_json_value n → AllStay skip_members n → AllStay skip_members (suc n)
  unfolding skip_members
  members_Stay n value members s d h =
      Stays-bind (skip_json_string_token s) _ (skip_json_string_token-Stays s h) λ key l.
        let start = tail (skip_space key) in
        let w = within_tail (skip_space key) (within_space key l) in
        Stays-if (head (skip_space key) == b':') _ null
          (λ e. Stays-bind (skip_json_value n start (suc d)) _ (value start (suc d) w) λ c k.
            let v = within_space c k in
            let next = skip_space (tail (skip_space c)) in
            let v' = within_space (tail (skip_space c)) (within_tail (skip_space c) v) in
            next_Stays (skip_space c) b'}' (skip_members n next d) v (members next d v'))
          (λ e. tt)

  all_stay : (n : ℕ) → AllStay skip_json_value n × AllStay skip_items n × AllStay skip_members n
  unfolding skip_json_value skip_items skip_members
  all_stay zero = (λ s d h. tt, λ s d h. tt, λ s d h. tt)
  all_stay (suc n) =
      let (value, items, members) = all_stay n in
      (value_Stays n items members, items_Stay n value items, members_Stay n value members)

-- The cursor leaves the text only when its last character is a backslash.
pub skip_json_value-is_cut :
    (n : ℕ) (s : Bytes) (d : ℕ) → skip_json_value n s d ≡ beyond → is_cut s ≡ true
skip_json_value-is_cut n s d e = subst (Stays (is_cut s)) e ((all_stay (is_cut s) n).0 s d (λ h. h))

-- ===== src/Chapel/Json/Total.antt =====
-- The fuel of `skip_json_value` on any text.
use the_convex_100_language.Common.{
  ℕ, zero, suc, ◌≤◌, ◌<◌, ◌≡◌, refl, Bool, true, false, not, ◌||◌, [], ◌∷◌, length, ltb, ◌==◌,
  if◌then◌else◌, Bytes, arith, Bool-cases, inl, inr,
}
use the_convex_100_language.Chapel.Chars.{
  head, tail, is_digit, skip_digits, length-skip_digits, hex_digit,
}
use the_convex_100_language.Chapel.Json.{
  Cursor, at, null, beyond, out_of_fuel, ◌>>=◌, skip_hex, is_escape, skip_escape, string_rounds,
  skip_json_string_token, skip_integer, skip_fraction, skip_sign, skip_exponent,
  skip_json_number_token,
}

-- The cursor is not out of fuel, and what is left is no longer than `n`.
abbrev pub Leaves : ℕ → Cursor → Type 0
Leaves n (at s) = length s ≤ n
Leaves n out_of_fuel = ⊥
Leaves n _ = Unit

pub Leaves-mono : (m n : ℕ) (c : Cursor) → m ≤ n → Leaves m c → Leaves n c
Leaves-mono m n (at s) h l = omega (arith, l)
Leaves-mono m n null h l = tt
Leaves-mono m n beyond h l = tt
Leaves-mono m n out_of_fuel h l = l

pub Leaves-bind :
    (m n : ℕ) (c : Cursor) (f : Bytes → Cursor)
    → Leaves m c
    → ((s : Bytes) → length s ≤ m → Leaves n (f s))
    → Leaves n (c >>= f)
Leaves-bind m n (at s) f h go = go s h
Leaves-bind m n null f h go = tt
Leaves-bind m n beyond f h go = tt
Leaves-bind m n out_of_fuel f h go = h

skip_hex-Leaves : (n : ℕ) (s : Bytes) → Leaves (length s) (skip_hex n s)
unfolding skip_hex
skip_hex-Leaves zero s = omega arith
skip_hex-Leaves (suc n) [] = tt
skip_hex-Leaves (suc n) (c ∷ s) = elim (Bool-cases (hex_digit c)) [
  | inl h ↦
      rw h
        (Leaves-mono (length s) (suc (length s)) (skip_hex n s) (omega arith) (skip_hex-Leaves n s))
  | inr h ↦ rw h tt
]

skip_escape-Leaves : (s : Bytes) → Leaves (length s) (skip_escape s)
unfolding skip_escape
skip_escape-Leaves [] = tt
skip_escape-Leaves (c ∷ s) = elim (Bool-cases (c == b'u')) [
  | inl u ↦
      rw u
        (Leaves-mono (length s) (suc (length s)) (skip_hex 4 s) (omega arith) (skip_hex-Leaves 4 s))
  | inr other ↦ elim (Bool-cases (is_escape c)) [
    | inl e ↦ rw (other, e) (omega arith)
    | inr e ↦ rw (other, e) tt
  ]
]

string_rounds-Leaves : (n : ℕ) (s : Bytes) → length s < n → Leaves (length s) (string_rounds n s)
unfolding string_rounds
string_rounds-Leaves zero s h = absurd (omega arith)
string_rounds-Leaves (suc n) [] h = tt
string_rounds-Leaves (suc n) (c ∷ s) h = elim (Bool-cases (c == 34)) [
  | inl q ↦ rw q (omega arith)
  | inr q ↦ elim (Bool-cases (ltb c 32)) [
    | inl low ↦ rw (q, low) tt
    | inr low ↦ elim (Bool-cases (c == 92)) [
      | inl e ↦
          rw (q, low, e)
            (Leaves-bind (length s) (suc (length s)) (skip_escape s) (λ r. string_rounds n r)
              (skip_escape-Leaves s)
              (λ r l.
                Leaves-mono (length r) (suc (length s)) (string_rounds n r) (omega arith)
                  (string_rounds-Leaves n r (omega arith))))
      | inr e ↦
          rw (q, low, e)
            (Leaves-mono (length s) (suc (length s)) (string_rounds n s) (omega arith)
              (string_rounds-Leaves n s (omega arith)))
    ]
  ]
]

-- At a character that is not NUL the text is not empty.
pub tail_lt : (s : Bytes) → (head s == 0) ≡ false → suc (length (tail s)) ≡ length s
unfolding head tail
tail_lt [] h = absurd (ground arith)
tail_lt (c ∷ s) h = refl

pub length-tail : (s : Bytes) → length (tail s) ≤ length s
unfolding tail
length-tail [] = omega arith
length-tail (c ∷ s) = omega arith

pub Leaves-if :
    (n : ℕ) (b : Bool) (c d : Cursor)
    → (b ≡ true → Leaves n c)
    → (b ≡ false → Leaves n d)
    → Leaves n (if b then c else d)
Leaves-if n true c d h k = h refl
Leaves-if n false c d h k = k refl

pub skip_json_string_token-Leaves : (s : Bytes) → Leaves (length s) (skip_json_string_token s)
unfolding skip_json_string_token
skip_json_string_token-Leaves s =
    Leaves-if (length s) (head s == 34) (string_rounds (length s) (tail s)) null
      (λ q.
        let shorter = tail_lt s (ground arith) in
        Leaves-mono (length (tail s)) (length s) (string_rounds (length s) (tail s)) (omega arith)
          (string_rounds-Leaves (length s) (tail s) (omega arith)))
      (λ q. tt)

skip_integer-Leaves : (s : Bytes) → Leaves (length s) (skip_integer s)
unfolding skip_integer
skip_integer-Leaves s =
    Leaves-if (length s) (head s == b'0') (at (tail s)) _ (λ z. length-tail s)
      (λ z.
        Leaves-if (length s) (ltb (head s) b'1' || ltb b'9' (head s)) null (at (skip_digits s))
          (λ h. tt) (λ h. length-skip_digits s))

skip_fraction-Leaves : (s : Bytes) → Leaves (length s) (skip_fraction s)
unfolding skip_fraction
skip_fraction-Leaves s =
    let t = length-tail s in
    let d = length-skip_digits (tail s) in
    Leaves-if (length s) (head s == b'.') _ (at s)
      (λ p.
        Leaves-if (length s) (not (is_digit (head (tail s)))) null (at (skip_digits (tail s)))
          (λ h. tt) (λ h. omega arith))
      (λ p. omega arith)

length-skip_sign : (s : Bytes) → length (skip_sign s) ≤ length s
unfolding skip_sign
length-skip_sign s = ground (arith, length-tail s)

skip_exponent-Leaves : (s : Bytes) → Leaves (length s) (skip_exponent s)
unfolding skip_exponent
skip_exponent-Leaves s =
    let t = length-tail s in
    let sign = length-skip_sign (tail s) in
    let d = length-skip_digits (skip_sign (tail s)) in
    Leaves-if (length s) ((head s == b'e') || (head s == b'E')) _ (at s)
      (λ p.
        Leaves-if (length s) (not (is_digit (head (skip_sign (tail s))))) null
          (at (skip_digits (skip_sign (tail s)))) (λ h. tt) (λ h. omega arith))
      (λ p. omega arith)

pub skip_json_number_token-Leaves : (s : Bytes) → Leaves (length s) (skip_json_number_token s)
unfolding skip_json_number_token
skip_json_number_token-Leaves s =
    let t = length-tail s in
    let n = length s in
    let sign : length (if head s == b'-' then tail s else s) ≤ n = ground arith in
    let first = if head s == b'-' then tail s else s in
    let next : (f : Bytes → Cursor)
        → ((r : Bytes) → Leaves (length r) (f r))
        → (r : Bytes) → length r ≤ n
        → Leaves n (f r) =
      λ f go r l. Leaves-mono (length r) n (f r) l (go r) in
    Leaves-bind n n (skip_integer first >>= skip_fraction) skip_exponent
      (Leaves-bind n n (skip_integer first) skip_fraction
        (next skip_integer skip_integer-Leaves first sign)
        (next skip_fraction skip_fraction-Leaves))
      (next skip_exponent skip_exponent-Leaves)

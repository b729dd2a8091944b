-- ===== src/Chapel/Json/Numbers.antt =====
-- `skip_json_number_token` before the rest of a text.
use the_convex_100_language.Common.{
  ℕ, ◌≡◌, refl, true, false, [], ◌∷◌, ◌++◌, append_assoc, ltb, ◌==◌, Bytes, All, arith, inl, inr,
}
use the_convex_100_language.Chapel.Chars.{
  head, tail, is_digit, skip_digits-append, NoDigit, IsDigit,
}
use the_convex_100_language.Chapel.Json.{
  at, skip_integer, skip_fraction, skip_sign, skip_exponent, skip_json_number_token,
}
use the_convex_100_language.Chapel.Decimal.Literal.{
  Sign, plain, plus, minus, Exponent, no_exponent, exponent, print_sign, print_exponent, Literal,
  IsLiteral, print_literal, print_fraction, minus_sign, IsInteger, IsExponent, Ends,
}
use the_convex_100_language.Chapel.Decimal.Reading.{print_fraction-NoDigit, minus_sign-head, letter}

skip_integer-append :
    (ds rest : Bytes) → IsInteger ds → NoDigit rest → skip_integer (ds ++ rest) ≡ at rest
unfolding skip_integer head tail
skip_integer-append [] rest (h, d, s) n = absurd (omega arith)
skip_integer-append (c ∷ []) rest (h, d, inl zero') n = ground arith
skip_integer-append (c ∷ d ∷ ds) rest (h, e, inl zero') n = absurd (ground arith)
skip_integer-append (c ∷ ds) rest (h, d, inr first) n =
    let low : ltb c 49 ≡ false = ground arith in
    let high : ltb 57 c ≡ false = ground arith in
    rw (first, low, high, skip_digits-append (c ∷ ds) rest d n) refl

skip_fraction-append :
    (ds rest : Bytes)
    → All IsDigit ds
    → NoDigit rest
    → (head rest == b'.') ≡ false
    → skip_fraction (print_fraction ds ++ rest) ≡ at rest
unfolding skip_fraction head tail
skip_fraction-append [] rest h n p = rw p refl
skip_fraction-append (c ∷ ds) rest h n p = rw (h.0, skip_digits-append (c ∷ ds) rest h n) refl

skip_sign-print :
    (sign : Sign) (c : ℕ) (ds : Bytes)
    → is_digit c ≡ true
    → skip_sign (print_sign sign ++ c ∷ ds) ≡ c ∷ ds
unfolding skip_sign head tail
skip_sign-print plain c ds h = ground arith
skip_sign-print plus c ds h = refl
skip_sign-print minus c ds h = refl

skip_exponent-append :
    (e : Exponent) (rest : Bytes)
    → IsExponent e
    → Ends rest
    → skip_exponent (print_exponent e ++ rest) ≡ at rest
unfolding skip_exponent head tail
skip_exponent-append no_exponent rest h ends = rw ends.2 refl
skip_exponent-append (exponent capital sign []) rest h ends = absurd (omega arith)
skip_exponent-append (exponent capital sign (c ∷ ds)) rest h ends =
    let joined = append_assoc (print_sign sign) (c ∷ ds) rest in
    let digits = skip_sign-print sign c (ds ++ rest) h.1.0 in
    rw (letter capital, joined, digits, h.1.0, skip_digits-append (c ∷ ds) rest h.1 ends.0) refl

print_exponent-append :
    (e : Exponent) (rest : Bytes)
    → Ends rest
    → NoDigit (print_exponent e ++ rest) × ((head (print_exponent e ++ rest) == b'.') ≡ false)
unfolding head
print_exponent-append no_exponent rest h = (h.0, h.1)
print_exponent-append (exponent true sign ds) rest h = (refl, refl)
print_exponent-append (exponent false sign ds) rest h = (refl, refl)

pub skip_json_number_token-print :
    (l : Literal) (rest : Bytes)
    → IsLiteral l
    → Ends rest
    → skip_json_number_token (print_literal l ++ rest) ≡ at rest
unfolding skip_json_number_token
skip_json_number_token-print l rest h ends =
    let power = print_exponent l.power ++ rest in
    let fraction = print_fraction l.fraction ++ power in
    let next = print_exponent-append l.power rest ends in
    let after = print_fraction-NoDigit l.fraction power next.0 in
    let sign = minus_sign-head l.negative l.integer fraction h.integer_ok in
    let joined : print_literal l ++ rest ≡ minus_sign l.negative ++ (l.integer ++ fraction) =
      simp (append_assoc) in
    rw
      (
        joined,
        sign.0,
        sign.1,
        skip_integer-append l.integer fraction h.integer_ok after,
        skip_fraction-append l.fraction power h.fraction_ok next.0 next.1,
      )
      (skip_exponent-append l.power rest h.exponent_ok ends)

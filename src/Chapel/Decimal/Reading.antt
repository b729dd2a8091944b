-- ===== src/Chapel/Decimal/Reading.antt =====
-- What `decimal_to_int64` reads in a number as it is written.
use the_convex_100_language.Common.{
  ℕ, suc, ◌+◌, ◌-◌, ◌*◌, ◌^◌, ◌≤◌, ◌<◌, ◌≡◌, inl, inr, refl, subst, ◌∙◌, Bool, true, false, ◌||◌,
  some, [], ◌∷◌, ◌++◌, append-nil, length, ltb, ◌==◌, if◌then◌else◌, Bytes, All, arith,
}
use native.Mathlib.Nat.{pow-succ'}
use the_convex_100_language.Chapel.Chars.{
  head, tail, is_digit, leading_digits, skip_digits, IsDigit, NoDigit, leading_digits-append,
  skip_digits-append,
}
use the_convex_100_language.Chapel.Decimal.{
  Lexeme, read_integer, read_fraction, accumulate, after_sign, read_exponent, read_lexeme,
}
use the_convex_100_language.Chapel.Decimal.Digits.{number, power_pos}
use the_convex_100_language.Chapel.Decimal.Literal.{
  Sign, plain, plus, minus, Exponent, no_exponent, exponent, Literal, minus_sign, print_fraction,
  print_sign, exponent_letter, print_exponent, print_literal, IsInteger, IsExponent, IsLiteral,
  size, is_lowered,
}

read_integer-append :
    (ds rest : Bytes) → IsInteger ds → NoDigit rest → read_integer (ds ++ rest) ≡ some (ds, rest)
unfolding read_integer head tail
read_integer-append [] rest (h, d, s) n = absurd (omega arith)
read_integer-append (c ∷ []) rest (h, d, inl zero') n = ground arith
read_integer-append (c ∷ d ∷ ds) rest (h, e, inl zero') n = absurd (ground arith)
read_integer-append (c ∷ ds) rest (h, d, inr first) n =
    let low : ltb c 49 ≡ false = ground arith in
    let high : ltb 57 c ≡ false = ground arith in
    rw
      (
        first,
        low,
        high,
        leading_digits-append (c ∷ ds) rest d n,
        skip_digits-append (c ∷ ds) rest d n,
      )
      refl

read_fraction-append :
    (ds rest : Bytes)
    → All IsDigit ds
    → NoDigit rest
    → (head rest == b'.') ≡ false
    → read_fraction (print_fraction ds ++ rest) ≡ some (ds, rest)
unfolding read_fraction head tail
read_fraction-append [] rest h n p = rw p refl
read_fraction-append (c ∷ ds) rest h n p =
    rw (leading_digits-append (c ∷ ds) rest h n, skip_digits-append (c ∷ ds) rest h n)
      (ground arith)

-- The exponent is read exactly as long as it is below ten thousand.
accumulate-lt :
    (ds : Bytes) (e : ℕ)
    → All IsDigit ds
    → e * 10 ^ length ds + number ds < 10000
    → accumulate e ds ≡ e * 10 ^ length ds + number ds
unfolding accumulate
accumulate-lt [] e h b = omega arith
accumulate-lt (c ∷ ds) e h b =
    let power = pow-succ' 10 (length ds) in
    let total : (e * 10 + (c - 48)) * 10 ^ length ds + number ds
        ≡ e * 10 ^ suc (length ds) + ((c - 48) * 10 ^ length ds + number ds) =
      rw power (omega arith) in
    let large : e * 10 ≤ e * 10 ^ suc (length ds) =
      rw power (grind (arith, power_pos (length ds))) in
    let small : ltb e 1000 ≡ true = ground arith in
    rw small (accumulate-lt ds (e * 10 + (c - 48)) h.1 (omega arith) ∙ total)

leading_digits-whole : (ds : Bytes) → All IsDigit ds → leading_digits ds ≡ ds
unfolding head
leading_digits-whole ds h =
    subst (λ b. leading_digits b ≡ ds) (append-nil ds) (leading_digits-append ds [] h refl)

skip_digits-whole : (ds : Bytes) → All IsDigit ds → skip_digits ds ≡ []
unfolding head
skip_digits-whole ds h =
    subst (λ b. skip_digits b ≡ []) (append-nil ds) (skip_digits-append ds [] h refl)

after_sign-print :
    (sign : Sign) (c : ℕ) (ds : Bytes)
    → is_digit c ≡ true
    → after_sign (print_sign sign ++ c ∷ ds) ≡ c ∷ ds
unfolding after_sign head tail
after_sign-print plain c ds h = ground arith
after_sign-print plus c ds h = refl
after_sign-print minus c ds h = refl

pub letter :
    (capital : Bool) → (exponent_letter capital == b'e') || (exponent_letter capital == b'E') ≡ true
letter true = refl
letter false = refl

minus-print :
    (capital : Bool) (sign : Sign) (c : ℕ) (ds : Bytes)
    → is_digit c ≡ true
    → (head (print_sign sign ++ c ∷ ds) == b'-') ≡ is_lowered (exponent capital sign (c ∷ ds))
unfolding head
minus-print capital plain c ds h = ground arith
minus-print capital plus c ds h = refl
minus-print capital minus c ds h = refl

read_exponent-print :
    (e : Exponent)
    → IsExponent e
    → size e < 10000
    → read_exponent (print_exponent e) ≡ some (is_lowered e, size e, [])
unfolding read_exponent head tail
read_exponent-print no_exponent h l = refl
read_exponent-print (exponent capital sign []) h l = absurd (omega arith)
read_exponent-print (exponent capital sign (c ∷ ds)) h l =
    let digits = after_sign-print sign c ds h.1.0 in
    let first = h.1.0 in
    let sum : accumulate 0 (c ∷ ds) ≡ number (c ∷ ds) =
      accumulate-lt (c ∷ ds) 0 h.1 (omega arith) ∙ omega arith in
    let minus' = minus-print capital sign c ds first in
    rw
      (
        letter capital,
        digits,
        first,
        leading_digits-whole (c ∷ ds) h.1,
        skip_digits-whole (c ∷ ds) h.1,
        sum,
        minus',
      )
      refl

-- What the code keeps of a number.
abbrev pub lexeme_of : Literal → Lexeme
lexeme_of l = record {
  negative = l.negative;
  integer = l.integer;
  fraction = l.fraction;
  exponent_negative = is_lowered l.power;
  exponent = size l.power;
}

-- What may follow the digits: no digit, and no point but the number's own.
print_exponent-Ends :
    (e : Exponent) → NoDigit (print_exponent e) × ((head (print_exponent e) == b'.') ≡ false)
unfolding head
print_exponent-Ends no_exponent = (refl, refl)
print_exponent-Ends (exponent true sign ds) = (refl, refl)
print_exponent-Ends (exponent false sign ds) = (refl, refl)

pub print_fraction-NoDigit : (ds rest : Bytes) → NoDigit rest → NoDigit (print_fraction ds ++ rest)
unfolding head
print_fraction-NoDigit [] rest h = h
print_fraction-NoDigit (c ∷ ds) rest h = refl

pub minus_sign-head :
    (b : Bool) (ds rest : Bytes)
    → IsInteger ds
    → ((head (minus_sign b ++ (ds ++ rest)) == b'-') ≡ b)
      × ((if b then tail (minus_sign b ++ (ds ++ rest)) else minus_sign b ++ (ds ++ rest))
          ≡ ds ++ rest)
unfolding head tail
minus_sign-head true ds rest h = (refl, refl)
minus_sign-head false [] rest h = absurd (omega (arith, h.0))
minus_sign-head false (c ∷ ds) rest h = let d = h.1.0 in (ground arith, refl)

-- A number is read as it is written, when its exponent is below ten thousand.
pub read_lexeme-print :
    (l : Literal)
    → IsLiteral l
    → size l.power < 10000
    → read_lexeme (print_literal l) ≡ some (lexeme_of l)
unfolding read_lexeme
read_lexeme-print l h small =
    let ends = print_exponent-Ends l.power in
    let after = print_fraction-NoDigit l.fraction (print_exponent l.power) ends.0 in
    let sign =
      minus_sign-head l.negative l.integer (print_fraction l.fraction ++ print_exponent l.power)
        h.integer_ok in
    rw
      (
        sign.0,
        sign.1,
        read_integer-append l.integer (print_fraction l.fraction ++ print_exponent l.power)
            h.integer_ok after,
        read_fraction-append l.fraction (print_exponent l.power) h.fraction_ok ends.0 ends.1,
        read_exponent-print l.power h.exponent_ok small,
      )
      refl

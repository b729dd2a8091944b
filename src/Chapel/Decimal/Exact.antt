-- ===== src/Chapel/Decimal/Exact.antt =====
-- `decimal_to_int64` at JSON numbers as they are written.
use the_convex_100_language.Common.{
  ℕ, ◌+◌, ◌*◌, ◌^◌, ◌<◌, ◌≡◌, ◌↔◌, sym, ap, ◌∙◌, some, [], ◌∷◌, ◌++◌, length, Bytes, All, arith, ℤ,
}
use the_convex_100_language.Chapel.Chars.{IsDigit}
use the_convex_100_language.Chapel.Decimal.{surplus, deficit, decimal_to_int64}
use the_convex_100_language.Chapel.Decimal.Digits.{number, power_add}
use the_convex_100_language.Chapel.Decimal.Literal.{
  Literal, IsLiteral, print_literal, size, raise, lower,
}
use the_convex_100_language.Chapel.Decimal.Reading.{lexeme_of, read_lexeme-print}
use the_convex_100_language.Chapel.Decimal.Convert.{Is, cancel, convert_iff}

-- The scale of a number as it is written.
abbrev pub IsValue : Literal → ℤ → Type 0
IsValue l z =
    Is l.negative (number (l.integer ++ l.fraction)) (raise l.power)
      (length l.fraction + lower l.power) z

scale_trade :
    (l : Literal)
    → 10 ^ raise l.power * 10 ^ deficit (lexeme_of l)
      ≡ 10 ^ surplus (lexeme_of l) * 10 ^ (length l.fraction + lower l.power)
scale_trade l =
    let a = power_add (raise l.power) (deficit (lexeme_of l)) in
    let b = power_add (surplus (lexeme_of l)) (length l.fraction + lower l.power) in
    let same : raise l.power + deficit (lexeme_of l)
        ≡ surplus (lexeme_of l) + (length l.fraction + lower l.power) =
      ground arith in
    sym a ∙ ap (λ k. 10 ^ k) same ∙ b

exchanged :
    (m n s d r k : ℕ)
    → 10 ^ r * 10 ^ d ≡ 10 ^ s * 10 ^ k
    → m * 10 ^ d ≡ n * 10 ^ s
    → m * 10 ^ k ≡ n * 10 ^ r
exchanged m n s d r k trade e =
    let e' = ap (λ x. x * 10 ^ r) e in
    let t' = ap (λ x. m * x) trade in cancel s (m * 10 ^ k) (n * 10 ^ r) (omega arith)

All-append : (xs ys : Bytes) → All IsDigit xs → All IsDigit ys → All IsDigit (xs ++ ys)
All-append [] ys h k = k
All-append (x ∷ xs) ys h k = (h.0, All-append xs ys h.1 k)

-- `decimal_to_int64` of a JSON number, when its exponent is below ten thousand: it succeeds exactly
-- when the number is an integer in the range of 64 bits, and gives it.
pub decimal_to_int64_iff :
    (l : Literal) (z : ℤ)
    → IsLiteral l
    → size l.power < 10000
    → (decimal_to_int64 (print_literal l) ≡ some z) ↔ IsValue l z
unfolding decimal_to_int64
decimal_to_int64_iff l z h small =
    let n = number (l.integer ++ l.fraction) in
    let s = surplus (lexeme_of l) in
    let d = deficit (lexeme_of l) in
    let r = raise l.power in
    let k = length l.fraction + lower l.power in
    let digits = All-append l.integer l.fraction h.integer_ok.1 h.fraction_ok in
    let last = convert_iff (lexeme_of l) z digits in
    let trade = scale_trade l in
    rw (read_lexeme-print l h small) (
      λ e.
          let (m, same, fits, sign) = last.0 e in (m, exchanged m n s d r k trade same, fits, sign),
      λ (m, same, fits, sign). last.1 (m, exchanged m n r k s d (sym trade) same, fits, sign),
    )

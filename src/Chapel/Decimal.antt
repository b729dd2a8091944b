-- ===== src/Chapel/Decimal.antt =====
-- `decimal_to_int64`: a JSON number as an exact 64-bit integer.
pub mod Digits
pub mod Literal
pub mod Reading
pub mod Trimming
pub mod Scaling
pub mod Convert
pub mod Exact
use the_convex_100_language.Common.{
  ℕ, zero, suc, ◌+◌, ◌-◌, ◌*◌, ◌%◌, ◌^◌, Bool, true, false, not, ◌&&◌, ◌||◌, Option, none, some,
  List, [], ◌∷◌, ◌++◌, length, get_or, take, ltb, leb, ◌==◌, if◌then◌else◌, Bytes, ℤ, pos, negsuc,
}
use the_convex_100_language.Common.Maybe.{◌>>=◌, ◌>>◌, guard}
use the_convex_100_language.Chapel.Chars.{head, tail, is_digit, leading_digits, skip_digits}

-- What the first part of the function has read: the sign, the digits before and after the point, and
-- the exponent with its sign.
pub record Lexeme : Type 0 where
  pub negative : Bool
  pub integer : Bytes
  pub fraction : Bytes
  pub exponent_negative : Bool
  pub exponent : ℕ

-- The digits before the point, with where they end; `0` stands alone.
unfoldable pub read_integer : Bytes → Option (Bytes × Bytes)
read_integer cursor =
    if head cursor == b'0'
    then some (b'0' ∷ [], tail cursor)
    else if ltb (head cursor) b'1' || ltb b'9' (head cursor)
    then none
    else some (leading_digits cursor, skip_digits cursor)

unfoldable pub read_fraction : Bytes → Option (Bytes × Bytes)
read_fraction cursor =
    if head cursor == b'.'
    then (if length (leading_digits (tail cursor)) == 0
        then none
        else some (leading_digits (tail cursor), skip_digits (tail cursor)))
    else some ([], cursor)

-- `if (exponent < 1000) exponent = exponent * 10 + digit` for each digit.
unfoldable pub accumulate : ℕ → Bytes → ℕ
accumulate exponent [] = exponent
accumulate exponent (c ∷ digits) =
    accumulate (if ltb exponent 1000 then exponent * 10 + (c - 48) else exponent) digits

unfoldable pub after_sign : Bytes → Bytes
after_sign cursor = if (head cursor == b'-') || (head cursor == b'+') then tail cursor else cursor

unfoldable pub read_exponent : Bytes → Option (Bool × ℕ × Bytes)
read_exponent cursor =
    let digits = after_sign (tail cursor) in
    if (head cursor == b'e') || (head cursor == b'E')
    then (if not (is_digit (head digits))
        then none
        else some
            (head (tail cursor) == b'-', accumulate 0 (leading_digits digits), skip_digits digits))
    else some (false, 0, cursor)

unfoldable pub read_lexeme : Bytes → Option Lexeme
read_lexeme text =
    let negative = head text == b'-' in
    do
      (integer, after_integer) ← read_integer (if negative then tail text else text)
      (fraction, after_fraction) ← read_fraction after_integer
      (exponent_negative, exponent, end) ← read_exponent after_fraction
      guard (length end == 0)
      some (record {
        negative = negative;
        integer = integer;
        fraction = fraction;
        exponent_negative = exponent_negative;
        exponent = exponent;
      })

-- The variable `scale` is `exponent - fraction_digits`, with the exponent's sign: how far it lies
-- above zero, and how far below.
abbrev pub surplus : Lexeme → ℕ
surplus l = if l.exponent_negative then 0 else l.exponent - length l.fraction

abbrev pub deficit : Lexeme → ℕ
deficit l =
    if l.exponent_negative then l.exponent + length l.fraction else length l.fraction - l.exponent

-- `while (… digits[first_digit] == '0') first_digit++`
unfoldable pub drop_zeros : Bytes → Bytes
drop_zeros [] = []
drop_zeros (c ∷ digits) = let later = drop_zeros digits in if c == b'0' then later else c ∷ digits

-- The loop that takes zeros off the end while `scale` is negative: `significant_length`, and how far
-- `scale` still lies below zero.
unfoldable pub trim : Bytes → ℕ → ℕ → ℕ × ℕ
trim digits zero below = (zero, below)
trim digits (suc n) zero = (suc n, zero)
trim digits (suc n) (suc below) =
    let later = trim digits n below in
    if get_or digits n 0 == b'0' then later else (suc n, suc below)

-- `magnitude = magnitude * 10 + digit`, in 64 bits.
unfoldable pub read_magnitude : ℕ → Bytes → ℕ
read_magnitude magnitude [] = magnitude
read_magnitude magnitude (c ∷ digits) = read_magnitude ((magnitude * 10 + (c - 48)) % 2 ^ 64) digits

unfoldable pub times_ten : ℕ → ℕ → ℕ
times_ten zero magnitude = magnitude
times_ten (suc n) magnitude = times_ten n ((magnitude * 10) % 2 ^ 64)

abbrev pub limit : Bool → ℕ
limit negative = if negative then 9223372036854775808 else 9223372036854775807

-- `negative ? -(int64_t)magnitude : (int64_t)magnitude`
unfoldable pub signed : Bool → ℕ → ℤ
signed false magnitude = pos magnitude
signed true zero = pos 0
signed true (suc m) = negsuc m

unfoldable pub scaled : Bool → ℕ → Bytes → ℕ → ℕ → Option ℤ
scaled negative above digits significant below =
    let magnitude = times_ten above (read_magnitude 0 (take significant digits)) in
    if significant == 0
    then some (pos 0)
    else if ltb 0 below
    then none
    else if ltb 19 above || ltb 19 (significant + above)
    then none
    else if ltb (limit negative) magnitude
    then none
    else some (signed negative magnitude)

-- The second part of the function.
unfoldable pub convert : Lexeme → Option ℤ
convert l =
    let digits = drop_zeros (l.integer ++ l.fraction) in
    let (significant, below) = trim digits (length digits) (deficit l) in
    scaled l.negative (surplus l) digits significant below

-- Allocation succeeds.
unfoldable pub decimal_to_int64 : Bytes → Option ℤ
decimal_to_int64 text = read_lexeme text >>= convert

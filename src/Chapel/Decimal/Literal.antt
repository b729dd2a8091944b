-- ===== src/Chapel/Decimal/Literal.antt =====
-- The numbers of JSON, as they are written.
use the_convex_100_language.Common.{
  ℕ, ◌<◌, ◌≡◌, ◌⊎◌, Bool, true, false, ◌||◌, [], ◌∷◌, ◌++◌, length, ◌==◌, if◌then◌else◌, Bytes, All,
}
use the_convex_100_language.Chapel.Chars.{head, IsDigit, NoDigit}
use the_convex_100_language.Chapel.Decimal.Digits.{number}

pub data Sign : Type 0 where
  plain plus minus : Sign

-- The exponent, with its sign and digits; `capital` for the letter E.
pub data Exponent : Type 0 where
  no_exponent : Exponent
  exponent : Bool → Sign → Bytes → Exponent

-- An empty `fraction` is one that is not written.
pub record Literal : Type 0 where
  pub negative : Bool
  pub integer : Bytes
  pub fraction : Bytes
  pub power : Exponent

abbrev pub minus_sign : Bool → Bytes
minus_sign true = b'-' ∷ []
minus_sign false = []

abbrev pub print_fraction : Bytes → Bytes
print_fraction [] = []
print_fraction (c ∷ digits) = b'.' ∷ c ∷ digits

abbrev pub print_sign : Sign → Bytes
print_sign plain = []
print_sign plus = b'+' ∷ []
print_sign minus = b'-' ∷ []

abbrev pub exponent_letter : Bool → ℕ
exponent_letter true = b'E'
exponent_letter false = b'e'

abbrev pub print_exponent : Exponent → Bytes
print_exponent no_exponent = []
print_exponent (exponent capital sign digits) =
    exponent_letter capital ∷ (print_sign sign ++ digits)

abbrev pub print_literal : Literal → Bytes
print_literal l =
    minus_sign l.negative ++ (l.integer ++ (print_fraction l.fraction ++ print_exponent l.power))

-- One digit at least; a zero at the front stands alone.
abbrev pub IsInteger : Bytes → Type 0
IsInteger ds = (0 < length ds) × All IsDigit ds × ((ds ≡ b'0' ∷ []) ⊎ ((head ds == b'0') ≡ false))

abbrev pub IsExponent : Exponent → Type 0
IsExponent no_exponent = Unit
IsExponent (exponent capital sign digits) = (0 < length digits) × All IsDigit digits

pub record IsLiteral (l : Literal) : Type 0 where
  pub integer_ok : IsInteger l.integer
  pub fraction_ok : All IsDigit l.fraction
  pub exponent_ok : IsExponent l.power

-- The exponent: its size, and whether it is below zero.
abbrev pub size : Exponent → ℕ
size no_exponent = 0
size (exponent capital sign digits) = number digits

abbrev pub is_lowered : Exponent → Bool
is_lowered (exponent capital minus digits) = true
is_lowered _ = false

-- The power of ten that the number is multiplied with, and the one that it is divided by.
abbrev pub raise : Exponent → ℕ
raise e = if is_lowered e then 0 else size e

abbrev pub lower : Exponent → ℕ
lower e = if is_lowered e then size e else 0

-- The text after a number: it does not go on with a character that could belong to the number.
abbrev pub Ends : Bytes → Type 0
Ends rest =
    NoDigit rest
    × ((head rest == b'.') ≡ false)
    × ((head rest == b'e') || (head rest == b'E') ≡ false)

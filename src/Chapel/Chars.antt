-- ===== src/Chapel/Chars.antt =====
-- The characters that the scanners tell apart. A cursor into a C string is the list of the bytes
-- from it on, without the final NUL; `*cursor` is `head`.
use the_convex_100_language.Common.{
  ℕ, ◌≤◌, ◌≡◌, refl, Bool, true, false, ◌&&◌, ◌||◌, [], ◌∷◌, ◌++◌, length, All, leb, ◌==◌,
  if◌then◌else◌, Bytes, arith,
}

unfoldable pub head : Bytes → ℕ
head [] = 0
head (c ∷ rest) = c

unfoldable pub tail : Bytes → Bytes
tail [] = []
tail (c ∷ rest) = rest

-- `byte >= '0' && byte <= '9'`
abbrev pub is_digit : ℕ → Bool
is_digit c = leb b'0' c && leb c b'9'

-- `while (*cursor >= '0' && *cursor <= '9') cursor++`: what the loop goes over, and where it stops.
unfoldable pub leading_digits : Bytes → Bytes
leading_digits [] = []
leading_digits (c ∷ rest) = let later = leading_digits rest in if is_digit c then c ∷ later else []

unfoldable pub skip_digits : Bytes → Bytes
skip_digits [] = []
skip_digits (c ∷ rest) = let later = skip_digits rest in if is_digit c then later else c ∷ rest

abbrev pub is_space : ℕ → Bool
is_space c = (c == b' ') || (c == 9) || (c == 13) || (c == 10)

unfoldable pub skip_space : Bytes → Bytes
skip_space [] = []
skip_space (c ∷ rest) = let later = skip_space rest in if is_space c then later else c ∷ rest

unfoldable pub hex_digit : ℕ → Bool
hex_digit c = is_digit c || (leb b'a' c && leb c b'f') || (leb b'A' c && leb c b'F')

abbrev pub IsDigit : ℕ → Type 0
IsDigit c = is_digit c ≡ true

-- The text does not go on with a digit.
abbrev pub NoDigit : Bytes → Type 0
NoDigit rest = is_digit (head rest) ≡ false

pub leading_digits-append :
    (ds rest : Bytes) → All IsDigit ds → NoDigit rest → leading_digits (ds ++ rest) ≡ ds
unfolding leading_digits head
leading_digits-append [] [] h n = refl
leading_digits-append [] (c ∷ rest) h n = ground arith
leading_digits-append (d ∷ ds) rest h n = rw (h.0, leading_digits-append ds rest h.1 n) refl

pub skip_digits-append :
    (ds rest : Bytes) → All IsDigit ds → NoDigit rest → skip_digits (ds ++ rest) ≡ rest
unfolding skip_digits head
skip_digits-append [] [] h n = refl
skip_digits-append [] (c ∷ rest) h n = ground arith
skip_digits-append (d ∷ ds) rest h n = rw (h.0, skip_digits-append ds rest h.1 n) refl

pub length-skip_space : (s : Bytes) → length (skip_space s) ≤ length s
unfolding skip_space
length-skip_space [] = omega arith
length-skip_space (c ∷ s) = ground (arith, length-skip_space s)

pub length-skip_digits : (s : Bytes) → length (skip_digits s) ≤ length s
unfolding skip_digits
length-skip_digits [] = omega arith
length-skip_digits (c ∷ s) = ground (arith, length-skip_digits s)

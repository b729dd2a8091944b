-- ===== src/Chapel/Decimal/Digits.antt =====
-- The number that a string of decimal digits stands for, and powers of ten.
use the_convex_100_language.Common.{
  ℕ, zero, suc, ◌+◌, ◌-◌, ◌*◌, ◌^◌, ◌≤◌, ◌<◌, ◌≡◌, ap, [], ◌∷◌, ◌++◌, length, length-append,
  length-take, get_or, take, Bytes, All, arith,
}
use native.Mathlib.Nat.{pow-succ'}
use the_convex_100_language.Chapel.Chars.{IsDigit}

abbrev pub number : Bytes → ℕ
number [] = 0
number (c ∷ digits) = (c - 48) * 10 ^ length digits + number digits

pub power_pos : (n : ℕ) → 0 < 10 ^ n
power_pos zero = omega arith
power_pos (suc n) = omega (arith, power_pos n)

pub power_add : (a b : ℕ) → 10 ^ (a + b) ≡ 10 ^ a * 10 ^ b
power_add zero b = let e : 0 + b ≡ b = omega arith in rw e (omega arith)
power_add (suc a) b =
    let e : suc a + b ≡ suc (a + b) = omega arith in
    rw (e, pow-succ' 10 (a + b), pow-succ' 10 a, power_add a b) (omega arith)

pub power_mono : (a b : ℕ) → a ≤ b → 10 ^ a ≤ 10 ^ b
power_mono zero b h = omega (arith, power_pos b)
power_mono (suc a) zero h = absurd (omega arith)
power_mono (suc a) (suc b) h = omega (arith, power_mono a b (omega arith))

pub number-append : (xs ys : Bytes) → number (xs ++ ys) ≡ number xs * 10 ^ length ys + number ys
number-append [] ys = omega arith
number-append (c ∷ xs) ys =
    grind (arith, number-append xs ys, power_add (length xs) (length ys), length-append xs ys)

pub number_lt : (ds : Bytes) → All IsDigit ds → number ds < 10 ^ length ds
number_lt [] h = omega arith
number_lt (c ∷ ds) (h, hs) = let small : c - 48 ≤ 9 = ground arith in grind (arith, number_lt ds hs)

-- One digit more.
pub number-take-suc :
    (n : ℕ) (ds : Bytes)
    → n < length ds
    → number (take (suc n) ds) ≡ number (take n ds) * 10 + (get_or ds n 0 - 48)
number-take-suc n [] h = absurd (omega arith)
number-take-suc zero (c ∷ ds) h = omega arith
number-take-suc (suc n) (c ∷ ds) h =
    let more : length (take (suc n) ds) ≡ suc (length (take n ds)) =
      omega (arith, length-take (suc n) ds, length-take n ds) in
    let power = ap (λ k. 10 ^ k) more in
    let later = number-take-suc n ds (omega arith) in
    rw (power, later, pow-succ' 10 (length (take n ds))) (omega arith)

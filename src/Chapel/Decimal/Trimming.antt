-- ===== src/Chapel/Decimal/Trimming.antt =====
-- The zeros that `decimal_to_int64` takes off both ends of the digits.
use the_convex_100_language.Common.{
  ℕ, zero, suc, ◌-◌, ◌*◌, ◌^◌, ◌≤◌, ◌<◌, ◌≡◌, ◌⊎◌, inl, inr, refl, false, [], ◌∷◌, length,
  length-take, get_or, take, ◌==◌, Bytes, All, arith, Bool-cases,
}
use native.Mathlib.Nat.{pow-succ'}
use the_convex_100_language.Chapel.Chars.{IsDigit}
use the_convex_100_language.Chapel.Decimal.{drop_zeros, trim}
use the_convex_100_language.Chapel.Decimal.Digits.{number, number-take-suc}

pub number-drop_zeros : (ds : Bytes) → number (drop_zeros ds) ≡ number ds
unfolding drop_zeros
number-drop_zeros [] = refl
number-drop_zeros (c ∷ ds) = elim (Bool-cases (c == b'0')) [
  | inl z ↦
      let none' : c - 48 ≡ 0 = ground arith in rw (z, none') (omega (arith, number-drop_zeros ds))
  | inr n ↦ rw n refl
]

pub drop_zeros-All : (ds : Bytes) → All IsDigit ds → All IsDigit (drop_zeros ds)
unfolding drop_zeros
drop_zeros-All [] h = tt
drop_zeros-All (c ∷ ds) h = elim (Bool-cases (c == b'0')) [
  | inl z ↦ rw z (drop_zeros-All ds h.1)
  | inr n ↦ rw n h
]

-- There are no digits, or the first one is not zero.
abbrev pub Leading : Bytes → Type 0
Leading [] = Unit
Leading (c ∷ ds) = 49 ≤ c

pub drop_zeros-Leading : (ds : Bytes) → All IsDigit ds → Leading (drop_zeros ds)
unfolding drop_zeros
drop_zeros-Leading [] h = tt
drop_zeros-Leading (c ∷ ds) h = elim (Bool-cases (c == b'0')) [
  | inl z ↦ rw z (drop_zeros-Leading ds h.1)
  | inr n ↦ let d = h.0 in rw n (ground arith)
]

pub Leading-take :
    (n : ℕ) (ds : Bytes) → Leading ds → n < length ds → 10 ^ n ≤ number (take (suc n) ds)
Leading-take n [] h l = absurd (omega arith)
Leading-take n (c ∷ ds) h l =
    let whole : length (take n ds) ≡ n = omega (arith, length-take n ds) in
    let one : 1 ≤ c - 48 = omega (arith, h) in rw whole (grind (arith, one))

-- Why the loop at the end stopped.
abbrev pub Stopped : Bytes → ℕ → ℕ → Type 0
Stopped digits significant below =
    (below ≡ 0)
    ⊎ (significant ≡ 0)
    ⊎ ((last : ℕ) × (significant ≡ suc last) × ((get_or digits last 0 == b'0') ≡ false))

abbrev pub Trims : Bytes → ℕ → ℕ → ℕ × ℕ → Type 0
Trims digits n below r =
    (r.0 ≤ n)
    × (r.1 ≤ below)
    × (number (take n digits) * 10 ^ r.1 ≡ number (take r.0 digits) * 10 ^ below)
    × Stopped digits r.0 r.1

-- A zero less, and one power of ten.
Trims-step :
    (ds : Bytes) (n below : ℕ) (r : ℕ × ℕ)
    → suc n ≤ length ds
    → get_or ds n 0 - 48 ≡ 0
    → Trims ds n below r
    → Trims ds (suc n) (suc below) r
Trims-step ds n below (m, b) h z (fewer, nearer, same, stops) =
    let product : number (take (suc n) ds) * 10 ^ b ≡ number (take m ds) * 10 ^ suc below =
      rw (number-take-suc n ds h, z, pow-succ' 10 below) (omega (arith, same)) in
    (omega (arith, fewer), omega (arith, nearer), product, stops)

-- Each zero that goes is made up for by one power of ten.
pub trim-Trims : (ds : Bytes) (n below : ℕ) → n ≤ length ds → Trims ds n below (trim ds n below)
unfolding trim
trim-Trims ds zero below h = (omega arith, omega arith, refl, inr (inl refl))
trim-Trims ds (suc n) zero h = (omega arith, omega arith, refl, inl refl)
trim-Trims ds (suc n) (suc below) h = elim (Bool-cases (get_or ds n 0 == b'0')) [
  | inl z ↦
      let zero' : get_or ds n 0 - 48 ≡ 0 = ground arith in
      rw (z, trim)
        (Trims-step ds n below (trim ds n below) h zero' (trim-Trims ds n below (omega arith)))
  | inr other ↦ rw (other, trim) (omega arith, omega arith, refl, inr (inr (n, refl, other)))
]

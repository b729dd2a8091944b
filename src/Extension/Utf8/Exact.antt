-- ===== src/Extension/Utf8/Exact.antt =====
-- `do_utf8_valid` on encodings of scalar values.
use the_convex_100_language.Common.{
  ℕ, zero, suc, ◌+◌, ◌-◌, ◌*◌, ◌/◌, ◌%◌, ◌≤◌, ◌<◌, ◌≡◌, ◌↔◌, inl, inr, refl, subst, true, some,
  List, [], ◌∷◌, ◌++◌, length, length-append, drop, All, ltb, Bytes, arith, Option-cases,
  Bool-cases,
}
use the_convex_100_language.Extension.Bits.{IsByte}
use the_convex_100_language.Extension.Utf8.{
  join_continuations, utf8_step, utf8_rounds, do_utf8_valid, IsScalar, encode, encode_all,
}
use the_convex_100_language.Extension.Utf8.Sound.{do_utf8_valid_sound}

step_one : (c : ℕ) (rest : Bytes) → c < 128 → utf8_step c rest ≡ some 0
unfolding utf8_step
step_one c rest h = ground arith

step_two :
    (c : ℕ) (rest : Bytes)
    → 128 ≤ c
    → c < 2048
    → utf8_step (192 + c / 64) ((128 + c % 64) ∷ rest) ≡ some 1
unfolding utf8_step join_continuations
step_two c rest l h =
    let code : (192 + c / 64) % 32 * 64 + (128 + c % 64) % 64 ≡ c = omega arith in
    let tail : (128 + c % 64) / 64 % 4 ≡ 2 = omega arith in ground arith

step_three :
    (c : ℕ) (rest : Bytes)
    → 2048 ≤ c
    → c < 65536
    → IsScalar c
    → utf8_step (224 + c / 4096) ((128 + c / 64 % 64) ∷ (128 + c % 64) ∷ rest) ≡ some 2
unfolding utf8_step join_continuations
step_three c rest l h scalar =
    let code : ((224 + c / 4096) % 16 * 64 + (128 + c / 64 % 64) % 64) * 64 + (128 + c % 64) % 64
        ≡ c =
      omega arith in
    let t1 : (128 + c / 64 % 64) / 64 % 4 ≡ 2 = omega arith in
    let t2 : (128 + c % 64) / 64 % 4 ≡ 2 = omega arith in ground arith

step_four :
    (c : ℕ) (rest : Bytes)
    → 65536 ≤ c
    → c < 1114112
    → utf8_step
        (240 + c / 262144)
        ((128 + c / 4096 % 64) ∷ (128 + c / 64 % 64) ∷ (128 + c % 64) ∷ rest)
      ≡ some 3
unfolding utf8_step join_continuations
step_four c rest l h =
    let code : (((240 + c / 262144) % 8 * 64 + (128 + c / 4096 % 64) % 64) * 64
              + (128 + c / 64 % 64) % 64)
            * 64
          + (128 + c % 64) % 64
        ≡ c =
      omega arith in
    let t1 : (128 + c / 4096 % 64) / 64 % 4 ≡ 2 = omega arith in
    let t2 : (128 + c / 64 % 64) / 64 % 4 ≡ 2 = omega arith in
    let t3 : (128 + c % 64) / 64 % 4 ≡ 2 = omega arith in ground arith

-- The passes over an encoding.
accept_one :
    (n c : ℕ) (rest : Bytes)
    → IsScalar c
    → utf8_rounds n rest ≡ true
    → utf8_rounds (suc n) (encode c ++ rest) ≡ true
unfolding utf8_rounds
accept_one n c rest scalar go = elim (Bool-cases (ltb c 128)) [
  | inl one ↦ rw one (rw (step_one c rest (ground arith), utf8_rounds) go)
  | inr n1 ↦ elim (Bool-cases (ltb c 2048)) [
    | inl two ↦ rw (n1, two) (rw (step_two c rest (ground arith) (ground arith), utf8_rounds) go)
    | inr n2 ↦ elim (Bool-cases (ltb c 65536)) [
      | inl three ↦
          rw (n1, n2, three)
            (rw (step_three c rest (ground arith) (ground arith) scalar, utf8_rounds) go)
      | inr n3 ↦
          rw (n1, n2, n3) (rw (step_four c rest (ground arith) (ground arith), utf8_rounds) go)
    ]
  ]
]

-- More passes than there are bytes change nothing.
utf8_rounds_more : (n : ℕ) (bs : Bytes) → utf8_rounds n bs ≡ true → utf8_rounds (suc n) bs ≡ true
unfolding utf8_rounds
utf8_rounds_more n [] e = refl
utf8_rounds_more zero (b ∷ bs) e = absurd (ground arith)
utf8_rounds_more (suc n) (b ∷ bs) e = elim (Option-cases (utf8_step b bs)) [
  | inl bad ↦ absurd (ground arith)
  | inr (extra, s) ↦ rw (s, utf8_rounds) (utf8_rounds_more n (drop extra bs) (ground arith))
]

utf8_rounds_many : (k n : ℕ) (bs : Bytes) → utf8_rounds n bs ≡ true → utf8_rounds (k + n) bs ≡ true
utf8_rounds_many zero n bs e = let none' : 0 + n ≡ n = omega arith in rw none' e
utf8_rounds_many (suc k) n bs e =
    let more' : suc k + n ≡ suc (k + n) = omega arith in
    rw more' (utf8_rounds_more (k + n) bs (utf8_rounds_many k n bs e))

accept-All : (cs : List ℕ) → All IsScalar cs → utf8_rounds (length cs) (encode_all cs) ≡ true
unfolding utf8_rounds
accept-All [] h = refl
accept-All (c ∷ cs) h = accept_one (length cs) c (encode_all cs) h.0 (accept-All cs h.1)

pub length-encode_all : (cs : List ℕ) → length cs ≤ length (encode_all cs)
length-encode_all [] = omega arith
length-encode_all (c ∷ cs) =
    ground (arith, length-encode_all cs, length-append (encode c) (encode_all cs))

-- `convex_utf8_valid` accepts exactly the byte strings that are the UTF-8 encoding of a sequence of
-- Unicode scalar values: no overlong form, no surrogate, nothing beyond U+10FFFF, nothing cut off.
pub do_utf8_valid_iff :
    (bs : Bytes)
    → All IsByte bs
    → (do_utf8_valid bs ≡ true) ↔ ((cs : List ℕ) × All IsScalar cs × (encode_all cs ≡ bs))
unfolding do_utf8_valid
do_utf8_valid_iff bs bytes =
    (λ e. do_utf8_valid_sound bs bytes e, λ (cs, scalars, e). accepts cs scalars e)
  where
    accepts :
        (cs : List ℕ) → All IsScalar cs → encode_all cs ≡ bs → utf8_rounds (length bs) bs ≡ true
    accepts cs scalars e =
        let longer = length-encode_all cs in
        let many =
          utf8_rounds_many (length (encode_all cs) - length cs) (length cs) (encode_all cs)
            (accept-All cs scalars) in
        let n : length (encode_all cs) - length cs + length cs ≡ length (encode_all cs) =
          omega arith in
        subst (λ b. utf8_rounds (length b) b ≡ true) e
          (subst (λ k. utf8_rounds k (encode_all cs) ≡ true) n many)

-- ===== src/Chapel/Utf8/Same.antt =====
-- `valid_utf8` against `do_utf8_valid` of the Awk extension.
use the_convex_100_language.Common.{
  ℕ, zero, suc, ◌+◌, ◌*◌, ◌%◌, ◌≡◌, ◌↔◌, refl, sym, ◌∙◌, true, some, List, [], ◌∷◌, length, drop,
  Bytes, All, arith, Option-cases, inl, inr,
}
use the_convex_100_language.Extension.Bits.{IsByte}
use the_convex_100_language.Extension.Utf8.{
  join_continuations, check_sequence, utf8_step, utf8_rounds, do_utf8_valid, IsScalar, encode_all,
}
use the_convex_100_language.Extension.Utf8.Exact.{do_utf8_valid_iff}
use the_convex_100_language.Chapel.Utf8.{
  lead_of, continue_bytes, after_lead, pass, passes, valid_utf8,
}

continue_bytes-join : (n c : ℕ) (bs : Bytes) → continue_bytes n c bs ≡ join_continuations n c bs
unfolding continue_bytes join_continuations
continue_bytes-join zero c bs = refl
continue_bytes-join (suc n) c [] = refl
continue_bytes-join (suc n) c (b ∷ bs) = ground (arith, continue_bytes-join n (c * 64 + b % 64) bs)

sequence_one :
    (first : ℕ) (rest : Bytes)
    → after_lead (some (1, first % 32)) rest ≡ check_sequence 1 (first % 32) rest
unfolding continue_bytes join_continuations
sequence_one first [] = refl
sequence_one first (b ∷ rest) = ground arith

sequence_two :
    (first : ℕ) (rest : Bytes)
    → after_lead (some (2, first % 16)) rest ≡ check_sequence 2 (first % 16) rest
unfolding continue_bytes join_continuations
sequence_two first [] = refl
sequence_two first (b ∷ []) = refl
sequence_two first (b ∷ d ∷ rest) = ground arith

sequence_three :
    (first : ℕ) (rest : Bytes)
    → after_lead (some (3, first % 8)) rest ≡ check_sequence 3 (first % 8) rest
unfolding continue_bytes join_continuations
sequence_three first [] = refl
sequence_three first (b ∷ []) = refl
sequence_three first (b ∷ d ∷ []) = refl
sequence_three first (b ∷ d ∷ f ∷ rest) = ground arith

pass-same : (first : ℕ) (rest : Bytes) → pass first rest ≡ utf8_step first rest
unfolding pass utf8_step lead_of
pass-same first rest =
    ground (arith, sequence_one first rest, sequence_two first rest, sequence_three first rest)

passes-same : (n : ℕ) (bs : Bytes) → passes n bs ≡ utf8_rounds n bs
unfolding passes utf8_rounds
passes-same n [] = refl
passes-same zero (first ∷ rest) = refl
passes-same (suc n) (first ∷ rest) = elim (Option-cases (utf8_step first rest)) [
  | inl e ↦ let p = pass-same first rest ∙ e in rw (p, passes, e, utf8_rounds) refl
  | inr (k, e) ↦
      let p = pass-same first rest ∙ e in
      rw (p, passes, e, utf8_rounds) (passes-same n (drop k rest))
]

valid_utf8-same : (bs : Bytes) → valid_utf8 bs ≡ do_utf8_valid bs
unfolding valid_utf8 do_utf8_valid
valid_utf8-same bs = passes-same (length bs) bs

-- `valid_utf8` of the Chapel client decides as the Awk extension's `convex_utf8_valid` does, and
-- accepts exactly the byte strings that encode a sequence of Unicode scalar values.
pub valid_utf8_iff :
    (bs : Bytes)
    → All IsByte bs
    → (valid_utf8 bs ≡ do_utf8_valid bs)
      × ((valid_utf8 bs ≡ true) ↔ ((cs : List ℕ) × All IsScalar cs × (encode_all cs ≡ bs)))
valid_utf8_iff bs bytes =
    let same = valid_utf8-same bs in
    let iff = do_utf8_valid_iff bs bytes in
    (same, (λ e. iff.0 (sym same ∙ e), λ cs. same ∙ iff.1 cs))

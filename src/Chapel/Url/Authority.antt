-- ===== src/Chapel/Url/Authority.antt =====
-- The authority of an address and the slashes behind it.
use the_convex_100_language.Common.{
  ℕ, zero, suc, ◌+◌, ◌-◌, ◌≤◌, ◌<◌, ◌≡◌, ◌≢◌, refl, sym, ap, ◌∙◌, true, false, ◌||◌, [], ◌∷◌, ◌++◌,
  append-nil, append_assoc, length, length-append, length-replicate, take, drop, get_or-length,
  Bytes, All, arith, Bool-cases, inl, inr,
}
use the_convex_100_language.Client.Http.{ends_in_slash, strip_rounds, strip_slashes}
use the_convex_100_language.Client.Http.Url.{slashes}
use the_convex_100_language.Chapel.Url.{is_end, authority_of, contains, only_slashes}

-- A character that an authority may have.
abbrev pub IsPlain : ℕ → Type 0
IsPlain c = (is_end c ≡ false) × (c ≢ b'@')

-- An authority of plain characters, at least one, with slashes behind it.
abbrev pub Authority : Bytes → Bytes → ℕ → Type 0
Authority rest a n = (rest ≡ a ++ slashes n) × (0 < length a) × All IsPlain a

slashes_more : (n : ℕ) → slashes (suc n) ≡ slashes n ++ slashes 1
slashes_more zero = refl
slashes_more (suc n) = ap (◌∷◌ b'/') (slashes_more n)

take-length_append : (xs ys : Bytes) → take (length xs) (xs ++ ys) ≡ xs
take-length_append [] ys = refl
take-length_append (x ∷ xs) ys = ap (◌∷◌ x) (take-length_append xs ys)

ends_plain : (a : Bytes) → All IsPlain a → ends_in_slash a ≡ false
ends_plain [] h = refl
ends_plain (c ∷ []) h = let plain = h.0.0 in ground arith
ends_plain (c ∷ d ∷ a) h = let ih = ends_plain (d ∷ a) h.1 in ground arith

strip_rounds-slashes :
    (n k : ℕ) (a : Bytes) → n ≤ k → ends_in_slash a ≡ false → strip_rounds k (a ++ slashes n) ≡ a
unfolding strip_rounds
strip_rounds-slashes zero zero a h e = append-nil a
strip_rounds-slashes zero (suc k) a h e = rw (append-nil a, e) refl
strip_rounds-slashes (suc n) zero a h e = absurd (omega arith)
strip_rounds-slashes (suc n) (suc k) a h e =
    let xs = a ++ slashes n in
    let more : a ++ slashes (suc n) ≡ xs ++ slashes 1 =
      ap (λ b. a ++ b) (slashes_more n) ∙ sym (append_assoc a (slashes n) (slashes 1)) in
    let len : length (xs ++ slashes 1) ≡ length xs + 1 = length-append xs (slashes 1) in
    let len' : length (xs ++ slashes 1) - 1 ≡ length xs = omega (arith, len) in
    let ends : ends_in_slash (xs ++ slashes 1) ≡ true =
      let last = get_or-length xs b'/' 0 in rw (len', last) (ground arith) in
    rw (more, ends, len', take-length_append xs (slashes 1))
      (strip_rounds-slashes n k a (omega arith) e)

pub strip_slashes-Authority : (rest a : Bytes) (n : ℕ) → Authority rest a n → strip_slashes rest ≡ a
unfolding strip_slashes
strip_slashes-Authority rest a n (e, some', plain) =
    let enough : n ≤ length (a ++ slashes n) =
      omega (arith, length-append a (slashes n), length-replicate {A = ℕ} n b'/') in
    rw e (strip_rounds-slashes n (length (a ++ slashes n)) a enough (ends_plain a plain))

pub authority_of-append : (a : Bytes) (n : ℕ) → All IsPlain a → authority_of (a ++ slashes n) ≡ a
unfolding authority_of
authority_of-append [] zero h = refl
authority_of-append [] (suc n) h = refl
authority_of-append (c ∷ a) n h = rw h.0.0 (ap (◌∷◌ c) (authority_of-append a n h.1))

pub contains-append : (c : ℕ) (a b : Bytes) → contains c (a ++ b) ≡ contains c a || contains c b
unfolding contains
contains-append c [] b = refl
contains-append c (x ∷ a) b = let ih = contains-append c a b in ground arith

pub contains-slashes : (c n : ℕ) → c ≢ b'/' → contains c (slashes n) ≡ false
unfolding contains
contains-slashes c zero h = refl
contains-slashes c (suc n) h = let ih = contains-slashes c n h in ground arith

pub contains-plain :
    (a : Bytes)
    → All IsPlain a
    → (contains b'@' a ≡ false) × (contains b'?' a ≡ false) × (contains b'#' a ≡ false)
unfolding contains
contains-plain [] h = (refl, refl, refl)
contains-plain (c ∷ a) h =
    let (x, y, z) = contains-plain a h.1 in
    let plain = h.0.0 in let no_at = h.0.1 in (ground arith, ground arith, ground arith)

pub only_slashes-slashes : (n : ℕ) → only_slashes (slashes n) ≡ true
unfolding only_slashes
only_slashes-slashes zero = refl
only_slashes-slashes (suc n) = only_slashes-slashes n

pub slashes-only : (s : Bytes) → only_slashes s ≡ true → s ≡ slashes (length s)
unfolding only_slashes
slashes-only [] h = refl
slashes-only (c ∷ s) h =
    let first : c ≡ b'/' = ground arith in
    let others : only_slashes s ≡ true = ground arith in
    rw first (ap (◌∷◌ b'/') (slashes-only s others))

pub split_authority :
    (rest : Bytes) → authority_of rest ++ drop (length (authority_of rest)) rest ≡ rest
unfolding authority_of
split_authority [] = refl
split_authority (c ∷ rest) = elim (Bool-cases (is_end c)) [
  | inl e ↦ rw e refl
  | inr e ↦ rw e (ap (◌∷◌ c) (split_authority rest))
]

pub authority_of-IsPlain :
    (rest : Bytes) → contains b'@' (authority_of rest) ≡ false → All IsPlain (authority_of rest)
unfolding authority_of contains
authority_of-IsPlain [] h = tt
authority_of-IsPlain (c ∷ rest) h = elim (Bool-cases (is_end c)) [
  | inl e ↦ rw e tt
  | inr e ↦
      let rest_free : contains b'@' (authority_of rest) ≡ false = ground arith in
      let no_at : c ≢ b'@' = ground arith in rw e ((e, no_at), authority_of-IsPlain rest rest_free)
]

-- ===== src/Chapel/Command/Keys.antt =====
-- Lists of field names: where as many names are asked for as there are, no other is there.
use the_convex_100_language.Common.{
  suc, ◌≡◌, ◌⊎◌, inl, inr, refl, sym, ap, subst, Bool, true, false, not, ◌&&◌, ◌||◌, List, [], ◌∷◌,
  length, if◌then◌else◌, Bytes, same, same_iff, same_refl, arith, Bool-cases,
}

abbrev pub has : List Bytes → Bytes → Bool
has [] k = false
has (n ∷ names) k = same n k || has names k

abbrev pub distinct : List Bytes → Bool
distinct [] = true
distinct (n ∷ names) = not (has names n) && distinct names

-- The list without the first occurrence of a name.
abbrev remove : Bytes → List Bytes → List Bytes
remove f [] = []
remove f (n ∷ names) = if same n f then names else n ∷ remove f names

length-remove :
    (f : Bytes) (names : List Bytes)
    → has names f ≡ true
    → length names ≡ suc (length (remove f names))
length-remove f [] h = absurd (ground arith)
length-remove f (n ∷ names) h = elim (Bool-cases (same n f)) [
  | inl e ↦ rw e refl
  | inr e ↦ rw e (ap suc (length-remove f names (ground arith)))
]

has-remove :
    (f g : Bytes) (names : List Bytes)
    → has names g ≡ true
    → same f g ≡ false
    → has (remove f names) g ≡ true
has-remove f g [] h d = absurd (ground arith)
has-remove f g (n ∷ names) h d = elim (Bool-cases (same n f)) [
  | inl e ↦ let other : same n g ≡ false = rw ((same_iff n f).0 e) d in rw e (ground arith)
  | inr e ↦ elim (Bool-cases (same n g)) [
    | inl here ↦ rw (e, here) refl
    | inr there ↦ rw (e, there) (has-remove f g names (ground arith) d)
  ]
]

has-split :
    (f g : Bytes) (names : List Bytes)
    → has names g ≡ true
    → (same f g ≡ true) ⊎ (has (remove f names) g ≡ true)
has-split f g [] h = absurd (ground arith)
has-split f g (n ∷ names) h = elim (Bool-cases (same n f)) [
  | inl e ↦ elim (Bool-cases (same n g)) [
    | inl here ↦ inl (rw (sym ((same_iff n f).0 e)) here)
    | inr there ↦ inr (rw e (ground arith))
  ]
  | inr e ↦ elim (Bool-cases (same n g)) [
    | inl here ↦ inr (rw (e, here) refl)
    | inr there ↦ elim (has-split f g names (ground arith)) [
      | inl same' ↦ inl same'
      | inr rest ↦ inr (rw (e, there) rest)
    ]
  ]
]

later : (f g : Bytes) (names : List Bytes) → has names g ≡ true → has (f ∷ names) g ≡ true
later f g names h = ground arith

apart :
    (f g : Bytes) (names : List Bytes) → has names f ≡ false → has names g ≡ true → same f g ≡ false
apart f g names none' h = elim (Bool-cases (same f g)) [
  | inl e ↦ absurd (
      let e' = (same_iff f g).0 e in
      let h' = subst (λ k. has names k ≡ true) (sym e') h in ground arith)
  | inr e ↦ e
]

-- Distinct names that are all there, as many as there are in all, are the only ones.
pub no_others :
    (fields names : List Bytes)
    → distinct fields ≡ true
    → length names ≡ length fields
    → ((f : Bytes) → has fields f ≡ true → has names f ≡ true)
    → (k : Bytes) → has names k ≡ true
    → has fields k ≡ true
no_others [] [] d n all k h = h
no_others [] (m ∷ names) d n all k h = absurd (omega arith)
no_others (f ∷ fields) names d n all k h =
    let first = all f (rw (same_refl f) refl) in
    let shorter = length-remove f names first in
    let others : (g : Bytes) → has fields g ≡ true → has (remove f names) g ≡ true = λ g hg.
      has-remove f g names (all g (later f g fields hg)) (apart f g fields (ground arith) hg) in
    elim (has-split f k names h) [
      | inl e ↦ rw e refl
      | inr rest ↦
          later f k fields
            (no_others fields (remove f names) (ground arith) (omega arith) others k rest)
    ]

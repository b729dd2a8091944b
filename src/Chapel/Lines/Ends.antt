-- ===== src/Chapel/Lines/Ends.antt =====
-- The end of a line in `ct_read_line`: the carriage return and the check of the text.
use the_convex_100_language.Common.{
  ◌+◌, ◌-◌, ◌≡◌, ◌≢◌, ◌⊎◌, inl, inr, refl, ap, ◌∙◌, true, false, not, ◌&&◌, some, [], ◌∷◌, ◌++◌,
  length, length-append, take, take-length_append, get_or, ◌==◌, Bytes, arith, Bool-cases,
  split_last, get_or-length,
}
use the_convex_100_language.Chapel.Utf8.{valid_text_boundary, has_nul, valid_utf8, passes}
use the_convex_100_language.Chapel.Lines.{line, invalid, strip_return, finish_line}

-- `kept` is the text without the carriage return at its end, if it has one there.
abbrev pub Keeps : Bytes → Bytes → Type 0
Keeps kept text = (text ≡ kept ++ 13 ∷ []) ⊎ ((text ≡ kept) × ((b : Bytes) → text ≢ b ++ 13 ∷ []))

abbrev pub IsText : Bytes → Type 0
IsText b = (has_nul b ≡ false) × (valid_utf8 b ≡ true)

abbrev pub IsNoText : Bytes → Type 0
IsNoText b = (has_nul b ≡ true) ⊎ (valid_utf8 b ≡ false)

strip_return-append : (kept : Bytes) → strip_return (kept ++ 13 ∷ []) ≡ kept
unfolding strip_return
strip_return-append kept =
    let size : length (kept ++ 13 ∷ []) ≡ length kept + 1 = length-append kept (13 ∷ []) in
    let last : length (kept ++ 13 ∷ []) - 1 ≡ length kept = omega (arith, size) in
    let some' : not (length (kept ++ 13 ∷ []) == 0) ≡ true = ground (arith, size) in
    rw (some', last, get_or-length kept 13 0) (take-length_append kept (13 ∷ []))

unstripped : (t : Bytes) → ((b : Bytes) → t ≢ b ++ 13 ∷ []) → strip_return t ≡ t
unfolding strip_return
unstripped t h = elim (Bool-cases (not (length t == 0) && (get_or t (length t - 1) 0 == 13))) [
  | inl e ↦
      absurd
        (h (take (length t - 1) t) (split_last (length t - 1) t 0 13 (ground arith) (ground arith)))
  | inr e ↦ rw e refl
]

strip_return-Keeps : (kept text : Bytes) → Keeps kept text → strip_return text ≡ kept
strip_return-Keeps kept text (inl e) = ap strip_return e ∙ strip_return-append kept
strip_return-Keeps kept text (inr (e, none)) = unstripped text none ∙ e

check-text : (b : Bytes) → IsText b → valid_text_boundary (some b) (length b) true ≡ true
unfolding valid_text_boundary
check-text b (n, v) = elim (Bool-cases (length b == 0)) [
  | inl e ↦ rw e refl
  | inr e ↦ rw (e, n, v) refl
]

check-no_text : (b : Bytes) → IsNoText b → valid_text_boundary (some b) (length b) true ≡ false
unfolding valid_text_boundary has_nul valid_utf8 passes
check-no_text [] (inl e) = ground (arith, e)
check-no_text [] (inr e) = ground (arith, e)
check-no_text (c ∷ b) (inl e) = ground (arith, e)
check-no_text (c ∷ b) (inr e) = ground (arith, e)

pub finish_line-Keeps :
    (kept text : Bytes)
    → Keeps kept text
    → (IsText kept → finish_line text ≡ line kept) × (IsNoText kept → finish_line text ≡ invalid)
unfolding finish_line
finish_line-Keeps kept text h =
    let e = strip_return-Keeps kept text h in
    (λ t. rw (e, check-text kept t) refl, λ t. rw (e, check-no_text kept t) refl)

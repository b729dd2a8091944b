-- ===== src/Chapel/Lines/Writes.antt =====
-- `ct_write_line`: what has been written when it returns.
use the_convex_100_language.Common.{
  ℕ, ◌+◌, ◌-◌, ◌≤◌, ◌<◌, ◌≡◌, refl, sym, ap, ◌∙◌, Bool, true, false, not, ◌&&◌, ◌||◌, some, List,
  [], ◌∷◌, ◌++◌, length, take, take-of_le, take-add, drop, ltb, ◌==◌, if◌then◌else◌, Bytes, arith,
  Bool-cases, inl, inr,
}
use the_convex_100_language.Chapel.Utf8.{valid_text_boundary}
use the_convex_100_language.Chapel.Lines.{
  Wrote, write_retry, write_failed, wrote, Push, Written, sent, given_up, stuck, after_write,
  write_loop, Descriptor, restore_flags, ct_write_line,
}

-- How many bytes the round asks to write.
abbrev pub count_at : Bytes → ℕ → ℕ
count_at text offset = if offset == length text then 1 else length text - offset

-- A write that succeeds writes a byte at least, and no more than it is asked to.
abbrev FairRound : Bytes → ℕ → Wrote → (ℕ → Type 0) → Type 0
FairRound text offset write_retry more = more offset
FairRound text offset write_failed more = Unit
FairRound text offset (wrote n) more = (0 < n) × (n ≤ count_at text offset) × more (offset + n)

abbrev pub Fair : Bytes → ℕ → List Push → Type 0
Fair text offset [] = Unit
Fair text offset (p ∷ pushes) = FairRound text offset p.result (λ o. Fair text o pushes)

-- With the result 1 the text and a newline are written, and otherwise a part of the text from its
-- start on.
abbrev pub WroteSo : Bytes → Written → Type 0
WroteSo text (sent out) = out ≡ text ++ 10 ∷ []
WroteSo text (given_up out) = (n : ℕ) × (out ≡ take n text)
WroteSo text (stuck out) = (n : ℕ) × (out ≡ take n text)

round-WroteSo :
    (text : Bytes) (offset : ℕ) (out : Bytes) (w : Wrote) (more : ℕ → Bytes → Written)
    → (P : ℕ → Type 0) → FairRound text offset w P
    → out ≡ take offset text
    → offset ≤ length text
    → ((o : ℕ) (t : Bytes) → P o → t ≡ take o text → o ≤ length text → WroteSo text (more o t))
    → WroteSo text (after_write text offset out w more)
round-WroteSo text offset out write_retry more P f e l go = go offset out f e l
round-WroteSo text offset out write_failed more P f e l go = (offset, e)
round-WroteSo text offset out (wrote n) more P (some', few, f) e l go =
    elim (Bool-cases (offset == length text)) [
      | inl last ↦
          let one : n ≡ 1 = ground arith in
          let whole : out ≡ text = e ∙ take-of_le offset text (ground arith) in
          rw (last, one) (ap (λ b. b ++ 10 ∷ []) whole)
      | inr inner ↦
          let fits : n ≤ length text - offset = ground arith in
          let next : out ++ take n (drop offset text) ≡ take (offset + n) text =
            ap (λ b. b ++ take n (drop offset text)) e ∙ take-add offset n text in
          rw inner (go (offset + n) (out ++ take n (drop offset text)) f next (omega arith))
    ]

write_loop-WroteSo :
    (text : Bytes) (offset : ℕ) (out : Bytes) (pushes : List Push)
    → Fair text offset pushes
    → out ≡ take offset text
    → offset ≤ length text
    → WroteSo text (write_loop text offset out pushes)
unfolding write_loop
write_loop-WroteSo text offset out [] f e l = (offset, e)
write_loop-WroteSo text offset out (p ∷ pushes) f e l =
    let within : ltb (length text) offset ≡ false = ground arith in
    let round =
      round-WroteSo text offset out p.result (λ o t. write_loop text o t pushes)
        (λ o. Fair text o pushes) f e l
        (λ o t f' e' l'. write_loop-WroteSo text o t pushes f' e' l') in
    elim (Bool-cases (p.late || not p.writable)) [
      | inl over ↦ rw (within, over, write_loop) (offset, e)
      | inr on ↦ rw (within, on, write_loop) round
    ]

-- The flag is taken back.
restored :
    (d : Descriptor)
    → (let during = if restore_flags d then record d { nonblocking = true } else d in
        (if restore_flags d then record during { nonblocking = false } else during) ≡ d)
restored d = elim (Bool-cases (restore_flags d)) [
  | inl e ↦
      let n : d.nonblocking ≡ false = ground arith in
      rw e (ap (λ b. record d { nonblocking = b }) (sym n))
  | inr e ↦ rw e refl
]

-- `ct_write_line` gives 1 only when the line and one newline are written, in order and once; when it
-- gives up, a part of the line from its start on is written. The descriptor is blocking again behind
-- it, if it was before. The hypothesis is that a `write` that succeeds writes at least a byte and no
-- more than it is asked to.
pub ct_write_line_writes :
    (d : Descriptor) (text : Bytes) (terminated can_set : Bool) (pushes : List Push)
    → Fair text 0 pushes
    → (let r = ct_write_line d text terminated can_set pushes in WroteSo text r.0 × (r.1 ≡ d))
unfolding ct_write_line
ct_write_line_writes d text terminated can_set pushes f =
    let valid = valid_text_boundary (some text) (length text) terminated in
    elim (Bool-cases valid) [
      | inr e ↦ rw e ((0, refl), refl)
      | inl e ↦ elim (Bool-cases (restore_flags d && not can_set)) [
        | inl stuck' ↦ rw (e, stuck') ((0, refl), refl)
        | inr go ↦ rw (e, go) (write_loop-WroteSo text 0 [] pushes f refl (omega arith), restored d)
      ]
    ]

-- ===== src/Chapel/Lines/Reads.antt =====
-- `ct_read_line` on a line that comes byte by byte.
use the_convex_100_language.Common.{
  ℕ, ◌≤◌, ◌≡◌, refl, sym, ap, ◌∙◌, subst, Bool, true, false, some, List, [], ◌∷◌, ◌++◌,
  append_assoc, append-nil, length, ◌==◌, if◌then◌else◌, Bytes, arith,
}
use the_convex_100_language.Common.Rules.{lengths}
use the_convex_100_language.Chapel.Buffer.{Buffer, empty_buffer, append-fits}
use the_convex_100_language.Chapel.Lines.{
  Polled, poll_failed, poll_signal, poll_timeout, poll_ready, Got, at_end, retry, read_failed, byte,
  Look, Step, next, complete, take_byte, after_poll, look_step, finish_line, read_loop, Reader,
  ct_read_line, ct_interrupt_fd, failed, line, invalid,
}
use the_convex_100_language.Chapel.Lines.Ends.{Keeps, IsText, IsNoText, finish_line-Keeps}

-- What a pass brings: nothing yet, a byte, or an end of the call.
pub data Heard : Type 0 where
  quiet broken : Heard
  heard : ℕ → Heard

abbrev pub heard_of : Polled → Got → Heard
heard_of poll_failed got = broken
heard_of poll_signal got = quiet
heard_of poll_timeout got = quiet
heard_of (poll_ready true readable) got = broken
heard_of (poll_ready false false) got = quiet
heard_of (poll_ready false true) at_end = broken
heard_of (poll_ready false true) retry = quiet
heard_of (poll_ready false true) read_failed = broken
heard_of (poll_ready false true) (byte c) = heard c

abbrev pub Says : Heard → (Bytes → Type 0) → Bytes → Type 0
Says quiet P text = P text
Says (heard c) P text = (rest : Bytes) × (text ≡ c ∷ rest) × ((c == 10) ≡ false) × P rest
Says broken P text = ⊥

-- The passes bring the bytes of the text, with signals, time-outs and empty reads between them.
abbrev pub Spells : List Look → Bytes → Type 0
Spells [] text = text ≡ []
Spells (k ∷ looks) text =
    (k.interrupted ≡ false)
    × (k.alloc ≡ true)
    × Says (heard_of k.polled k.got) (λ rest. Spells looks rest) text

abbrev Goes : (Bytes → Type 0) → Buffer → Bytes → Step → Type 0
Goes P value text step =
    (v : Buffer) × (rest : Bytes) × (step ≡ next v)
    × P rest
    × (v.bytes ++ rest ≡ value.bytes ++ text)

after_poll-Goes :
    (P : Bytes → Type 0) (value : Buffer) (limit : ℕ) (text : Bytes) (p : Polled) (g : Got)
    → Says (heard_of p g) P text
    → length (value.bytes ++ text) ≤ limit
    → Goes P value text (after_poll value limit p g true)
unfolding after_poll take_byte
after_poll-Goes P value limit text poll_failed g h l = absurd h
after_poll-Goes P value limit text poll_signal g h l = (value, text, refl, h, refl)
after_poll-Goes P value limit text poll_timeout g h l = (value, text, refl, h, refl)
after_poll-Goes P value limit text (poll_ready true readable) g h l = absurd h
after_poll-Goes P value limit text (poll_ready false false) g h l = (value, text, refl, h, refl)
after_poll-Goes P value limit text (poll_ready false true) at_end h l = absurd h
after_poll-Goes P value limit text (poll_ready false true) retry h l = (value, text, refl, h, refl)
after_poll-Goes P value limit text (poll_ready false true) read_failed h l = absurd h
after_poll-Goes P value limit text (poll_ready false true) (byte c) (rest, e, other, h) l =
    let bound = subst (λ t. length (value.bytes ++ t) ≤ limit) e l in
    let (v, filled, joined) = append-fits value (c ∷ []) limit (grind (arith, lengths)) in
    let step : after_poll value limit (poll_ready false true) (byte c) true ≡ next v =
      rw (other, after_poll, take_byte, filled) refl in
    (
      v,
      rest,
      step,
      h,
      ap (λ b. b ++ rest) joined
          ∙ append_assoc value.bytes (c ∷ []) rest
          ∙ ap (λ t. value.bytes ++ t) (sym e),
    )

newline_step :
    (value : Buffer) (limit : ℕ) (p : Polled) (g : Got) (alloc : Bool)
    → heard_of p g ≡ heard 10
    → after_poll value limit p g alloc ≡ complete
unfolding after_poll take_byte
newline_step value limit poll_failed g alloc h = absurd (ground arith)
newline_step value limit poll_signal g alloc h = absurd (ground arith)
newline_step value limit poll_timeout g alloc h = absurd (ground arith)
newline_step value limit (poll_ready true readable) g alloc h = absurd (ground arith)
newline_step value limit (poll_ready false false) g alloc h = absurd (ground arith)
newline_step value limit (poll_ready false true) at_end alloc h = absurd (ground arith)
newline_step value limit (poll_ready false true) retry alloc h = absurd (ground arith)
newline_step value limit (poll_ready false true) read_failed alloc h = absurd (ground arith)
newline_step value limit (poll_ready false true) (byte c) alloc h = ground arith

read_loop-Spells :
    (looks : List Look) (value : Buffer) (limit : ℕ) (text : Bytes) (k : Look) (later : List Look)
    → Spells looks text
    → length (value.bytes ++ text) ≤ limit
    → k.interrupted ≡ false
    → heard_of k.polled k.got ≡ heard 10
    → read_loop value limit (looks ++ k ∷ later) ≡ (finish_line (value.bytes ++ text), later)
unfolding read_loop look_step
read_loop-Spells [] value limit text k later h l on last =
    let one : look_step value limit k ≡ complete =
      simp on (newline_step value limit k.polled k.got k.alloc last) in
    let same : value.bytes ≡ value.bytes ++ text =
      sym (append-nil value.bytes) ∙ ap (λ t. value.bytes ++ t) (sym h) in
    rw (one, read_loop) (ap (λ b. (finish_line b, later)) same)
read_loop-Spells (j ∷ looks) value limit text k later (flag, alloc, says) l on last =
    let (v, rest, step, more, same) =
      after_poll-Goes (λ t. Spells looks t) value limit text j.polled j.got says l in
    let one : look_step value limit j ≡ next v = simp (flag, alloc) step in
    let shorter = subst (λ b. length b ≤ limit) (sym same) l in
    rw (one, read_loop)
      (read_loop-Spells looks v limit rest k later more shorter on last
        ∙ ap (λ b. (finish_line b, later)) same)

-- A line of at most `limit` bytes that comes byte by byte, with signals, time-outs and empty reads
-- between the bytes, and memory for it, is read to its newline and no further, so that the next call
-- finds what follows. What is kept is the text without the carriage return at its end, if one stands
-- there: the call gives it back when it is valid UTF-8 without NUL, and reports an invalid line when it
-- has a NUL or is no valid UTF-8. The reader is not interrupted.
pub ct_read_line_reads :
    (r : Reader) (fd limit : ℕ) (looks : List Look) (text kept : Bytes) (k : Look)
    (later : List Look)
    → r.reader_interrupted ≡ false
    → Spells looks text
    → length text ≤ limit
    → k.interrupted ≡ false
    → heard_of k.polled k.got ≡ heard 10
    → Keeps kept text
    → (let t = ct_read_line r fd limit (looks ++ k ∷ later) in
        let s = record r { reader_fd = fd } in
        (IsText kept → t ≡ (s, (line kept, later))) × (IsNoText kept → t ≡ (s, (invalid, later))))
unfolding ct_read_line
ct_read_line_reads r fd limit looks text kept k later on h l on' last keeps =
    let all = read_loop-Spells looks empty_buffer limit text k later h l on' last in
    let inner : (if r.reader_interrupted
          then (failed, looks ++ k ∷ later)
          else read_loop empty_buffer limit (looks ++ k ∷ later))
        ≡ (finish_line text, later) =
      rw on all in
    let (good, bad) = finish_line-Keeps kept text keeps in
    (
      λ t. ap (λ x. (record r { reader_fd = fd }, x)) (inner ∙ ap (λ x. (x, later)) (good t)),
      λ t. ap (λ x. (record r { reader_fd = fd }, x)) (inner ∙ ap (λ x. (x, later)) (bad t)),
    )

-- After `ct_interrupt_fd` every call fails at once, whatever comes in, and the descriptor that the
-- last call read is shut down.
pub ct_interrupt_fd_stops :
    (r : Reader) (fd other limit : ℕ) (before looks : List Look)
    → (let i = ct_interrupt_fd (ct_read_line r fd limit before).0 fd in
        ((ct_read_line i other limit looks).1 ≡ (failed, looks)) × (i.shut_down ≡ some fd))
unfolding ct_read_line ct_interrupt_fd
ct_interrupt_fd_stops r fd other limit before looks = (refl, ground arith)

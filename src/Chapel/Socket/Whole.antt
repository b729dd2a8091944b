-- ===== src/Chapel/Socket/Whole.antt =====
-- `ct_ws_receive` on a message that comes in parts.
use the_convex_100_language.Common.{
  ℕ, ◌+◌, ◌≤◌, ◌<◌, ◌≡◌, inl, inr, refl, sym, ap, ◌∙◌, subst, ◌||◌, true, false, some, List, [],
  ◌∷◌, ◌++◌, append_assoc, length, ◌==◌, Bytes, arith, Bool-cases, length-append,
}
use the_convex_100_language.Common.Rules.{lengths}
use the_convex_100_language.Chapel.Buffer.{empty_buffer, append-fits}
use the_convex_100_language.Chapel.Utf8.{valid_text_boundary, has_nul, valid_utf8}
use the_convex_100_language.Chapel.Socket.{
  Socket, Meta, code_ok, came, Round, message, returned, max_ws, is_between, deliver, arm, is_late,
  watch, receive_round, receive_rounds, ct_ws_receive,
}
use the_convex_100_language.Chapel.Socket.Parts.{
  Event, chunks, IsData, first_flag, is_complete, Fresh, Runs, OnTime, round-OnTime, text_step,
  rounds_before,
}

boundary :
    (b : Bytes)
    → has_nul b ≡ false
    → valid_utf8 b ≡ true
    → valid_text_boundary (some b) (length b) true ≡ true
unfolding valid_text_boundary
boundary b n v = elim (Bool-cases (length b == 0)) [ inl e ↦ rw e refl | inr e ↦ rw (e, n, v) refl ]

deliver-message :
    (u : Socket) (whole : Bytes)
    → u.partial.bytes ≡ whole
    → has_nul whole ≡ false
    → valid_utf8 whole ≡ true
    → (t : Socket) × (deliver u ≡ returned (message whole t)) × (is_between t ≡ true)
unfolding deliver
deliver-message u whole e n v =
    let t = record u {
      partial = empty_buffer;
      partial_text = false;
      frame_deadline_ms = 0;
      may_have_internal = true;
    } in
    let fine = boundary u.partial.bytes (rw e n) (rw e v) in
    (t, rw fine (ap (λ b. returned (message b t)) e), refl)

-- A text message that comes in any number of parts, with empty reads between them and pings and pongs
-- with any payload, is handed over whole and without those payloads, behind the bytes that an earlier
-- call has kept of it. The first part is marked as text, or an earlier call has seen one that is. The
-- message is valid UTF-8 without NUL and within 2 MiB, the clock stays within a second and before the
-- call's deadline, no earlier frame deadline is set than a second from the start on, the socket is not
-- interrupted, and neither it nor the allocator fails.
pub ct_ws_receive_reassembles :
    (s : Socket) (now start deadline_ms : ℕ) (rs : List Round) (es : List Event)
    → (r : Round) (last whole : Bytes) (m : Meta) → s.interrupted ≡ false
    → now < start + 1000
    → Fresh start s
    → Runs start deadline_ms rs es
    → OnTime start deadline_ms r
    → r.watched ≡ came code_ok last (some m)
    → IsData m
    → s.partial_text || first_flag es m ≡ true
    → is_complete m ≡ true
    → s.partial.bytes ++ (chunks es ++ last) ≡ whole
    → length whole ≤ max_ws
    → has_nul whole ≡ false
    → valid_utf8 whole ≡ true
    → (t : Socket) × (ct_ws_receive s now deadline_ms (rs ++ r ∷ []) ≡ message whole t)
      × (is_between t ≡ true)
unfolding ct_ws_receive receive_rounds
ct_ws_receive_reassembles s now start deadline_ms rs es r last whole m open' early f runs on_time
      what data_ first complete parts l no_nul valid =
    let size = length-append s.partial.bytes (chunks es ++ last) in
    let bound : length (s.partial.bytes ++ (chunks es ++ last)) ≤ max_ws =
      subst (λ b. length b ≤ max_ws) (sym parts) l in
    let prefix : length (s.partial.bytes ++ chunks es) ≤ max_ws = grind (arith, lengths) in
    let (t, before, f', joined, begun) =
      rounds_before rs es m s start deadline_ms (r ∷ []) runs first f prefix in
    let all : t.partial.bytes ++ last ≡ whole =
      ap (λ b. b ++ last) joined ∙ append_assoc s.partial.bytes (chunks es) last ∙ parts in
    let fits : length t.partial.bytes + length last ≤ max_ws =
      omega
        (arith, length-append t.partial.bytes last, subst (λ b. length b ≤ max_ws) (sym all) l) in
    let (partial, e, filled) = append-fits t.partial last max_ws fits in
    let u = record (arm t r.now_start) { partial_text = true; partial = partial } in
    let (v, delivered, between) = deliver-message u whole (filled ∙ all) no_nul valid in
    let step : receive_round t deadline_ms r ≡ returned (message whole v) =
      round-OnTime t start deadline_ms r on_time f'
      ∙ ap (λ w. watch (arm t r.now_start) w true) what
      ∙ text_step (arm t r.now_start) last m partial data_ begun e
      ∙ rw complete refl
      ∙ delivered in
    let fresh : is_late s now ≡ false = ground arith in
    let one : receive_rounds t deadline_ms (r ∷ []) ≡ message whole v =
      rw (step, receive_rounds) refl in
    (v, simp (open', fresh) (before ∙ one), between)

-- ===== src/Tests/Lines.antt =====
-- The socket and the lines of the Chapel client.
use the_convex_100_language.Common.{
  ℕ, ◌≤◌, ◌≡◌, inl, refl, arith, true, false, some, none, List, [], ◌∷◌, ◌++◌, length, Bytes, text,
}
use the_convex_100_language.Chapel.Buffer.{empty_buffer}
use the_convex_100_language.Chapel.Utf8.{valid_utf8, passes, pass, has_nul, valid_text_boundary}
use the_convex_100_language.Chapel.Socket.{
  Socket, Meta, Code, code_again, code_ok, came, Round, is_ready, message, is_between,
  ct_ws_receive,
}
use the_convex_100_language.Chapel.Socket.Deadline.{Guarded, ResultKeeps}
use the_convex_100_language.Chapel.Socket.Held.{ct_ws_receive_keeps}
use the_convex_100_language.Chapel.Socket.Parts.{part, control, OnTime}
use the_convex_100_language.Chapel.Socket.Whole.{ct_ws_receive_reassembles}
use the_convex_100_language.Chapel.Send.{SendRound, sent_all, ct_ws_send}
use the_convex_100_language.Chapel.Send.Delivery.{
  SentSo, OneFrame, on_wire, ct_ws_send_sends, ct_ws_send_completes,
}
use the_convex_100_language.Chapel.Lines.{
  poll_timeout, poll_ready, byte, retry, Look, line, invalid, Reader, ct_read_line, wrote,
  write_retry, Push, Descriptor, ct_write_line,
}
use the_convex_100_language.Chapel.Lines.Ends.{IsText, IsNoText}
use the_convex_100_language.Chapel.Lines.Reads.{ct_read_line_reads}
use the_convex_100_language.Chapel.Lines.Writes.{WroteSo, ct_write_line_writes}

abbrev two : Bytes
two = 1 ∷ 2 ∷ []

abbrev fresh : Socket
fresh = record {
  partial = empty_buffer;
  partial_text = false;
  frame_deadline_ms = 0;
  may_have_internal = false;
  interrupted = false;
  last_yield_ms = 0;
}

abbrev text_meta : ℕ → Meta
text_meta left = record {
  text_flag = true;
  close_flag = false;
  ping_flag = false;
  pong_flag = false;
  cont_flag = false;
  bytesleft = left;
}

abbrev ping_meta : Meta
ping_meta = record (text_meta 0) { text_flag = false; ping_flag = true }

abbrev round : Bytes → Meta → Round
round chunk m = record {
  now_first = 10;
  now_frame = 10;
  ready = is_ready;
  now_idle = 10;
  now_start = 10;
  watched = came code_ok chunk (some m);
  alloc = true;
  now_yield = 10;
}

round-OnTime : (chunk : Bytes) (m : Meta) → OnTime 10 500 (round chunk m)
round-OnTime chunk m = record {
  starts = omega arith;
  frame = omega arith;
  call = omega arith;
  readable = refl;
  allocates = refl;
}

fresh-Guarded : Guarded fresh
fresh-Guarded = record { small = omega arith; armed = inl refl }

ct_ws_receive_keeps_example :
    ResultKeeps fresh (ct_ws_receive fresh 10 500 (round (text "o") (text_meta 1) ∷ []))
ct_ws_receive_keeps_example =
    ct_ws_receive_keeps fresh 10 500 (round (text "o") (text_meta 1) ∷ []) fresh-Guarded

ok_valid : valid_utf8 (text "ok") ≡ true
unfolding valid_utf8 passes pass text
ok_valid = refl

ok_whole : text "o" ++ ([] ++ text "k") ≡ text "ok"
unfolding text
ok_whole = refl

ok_short : length (text "ok") ≤ 2097152
unfolding text
ok_short = omega arith

ok_plain : has_nul (text "ok") ≡ false
unfolding text has_nul
ok_plain = refl

ct_ws_receive_reassembles_example :
    (t : Socket) × (ct_ws_receive fresh 10 500 (
        round (text "o") (text_meta 1)
        ∷ round (text "p") ping_meta
        ∷ round (text "k") (text_meta 0)
        ∷ [])
      ≡ message (text "ok") t)
    × (is_between t ≡ true)
unfolding text
ct_ws_receive_reassembles_example =
    ct_ws_receive_reassembles fresh 10 10 500
      (round (text "o") (text_meta 1) ∷ round (text "p") ping_meta ∷ [])
      (part (text "o") (text_meta 1) ∷ control (text "p") ping_meta ∷ [])
      (round (text "k") (text_meta 0)) (text "k") (text "ok") (text_meta 0) refl (omega arith)
      (inl refl)
      (
        round-OnTime (text "o") (text_meta 1),
        refl,
        ((refl, refl, refl), refl),
        (round-OnTime (text "p") ping_meta, refl, (refl, refl), tt),
      )
      (round-OnTime (text "k") (text_meta 0)) refl (refl, refl, refl) refl refl ok_whole ok_short
      ok_plain ok_valid

abbrev reader : Reader
reader = record { reader_fd = 0; reader_interrupted = false; shut_down = none }

abbrev sees : ℕ → Look
sees c = record { interrupted = false; polled = poll_ready false true; got = byte c; alloc = true }

abbrev waits : Look
waits = record (sees 0) { polled = poll_timeout; got = retry }

abbrev letter : Bytes
letter = b'a' ∷ []

-- "a", a time-out, a carriage return and a newline, and then "b".
abbrev spelt : List Look
spelt = sees b'a' ∷ waits ∷ sees 13 ∷ sees 10 ∷ sees b'b' ∷ []

ct_read_line_reads_example :
    (IsText letter
      → ct_read_line reader 5 1024 spelt
        ≡ (record reader { reader_fd = 5 }, (line letter, sees b'b' ∷ [])))
    × (IsNoText letter
        → ct_read_line reader 5 1024 spelt
          ≡ (record reader { reader_fd = 5 }, (invalid, sees b'b' ∷ [])))
ct_read_line_reads_example =
    ct_read_line_reads reader 5 1024 (sees b'a' ∷ waits ∷ sees 13 ∷ []) (b'a' ∷ 13 ∷ []) letter
      (sees 10) (sees b'b' ∷ []) refl
      (refl, refl, (13 ∷ [], refl, refl, (refl, refl, (refl, refl, ([], refl, refl, refl)))))
      (omega arith) refl refl (inl refl)

letter-IsText : IsText letter
unfolding has_nul valid_utf8 passes pass
letter-IsText = (refl, refl)

abbrev pipe : Descriptor
pipe = record { is_socket = false; has_flags = true; nonblocking = false }

abbrev push : ℕ → Push
push n = record { late = false; writable = true; result = wrote n }

abbrev pushes : List Push
pushes = push 1 ∷ record (push 0) { result = write_retry } ∷ push 1 ∷ push 1 ∷ []

ct_write_line_writes_example :
    WroteSo (1 ∷ 2 ∷ []) (ct_write_line pipe (1 ∷ 2 ∷ []) true true pushes).0
    × ((ct_write_line pipe (1 ∷ 2 ∷ []) true true pushes).1 ≡ pipe)
ct_write_line_writes_example =
    ct_write_line_writes pipe (1 ∷ 2 ∷ []) true true pushes
      (omega arith, omega arith, (omega arith, omega arith, (omega arith, omega arith, tt)))

two_is_text : valid_text_boundary (some two) (length two) true ≡ true
unfolding valid_text_boundary has_nul valid_utf8 passes pass
two_is_text = refl

abbrev sends : Code → ℕ → SendRound
sends code n = record { is_over = false; code = code; sent = n; can_go_on = true }

-- Two bytes go out in two calls.
ct_ws_send_sends_example :
    (let s = ct_ws_send (some fresh) (two) true (sends code_again 1 ∷ sends code_ok 1 ∷ []) in
      SentSo (two) s × OneFrame (two) s.calls)
ct_ws_send_sends_example =
    ct_ws_send_sends (some fresh) (two) true (sends code_again 1 ∷ sends code_ok 1 ∷ [])
      (omega arith, (omega arith, tt))

ct_ws_send_completes_example :
    (let s = ct_ws_send (some fresh) (two) true (sends code_again 1 ∷ sends code_ok 1 ∷ []) in
      (s.ended_with ≡ sent_all) × (on_wire s.calls ≡ two))
ct_ws_send_completes_example =
    ct_ws_send_completes fresh (two) true (sends code_again 1) (sends code_ok 1 ∷ []) refl
      two_is_text (omega arith, (omega arith, tt)) ((refl, refl), ((refl, tt), tt)) (omega arith)

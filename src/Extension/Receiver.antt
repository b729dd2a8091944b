-- ===== src/Extension/Receiver.antt =====
-- `do_ws_recv`, `do_ws_pending` and `do_ws_unread`, behind the look-up of the connection.
pub mod Total
pub mod Bounded
pub mod Reassembly
pub mod Whole
use the_convex_100_language.Common.{
  ℕ, zero, suc, ◌+◌, ◌-◌, ◌*◌, Bool, true, false, not, ◌&&◌, ◌||◌, Option, none, some, List, [],
  ◌∷◌, ◌++◌, length, get_or, take, drop, ltb, leb, ◌==◌, if◌then◌else◌, Bytes,
}
use the_convex_100_language.Extension.{
  Connection, Status, ok, timeout, eof, error, max_message, max_buffer, frame_deadline_ms,
}
use the_convex_100_language.Extension.Buffer.{buffer_reserve}
use the_convex_100_language.Extension.Transport.{
  ReadAttempt, got, ended, wait, read_failed, fill_pending, consume_pending,
}
use the_convex_100_language.Extension.Frame.{Parsed, incomplete, violation, complete, parse_frame}

-- The `kind` that a call reports: a whole message with its opcode, a control frame, a close frame with
-- its code, or why there is none. A protocol error is one with that `class`.
pub data Reply : Type 0 where
  message : ℕ → Bytes → Reply
  ping pong : Bytes → Reply
  closing : ℕ → Bytes → Reply
  timed_out at_end protocol_error io_error : Reply

-- What a call does: it returns, or still waits for its socket when the rounds are used up, or the
-- bound on the loop is.
pub data Result : Type 0 where
  returned : Reply → Connection → Result
  waiting : Connection → Result
  out_of_fuel : Result

-- One pass through `fill_pending`: what the socket does, and the clock behind it. The deadline that
-- the code computes shows in whether a wait ends late.
pub record Round : Type 0 where
  pub attempts : List ReadAttempt
  pub now : ℕ

-- One frame: the call returns, or goes on.
pub data Taken : Type 0 where
  reply : Reply → Connection → Taken
  more : Connection → Taken

abbrev pub spoil : Connection → Connection
spoil c = record c { failed = true }

-- `conn->frame_started_ms = conn->rlen > 0 ? monotonic_ms() : 0.0`
abbrev pub restart_clock : Connection → ℕ → Connection
restart_clock c now = record c { frame_started_ms = if ltb 0 (length c.rbuf) then now else 0 }

abbrev pub is_bad_code : ℕ → Bool
is_bad_code code =
    ltb code 1000
    || leb 5000 code
    || (code == 1004)
    || (code == 1005)
    || (code == 1006)
    || (code == 1015)

-- A close frame, of its payload and the connection behind it.
unfoldable pub take_close : Bytes → Connection → ℕ → Taken
take_close payload c now =
    let code = get_or payload 0 0 * 256 + get_or payload 1 0 in
    if (length payload == 1) || ltb 125 (length payload)
    then reply protocol_error (spoil c)
    else if leb 2 (length payload)
    then (if is_bad_code code
        then reply protocol_error (spoil c)
        else reply (closing code (drop 2 payload)) (restart_clock c now))
    else reply (closing 1005 []) (restart_clock c now)

-- The payload joins the reassembly buffer. `c` still holds the frame, which ends at `count`.
unfoldable pub take_fragment : Bool → Bytes → Connection → ℕ → Bool → ℕ → Taken
take_fragment fin payload c count alloc now =
    if ltb max_message (length c.frag + length payload)
    then reply protocol_error (spoil c)
    else elim (buffer_reserve c.frag_cap (length c.frag + length payload + 1) alloc) [
      | none ↦ reply io_error (spoil c)
      | some cap ↦
          let joined =
            consume_pending (record c { frag = c.frag ++ payload; frag_cap = cap }) count in
          if fin
          then reply (message joined.frag_opcode joined.frag)
              (restart_clock (record joined { frag_opcode = 0; frag = [] }) now)
          else more joined
    ]

abbrev pub after_control : Connection → ℕ → Connection
after_control c now = if c.frag_opcode == 0 then restart_clock c now else c

-- The body of the loop for a frame that is complete.
unfoldable pub take_frame : Connection → Bool → ℕ → ℕ → ℕ → Bool → ℕ → Taken
take_frame c fin opcode offset size alloc now =
    let payload = take size (drop offset c.rbuf) in
    let rest = consume_pending c (offset + size) in
    if opcode == 9
    then reply (ping payload) (after_control rest now)
    else if opcode == 10
    then reply (pong payload) (after_control rest now)
    else if opcode == 8
    then take_close payload rest now
    else if (opcode == 1) || (opcode == 2)
    then (if not (c.frag_opcode == 0)
        then reply protocol_error (spoil c)
        else if fin
        then reply (message opcode payload) (restart_clock rest now)
        else take_fragment fin payload (record c { frag_opcode = opcode; frag = [] })
            (offset + size) alloc now)
    else if c.frag_opcode == 0
    then reply protocol_error (spoil c)
    else take_fragment fin payload c (offset + size) alloc now

abbrev pub is_overdue : Connection → ℕ → Bool
is_overdue c now = ltb 0 c.frame_started_ms && leb (c.frame_started_ms + frame_deadline_ms) now

-- After a fill that brought no bytes.
abbrev pub no_bytes : Status → Connection → ℕ → Result
no_bytes timeout c now =
    if is_overdue c now then returned io_error (spoil c) else returned timed_out c
no_bytes eof c now = returned at_end c
no_bytes _ c now = returned io_error c

abbrev pub start_clock : Connection → ℕ → Connection
start_clock c now = record c {
  frame_started_ms = if c.frame_started_ms == 0 then now else c.frame_started_ms;
}

-- The loop, with a bound on its passes; `now` is the clock as it was read last, and `alloc` tells
-- whether `realloc` succeeds in this call.
unfoldable pub recv_loop : ℕ → Connection → List Round → Bool → ℕ → Result
recv_loop zero c rounds alloc now = out_of_fuel
recv_loop (suc n) c rounds alloc now = elim (parse_frame c.rbuf c.server_role) [
  | violation ↦ returned protocol_error (spoil c)
  | incomplete ↦ elim rounds [
    | [] ↦ waiting c
    | r ∷ rs ↦ elim (fill_pending c alloc r.attempts) [
      | none ↦ waiting c
      | some (ok, d) ↦ recv_loop n (start_clock d r.now) rs alloc r.now
      | some (s, d) ↦ no_bytes s d r.now
    ]
  ]
  | complete fin opcode offset size rbuf ↦
      elim (take_frame (record c { rbuf = rbuf }) fin opcode offset size alloc now) [
        | reply r d ↦ returned r d
        | more d ↦ recv_loop n d rounds alloc now
      ]
]

abbrev pub bytes_of : List ReadAttempt → ℕ
bytes_of [] = 0
bytes_of (got bytes ∷ rest) = length bytes + bytes_of rest
bytes_of (_ ∷ rest) = bytes_of rest

-- A bound on the passes: each takes a round or at least two bytes.
abbrev pub passes : Connection → List Round → ℕ
passes c [] = length c.rbuf
passes c (r ∷ rs) = suc (bytes_of r.attempts + passes c rs)

unfoldable pub do_ws_recv : Connection → List Round → Bool → ℕ → Result
do_ws_recv c rounds alloc now =
    let begun = if ltb 0 (length c.rbuf) then start_clock c now else c in
    if c.failed
    then returned io_error c
    else if is_overdue begun now
    then returned io_error (spoil begun)
    else recv_loop (suc (passes c rounds)) begun rounds alloc now

unfoldable pub do_ws_pending : Connection → ℕ
do_ws_pending c = length c.rbuf + length c.frag

-- Bytes that go back in front of the pending ones.
unfoldable pub do_ws_unread : Connection → Bytes → Bool → Status × Connection
do_ws_unread c bytes alloc =
    if length bytes == 0
    then (ok, c)
    else if ltb (max_buffer - length c.rbuf) (length bytes)
    then (error, spoil c)
    else elim (buffer_reserve c.rcap (length c.rbuf + length bytes) alloc) [
      | none ↦ (error, spoil c)
      | some cap ↦ (ok, record c { rcap = cap; rbuf = bytes ++ c.rbuf })
    ]

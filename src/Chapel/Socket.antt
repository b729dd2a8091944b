-- ===== src/Chapel/Socket.antt =====
-- `ct_ws_receive` and `ct_ws_interrupt`: messages from a WebSocket that libcurl reads.
pub mod Deadline
pub mod Held
pub mod Parts
pub mod Whole
use the_convex_100_language.Common.{
  ℕ, zero, suc, ◌+◌, ◌-◌, Bool, true, false, not, ◌&&◌, ◌||◌, Option, none, some, List, [], ◌∷◌,
  ◌++◌, length, ltb, leb, ◌==◌, if◌then◌else◌, Bytes,
}
use the_convex_100_language.Chapel.Buffer.{Buffer, empty_buffer, append}
use the_convex_100_language.Chapel.Utf8.{valid_text_boundary}

-- `CT_MAX_WS`
abbrev pub max_ws : ℕ
max_ws = 2097152

-- `struct chapel_ws`
pub record Socket : Type 0 where
  pub partial : Buffer
  pub partial_text : Bool
  pub frame_deadline_ms : ℕ
  pub may_have_internal : Bool
  pub interrupted : Bool
  pub last_yield_ms : ℕ

-- `struct curl_ws_frame`, with the flags by name.
pub record Meta : Type 0 where
  pub text_flag : Bool
  pub close_flag : Bool
  pub ping_flag : Bool
  pub pong_flag : Bool
  pub cont_flag : Bool
  pub bytesleft : ℕ

-- `CURLE_OK`, `CURLE_AGAIN`, and the others.
pub data Code : Type 0 where
  code_ok code_again code_failed : Code

-- `curl_ws_recv` under its watchdog: no watchdog could be started, it fired, or the call came back with
-- the bytes that it received.
pub data Watched : Type 0 where
  unguarded fired : Watched
  came : Code → Bytes → Option Meta → Watched

pub data Ready : Type 0 where
  not_ready poll_error is_ready : Ready

-- One pass: the clock at each point where it is read, what `wait_socket` and `curl_ws_recv` give, and
-- whether `realloc` succeeds.
pub record Round : Type 0 where
  pub now_first : ℕ
  pub now_frame : ℕ
  pub ready : Ready
  pub now_idle : ℕ
  pub now_start : ℕ
  pub watched : Watched
  pub alloc : Bool
  pub now_yield : ℕ

pub data Failure : Type 0 where
  closed expired poll_failed no_watchdog curl_failed peer_closed not_text too_long not_utf8 :
      Failure

-- The results 0, -1 and 1, and a call that still waits when the rounds are used up.
pub data Result : Type 0 where
  idle waiting : Socket → Result
  failed : Failure → Socket → Result
  message : Bytes → Socket → Result

pub data Outcome : Type 0 where
  returned : Result → Outcome
  again : Socket → Outcome

-- `CT_WS_YIELD_INTERVAL_MS` is 200.
unfoldable pub maybe_yield_idle : Socket → ℕ → Socket
maybe_yield_idle s now =
    if not (s.frame_deadline_ms == 0)
    then s
    else if not (s.last_yield_ms == 0) && ltb now (s.last_yield_ms + 200)
    then s
    else record s { last_yield_ms = now }

-- `!socket->partial.length && !socket->partial_text`
abbrev pub is_between : Socket → Bool
is_between s = (length s.partial.bytes == 0) && not s.partial_text

abbrev pub disarm : Socket → Socket
disarm s = record s { frame_deadline_ms = 0 }

abbrev pub probe : Socket → Socket
probe s = record s { may_have_internal = true }

abbrev pub flag : (Meta → Bool) → Option Meta → Bool
flag f none = false
flag f (some m) = f m

abbrev pub nothing_came : Bytes → Option Meta → Bool
nothing_came chunk none = length chunk == 0
nothing_came chunk (some m) = false

-- A ping or a pong, which libcurl answers by itself.
abbrev pub after_control : Socket → Option Meta → Socket
after_control s meta =
    if flag (λ m. m.bytesleft == 0) meta then probe (if is_between s then disarm s else s) else s

-- The message is complete.
unfoldable pub deliver : Socket → Outcome
deliver s =
    if valid_text_boundary (some s.partial.bytes) (length s.partial.bytes) true
    then returned (
        message s.partial.bytes (record s {
          partial = empty_buffer;
          partial_text = false;
          frame_deadline_ms = 0;
          may_have_internal = true;
        }))
    else returned (failed not_utf8 s)

-- Data of a text message: `s` has `partial_text` set.
unfoldable pub take_chunk : Socket → Bytes → Option Meta → Bool → Outcome
take_chunk s chunk meta alloc = elim (append s.partial chunk max_ws alloc) [
  | none ↦ returned (failed too_long s)
  | some partial ↦
      if flag (λ m. (m.bytesleft == 0) && not m.cont_flag) meta
      then deliver (record s { partial = partial })
      else again (probe (record s { partial = partial }))
]

-- What follows `curl_ws_recv`.
unfoldable pub after_receive : Socket → Code → Bytes → Option Meta → Bool → Outcome
after_receive s code_again chunk meta alloc =
    again (if nothing_came chunk meta && is_between s then disarm s else s)
after_receive s code_failed chunk meta alloc = returned (failed curl_failed s)
after_receive s code_ok chunk meta alloc =
    let text = s.partial_text || flag (λ m. m.text_flag) meta in
    if flag (λ m. m.close_flag) meta
    then returned (failed peer_closed s)
    else if flag (λ m. m.ping_flag) meta
    then again (after_control s meta)
    else if flag (λ m. m.pong_flag) meta
    then again (after_control s meta)
    else if not text
    then returned (failed not_text s)
    else take_chunk (record s { partial_text = true }) chunk meta alloc

-- `if (!socket->frame_deadline_ms) socket->frame_deadline_ms = ct_monotonic_ms() + 1000`
abbrev pub arm : Socket → ℕ → Socket
arm s now = record s {
  frame_deadline_ms = if s.frame_deadline_ms == 0 then now + 1000 else s.frame_deadline_ms;
  may_have_internal = false;
}

abbrev pub is_late : Socket → ℕ → Bool
is_late s now = not (s.frame_deadline_ms == 0) && leb s.frame_deadline_ms now

unfoldable pub watch : Socket → Watched → Bool → Outcome
watch s unguarded alloc = returned (failed no_watchdog s)
watch s fired alloc = returned (failed expired s)
watch s (came code chunk meta) alloc = after_receive s code chunk meta alloc

-- Without bytes that libcurl may still hold, the socket has to be readable first.
abbrev pub await : Socket → Round → Ready → Outcome → Outcome
await s r not_ready go =
    if is_late s r.now_idle
    then returned (failed expired s)
    else returned (idle (maybe_yield_idle s r.now_yield))
await s r poll_error go = returned (failed poll_failed s)
await s r is_ready go = go

unfoldable pub receive_round : Socket → ℕ → Round → Outcome
receive_round s deadline_ms r =
    let receive = watch (arm s r.now_start) r.watched r.alloc in
    if leb deadline_ms r.now_first
    then returned (idle (maybe_yield_idle s r.now_yield))
    else if is_late s r.now_frame
    then returned (failed expired s)
    else if s.may_have_internal
    then receive
    else await s r r.ready receive

unfoldable pub receive_rounds : Socket → ℕ → List Round → Result
receive_rounds s deadline_ms [] = waiting s
receive_rounds s deadline_ms (r ∷ rounds) = elim (receive_round s deadline_ms r) [
  | returned result ↦ result
  | again s' ↦ receive_rounds s' deadline_ms rounds
]

-- At a socket that is not NULL; `now` is the clock at the first check.
unfoldable pub ct_ws_receive : Socket → ℕ → ℕ → List Round → Result
ct_ws_receive s now deadline_ms rounds =
    if s.interrupted
    then failed closed s
    else if is_late s now
    then failed expired s
    else receive_rounds s deadline_ms rounds

unfoldable pub ct_ws_interrupt : Socket → Socket
ct_ws_interrupt s = record s { interrupted = true }

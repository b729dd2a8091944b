-- ===== src/Extension.antt =====
-- awk/client/convexext.c, the gawk extension that moves WebSocket frames for the Awk client: its
-- connections and its constants. The text in `last_error` is not modelled, only that a call fails.
-- Times are whole milliseconds.
pub mod Slots
pub mod Buffer
pub mod Transport
pub mod Bits
pub mod Frame
pub mod Writer
pub mod Receiver
pub mod Utf8
pub mod Timestamp
use the_convex_100_language.Common.{ℕ, ◌+◌, ◌*◌, Bool, false, Option, none, [], Bytes}

abbrev pub max_connections : ℕ
max_connections = 16

abbrev pub max_message : ℕ
max_message = 1024 * 1024

abbrev pub read_chunk : ℕ
read_chunk = 65536

abbrev pub max_buffer : ℕ
max_buffer = max_message + read_chunk + 14

abbrev pub frame_deadline_ms : ℕ
frame_deadline_ms = 5000

-- CONVEX_OK, CONVEX_TIMEOUT, CONVEX_EOF and CONVEX_ERROR
pub data Status : Type 0 where
  ok timeout eof error : Status

-- `convex_conn`: the pending bytes and the reassembly buffer stand in place of a pointer and a length.
-- `fd` is `none` where it is -1, and `ssl` tells whether the pointer is not NULL.
pub record Connection : Type 0 where
  pub in_use : Bool
  pub fd : Option ℕ
  pub borrowed : Bool
  pub listening : Bool
  pub failed : Bool
  pub saw_eof : Bool
  pub ssl : Bool
  pub rbuf : Bytes
  pub rcap : ℕ
  pub frag : Bytes
  pub frag_cap : ℕ
  pub frag_opcode : ℕ
  pub frame_started_ms : ℕ
  pub server_role : Bool

-- `memset(conn, 0, sizeof(convex_conn)); conn->fd = -1`
abbrev pub blank : Connection
blank = record {
  in_use = false;
  fd = none;
  borrowed = false;
  listening = false;
  failed = false;
  saw_eof = false;
  ssl = false;
  rbuf = [];
  rcap = 0;
  frag = [];
  frag_cap = 0;
  frag_opcode = 0;
  frame_started_ms = 0;
  server_role = false;
}

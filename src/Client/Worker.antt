-- ===== src/Client/Worker.antt =====
-- `connect_socket` and `live_worker` of c/client/convex.c as a state machine. A step is what the
-- worker does between two points at which other threads can see or change the manager; between steps
-- any call of Client/Api may run. What libcurl, the clock and the allocator do is the step's input.
pub mod Scan
pub mod Connect
pub mod Loop
pub mod Invariant
pub mod Preserve
pub mod Messages
pub mod Connecting
pub mod Sections
pub mod Steps
pub mod Removal
pub mod Snapshot
use the_convex_100_language.Common.{ℕ, Bool, Option, List, Bytes}
use the_convex_100_language.Client.Live.{Manager}
use the_convex_100_language.Client.Receive.{Received, ReceiveState, Code}

-- Where the worker is, each time outside the mutex. A number is a subscription's address, or for
-- `deciding` the count of active subscriptions that the worker took last, or for `snapshot` the add
-- sequence of the snapshot.
pub data Place : Type 0 where
  top : Place
  adding : ℕ → Place
  removing : ℕ → Place
  deciding : ℕ → Place
  dialing greeting marking receiving exiting ended : Place
  snapshot : ℕ → Place
  handling : Code → Place

-- The manager with the locals of `live_worker`.
pub record World (J : Type 0) : Type 0 where
  pub manager : Manager J
  pub place : Place
  pub reconnect_at : ℕ
  pub backoff : ℕ
  pub receive_state : ReceiveState
  pub reason : Bytes

pub data Input : Type 0 where
  -- the clock, for a step that only reads the time
  clock : ℕ → Input
  -- how `ws_send_json` or the dial ended: `Option.none` for success, or the reason; and the clock
  outcome : Option Bytes → ℕ → Input
  -- what `curl_ws_recv` returns, whether its `realloc` succeeds, whether `ws_wait` finds the socket
  -- ready after a first result 0, and what the second call then returns
  network : Received → Bool → Bool → Received → Bool → Input

-- ===== src/Client/Api.antt =====
-- The public calls on a live client in c/client/convex.c: `ensure_live`, `convex_subscribe`,
-- `convex_subscription_next`, `convex_unsubscribe`, `convex_debug_disconnect` and `convex_close`. A
-- call that waits on a condition is a critical section that starts it and one that runs whenever it
-- wakes, whose result is `none` while it goes on waiting.
pub mod System
pub mod Outside
pub mod Order
pub mod Reading
use the_convex_100_language.Common.{
  ℕ, suc, ◌+◌, Bool, true, false, not, ◌&&◌, ◌||◌, Option, none, some, List, [], ◌∷◌, map, length,
  ◌==◌, leb, if◌then◌else◌, Bytes, text, clip, add32, add64,
}
use the_convex_100_language.Client.Json.{JsonType, JsonLib, is_type}
use the_convex_100_language.Client.Queue.{Ring, empty_ring, dequeue, clear}
use the_convex_100_language.Client.Queue.Values.{Error, Update, fail}
use the_convex_100_language.Client.Live.{Subscription, Manager, live_initial_ts, at, change}
use the_convex_100_language.Client.Receive.{empty_state}
use the_convex_100_language.Client.Worker.{World, top}

-- `struct convex_client`; the worker's locals stand beside its manager.
pub record Client (J : Type 0) : Type 0 where
  pub url : Bytes
  pub version : Bytes
  pub token : Option Bytes
  pub live : Option (World J)
  pub closed : Bool

-- A pointer, or NULL with the error.
pub data Result (J : Type 0) (A : Type 0) : Type 0 where
  ok : A → Result J A
  err : Error J → Result J A

-- `convex_subscription_next`: 1 with an update, 0 at the time-out, -1 after the end.
pub data Next (J : Type 0) : Type 0 where
  update : Option (Update J) → Next J
  timed_out : Next J
  over : Next J

-- `!*path`
abbrev pub is_empty : Bytes → Bool
is_empty [] = true
is_empty (_ ∷ _) = false

module _ {J : Type 0} where
  -- The manager that `ensure_live` makes, with the locals that `live_worker` starts with.
  unfoldable pub new_live : World J
  new_live = record {
    manager = record {
      subscriptions = [];
      next_query_id = 0;
      next_add_sequence = 0;
      query_set_version = 0;
      remote_query_set = 0;
      remote_identity = 0;
      remote_ts = clip 128 live_initial_ts;
      max_observed_ts = [];
      connection_count = 0;
      last_close_reason = clip 256 (text "InitialConnect");
      closing = false;
      stopped = false;
      debug_requested = false;
      connected = false;
      worker_joined = false;
      debug_generation = 0;
      debug_completed = 0;
      socket = false;
    };
    place = top;
    reconnect_at = 0;
    backoff = 100;
    receive_state = empty_state;
    reason = [];
  }

  -- `alloc` and `thread` tell whether `calloc` and `pthread_create` succeed.
  unfoldable pub ensure_live : Client J → Bool → Bool → Result J (World J)
  ensure_live c alloc thread =
      if c.closed then err (fail (text "Error") (text "client is closed") none) else elim c.live [
        | some w ↦ ok w
        | none ↦
            if not alloc
            then err (fail (text "Error") (text "out of memory") none)
            else if not thread
            then err (fail (text "TransportError") (text "could not start Live worker") none)
            else ok new_live
      ]

  -- The subscription that `convex_subscribe` puts in front of the list.
  unfoldable pub new_subscription : Manager J → Bytes → J → Subscription J
  new_subscription m path args = record {
    query_id = m.next_query_id;
    path = path;
    args = some args;
    active = true;
    add_pending = true;
    remove_pending = false;
    remove_done = false;
    rehydrating = false;
    has_last_value = false;
    add_sequence = add64 m.next_add_sequence 1;
    last_value = none;
    queue = empty_ring;
  }

  -- Its critical section.
  unfoldable pub insert : Manager J → Bytes → J → Manager J
  insert m path args = record m {
    subscriptions = new_subscription m path args ∷ m.subscriptions;
    next_query_id = add32 m.next_query_id 1;
    next_add_sequence = add64 m.next_add_sequence 1;
  }

  -- `convex_unsubscribe`: `true` if the call returns 1 at once, else the removal is requested.
  unfoldable pub request_removal : Manager J → ℕ → Manager J × Bool
  request_removal m k = elim (at k m.subscriptions) [
    | none ↦ (m, true)
    | some s ↦ if not s.active then (m, true) else (
      record m {
        subscriptions = change k (λ t. record t { remove_pending = true }) m.subscriptions;
      },
      false,
    )
  ]

  -- When it wakes: done, or given up since the worker has stopped, or to wait on.
  unfoldable pub await_removal : Manager J → Subscription J → Option (Result J (Unit {0}))
  await_removal m s =
      if s.remove_done
      then some (ok tt)
      else if m.stopped
      then some (
          err
            (fail (text "TransportError") (text "client closed before Live Remove completed") none))
      else none

  -- `convex_debug_disconnect`: the generation that the call waits for.
  unfoldable pub request_disconnect : Manager J → Result J (Manager J × ℕ)
  request_disconnect m =
      if not m.connected
      then err (fail (text "TransportError") (text "Live WebSocket is not connected") none)
      else ok (
        record m { debug_generation = add64 m.debug_generation 1; debug_requested = true },
        add64 m.debug_generation 1,
      )

  unfoldable pub await_disconnect : Manager J → ℕ → Option (Result J (Unit {0}))
  await_disconnect m generation =
      if leb generation m.debug_completed
      then some (ok tt)
      else if m.stopped
      then some
          (err (fail (text "TransportError") (text "client closed during debug disconnect") none))
      else none

  abbrev pub set_queue : Ring (Update J) → Subscription J → Subscription J
  set_queue q s = record s { queue = q }

  -- One look at the queue; `late` tells whether the wait before it ended with ETIMEDOUT, in which case
  -- the code does not look again.
  unfoldable pub next : Manager J → ℕ → Subscription J → Bool → Option (Next J × Manager J)
  next m k s late =
      let (u, q) = dequeue s.queue in
      if late
      then some (timed_out, m)
      else if (s.queue.queue_count == 0) && (s.active && not m.stopped)
      then none
      else if s.queue.queue_count == 0
      then some (over, m)
      else some (update u, record m { subscriptions = change k (set_queue q) m.subscriptions })

  -- `convex_close`: the request, which the call makes after it has set `closed`.
  unfoldable pub request_close : Manager J → Manager J
  request_close m = record m { closing = true }

  abbrev pub drain : Subscription J → Subscription J
  drain s = record s { queue = clear s.queue }

  -- When it wakes: at the time-out it fails; when the worker has stopped it joins it and empties the
  -- queues.
  unfoldable pub await_close : Manager J → Bool → Option (Result J (Manager J))
  await_close m late =
      if late
      then some (
          err
            (fail (text "TransportError") (text "timed out waiting for Live worker to close") none))
      else if m.stopped
      then some (ok (record m { worker_joined = true; subscriptions = map drain m.subscriptions }))
      else none

module _ {J : Type 0} (json : JsonLib J) where
  abbrev is_object : Option J → Bool
  is_object none = false
  is_object (some j) = is_type (json.get_type j) JsonType.object

  abbrev subscribed : Client J → World J → Bytes → J → Client J × Result J ℕ
  subscribed c w path args = (
    record c { live = some (record w { manager = insert w.manager path args }) },
    ok (length w.manager.subscriptions),
  )

  -- `convex_subscribe`; the address of the new subscription is its pointer. `sub_alloc` tells whether
  -- the allocations of the subscription succeed.
  unfoldable pub subscribe :
      Client J → Bytes → Option J → Bool → Bool → Bool → Client J × Result J ℕ
  subscribe c path none alloc thread sub_alloc = (
    c,
    err (
        fail (text "ProtocolError") (text "Live query path and object arguments are required")
          none),
  )
  subscribe c path (some args) alloc thread sub_alloc =
      if is_empty path || not (is_object (some args))
      then (
        c,
        err (
            fail (text "ProtocolError") (text "Live query path and object arguments are required")
              none),
      )
      else elim (ensure_live c alloc thread) [
        | err e ↦ (c, err e)
        | ok w ↦
            if not sub_alloc
            then (record c { live = some w }, err (fail (text "Error") (text "out of memory") none))
            else subscribed c w path args
      ]

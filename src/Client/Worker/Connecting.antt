-- ===== src/Client/Worker/Connecting.antt =====
-- The invariant at the steps of `connect_socket`.
use the_convex_100_language.Common.{ℕ, ◌≤◌, ◌≡◌, true, false, Option, some, none, arith, Bytes}
use the_convex_100_language.Client.Live.{Manager, disconnect_socket}
use the_convex_100_language.Client.Worker.{World, top}
use the_convex_100_language.Client.Worker.Scan.{settle, settle_one}
use the_convex_100_language.Client.Worker.Connect.{
  next_backoff, without_socket, connect_failed, dialed, greeted, snapshot_sent, marked,
}
use the_convex_100_language.Client.Worker.Invariant.{IsManager, IsWorld, Unconnected}
use the_convex_100_language.Client.Worker.Preserve.{
  IsList-map, disconnect_socket-Listed, settle_one-Keeps,
}

pub next_backoff_bounds :
    (b : ℕ) → 100 ≤ b → b ≤ 15000 → (100 ≤ next_backoff b) × (next_backoff b ≤ 15000)
unfolding next_backoff
next_backoff_bounds b low high = ground arith

module _ {J : Type 0} where
  pub disconnect_socket-IsManager :
      (m : Manager J) (reason : Option Bytes) → IsManager m → IsManager (disconnect_socket m reason)
  unfolding disconnect_socket
  disconnect_socket-IsManager m reason v = record {
    listed = disconnect_socket-Listed m reason v.listed;
    debug = v.debug;
    connection = λ e. ground arith;
    leaves_after_close = v.leaves_after_close;
  }

  -- A failed connection.
  connect_failed-IsWorld :
      (w : World J) (reason : Bytes) (now : ℕ)
      → IsManager w.manager
      → IsWorld w
      → IsWorld (connect_failed w reason now)
  unfolding connect_failed
  connect_failed-IsWorld w reason now m v = ground (
    arith,
    disconnect_socket-IsManager w.manager (some reason) m,
    next_backoff_bounds w.backoff v.backoff_low v.backoff_high,
  )

  without_socket-IsManager :
      (m : Manager J) → Unconnected m → IsManager m → IsManager (record m { socket = false })
  without_socket-IsManager m u v = ground arith

  pub dialed-IsWorld :
      (w : World J) (o : Option Bytes) (now : ℕ)
      → Unconnected w.manager
      → IsWorld w
      → IsWorld (dialed w o now)
  unfolding dialed
  dialed-IsWorld w (some reason) now u v = connect_failed-IsWorld w reason now v.manager_ok v
  dialed-IsWorld w none now u v = ground arith

  failed_without_socket-IsWorld :
      (w : World J) (reason : Bytes) (now : ℕ)
      → Unconnected w.manager
      → IsWorld w
      → IsWorld (connect_failed (without_socket w) reason now)
  unfolding connect_failed
  failed_without_socket-IsWorld w reason now u v =
      let m = without_socket-IsManager w.manager u v.manager_ok in
      connect_failed-IsWorld
        (record w { manager = record w.manager { socket = false }; place = top }) reason now m
        (ground (arith, m))

  pub greeted-IsWorld :
      (w : World J) (o : Option Bytes) (now : ℕ)
      → (w.manager.socket ≡ true) × Unconnected w.manager
      → IsWorld w
      → IsWorld (greeted w o now)
  unfolding greeted
  greeted-IsWorld w (some reason) now (s, u) v = failed_without_socket-IsWorld w reason now u v
  greeted-IsWorld w none now (s, u) v = ground arith

  settle-IsManager :
      (m : Manager J) (seq version : ℕ)
      → IsManager m
      → IsManager
          (record m { query_set_version = version; subscriptions = settle seq m.subscriptions })
  unfolding settle
  settle-IsManager m seq version v = record {
    listed = IsList-map (settle_one seq) m.subscriptions _ _ (settle_one-Keeps seq) v.listed;
    debug = v.debug;
    connection = v.connection;
    leaves_after_close = v.leaves_after_close;
  }

  pub snapshot_sent-IsWorld :
      (w : World J) (seq : ℕ) (o : Option Bytes) (now : ℕ)
      → (w.manager.socket ≡ true) × Unconnected w.manager
      → IsWorld w
      → IsWorld (snapshot_sent w seq o now)
  unfolding snapshot_sent
  snapshot_sent-IsWorld w seq (some reason) now (s, u) v =
      failed_without_socket-IsWorld w reason now u v
  snapshot_sent-IsWorld w seq none now (s, u) v = record {
    manager_ok = settle-IsManager w.manager seq 1 v.manager_ok;
    knows = s;
    backoff_low = v.backoff_low;
    backoff_high = v.backoff_high;
    buffer = v.buffer;
  }

  pub marked-IsWorld : (w : World J) → w.manager.socket ≡ true → IsWorld w → IsWorld (marked w)
  unfolding marked
  marked-IsWorld w s v = ground arith

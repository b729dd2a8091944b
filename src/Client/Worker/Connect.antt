-- ===== src/Client/Worker/Connect.antt =====
-- `connect_socket`, from the dial to `connected`, and what the worker does when it fails.
use the_convex_100_language.Common.{
  ℕ, zero, suc, ◌+◌, ◌*◌, true, false, Option, none, some, ltb, if◌then◌else◌, Bytes, clip, add32,
}
use the_convex_100_language.Client.Live.{Manager, active_count, disconnect_socket}
use the_convex_100_language.Client.Worker.{top, greeting, snapshot, marking, World}
use the_convex_100_language.Client.Worker.Scan.{settle}

-- `backoff < 7500 ? backoff * 2 : 15000`
unfoldable pub next_backoff : ℕ → ℕ
next_backoff b = if ltb b 7500 then b * 2 else 15000

module _ {J : Type 0} where
  -- The next try is due after the backoff, which grows.
  abbrev pub back_off : World J → ℕ → World J
  back_off w now = record w { reconnect_at = now + w.backoff; backoff = next_backoff w.backoff }

  -- `connect_socket` returned 0, with its reason.
  unfoldable pub connect_failed : World J → Bytes → ℕ → World J
  connect_failed w reason now =
      back_off (record w { manager = noted; place = top; reason = reason }) now
    where
      m : Manager J
      m = w.manager

      noted : Manager J
      noted = if m.socket then disconnect_socket m (some reason) else record m {
        connection_count = add32 m.connection_count 1;
        last_close_reason = clip 256 reason;
      }

  abbrev pub without_socket : World J → World J
  without_socket w = record w { manager = record w.manager { socket = false } }

  -- `curl_easy_perform` of the dial. On success the socket is stored, and the Connect message sent.
  unfoldable pub dialed : World J → Option Bytes → ℕ → World J
  dialed w (some reason) now = connect_failed w reason now
  dialed w none now = record w { manager = record w.manager { socket = true }; place = greeting }

  -- After the Connect message: under the mutex, the snapshot of the active subscriptions is taken if
  -- there are any.
  unfoldable pub greeted : World J → Option Bytes → ℕ → World J
  greeted w (some reason) now = connect_failed (without_socket w) reason now
  greeted w none now = elim (active_count w.manager.subscriptions) [
    | zero ↦ record w { place = marking }
    | suc _ ↦ record w { place = snapshot w.manager.next_add_sequence }
  ]

  -- After the snapshot's ModifyQuerySet.
  unfoldable pub snapshot_sent : World J → ℕ → Option Bytes → ℕ → World J
  snapshot_sent w seq (some reason) now = connect_failed (without_socket w) reason now
  snapshot_sent w seq none now = record w {
    manager = record w.manager {
      query_set_version = 1;
      subscriptions = settle seq w.manager.subscriptions;
    };
    place = marking;
  }

  -- The last critical section: `connected`, and success makes the backoff 100 again.
  unfoldable pub marked : World J → World J
  marked w = record w {
    manager = record w.manager { connected = true };
    place = top;
    backoff = 100;
  }

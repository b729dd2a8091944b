-- ===== src/Client/Worker/Loop.antt =====
-- The loop of `live_worker`.
use the_convex_100_language.Common.{
  ℕ, ◌+◌, Bool, true, false, not, ◌&&◌, Option, none, some, List, map, leb, ltb, if◌then◌else◌,
  Bytes, text, add32,
}
use the_convex_100_language.Client.Json.{JsonLib}
use the_convex_100_language.Client.Live.{
  Subscription, Manager, active_count, change, publish_error, disconnect_socket,
}
use the_convex_100_language.Client.Receive.{
  Received, Code, complete, no_data, transport, protocol, Outcome, empty_state, receive_message,
}
use the_convex_100_language.Client.Worker.{
  Place, top, adding, removing, deciding, dialing, greeting, marking, receiving, exiting, ended,
  snapshot, handling, World, Input, clock, outcome, network,
}
use the_convex_100_language.Client.Worker.Scan.{
  first_add, first_removal, added, removed, sweep, deactivate,
}
use the_convex_100_language.Client.Worker.Connect.{back_off, dialed, greeted, snapshot_sent, marked}

abbrev pub or_keep : Option Bytes → Bytes → Bytes
or_keep none r = r
or_keep (some r') r = r'

module _ {J : Type 0} where
  -- `DebugDisconnect` at the top of the loop.
  unfoldable pub serve_debug : World J → ℕ → World J
  serve_debug w now =
      if m.debug_requested then record w { manager = closed; reconnect_at = now + 100 } else w
    where
      m : Manager J
      m = w.manager

      closed : Manager J
      closed =
          record (disconnect_socket (record m { debug_requested = false })
            (some (text "DebugDisconnect"))) { debug_completed = m.debug_generation }

  abbrev pub with_subscriptions : World J → List (Subscription J) → World J
  with_subscriptions w ss = record w { manager = record w.manager { subscriptions = ss } }

  -- The end of the critical section: the active subscriptions are counted.
  abbrev pub leave_section : World J → World J
  leave_section w = record w { place = deciding (active_count w.manager.subscriptions) }

  -- The second loop of the section, which sends one Remove.
  unfoldable pub seek_removal : World J → World J
  seek_removal w = elim (first_removal w.manager.subscriptions) [
    | none ↦ leave_section w
    | some k ↦ record w { place = removing k }
  ]

  -- The first loop, which sends one Add.
  unfoldable pub seek_add : World J → World J
  seek_add w = elim (first_add w.manager.subscriptions) [
    | none ↦ seek_removal w
    | some k ↦ record w { place = adding k }
  ]

  -- The critical section from its lock to the first message, or to its end.
  unfoldable pub enter_section : World J → ℕ → World J
  enter_section w now =
      if w.manager.closing then record w { place = exiting } else section (serve_debug w now)
    where
      section : World J → World J
      section d =
          if d.manager.socket
          then seek_add d
          else leave_section (with_subscriptions d (sweep d.manager.subscriptions))

  abbrev pub send_failed : World J → Bytes → ℕ → World J
  send_failed w reason now =
      back_off (record w { manager = disconnect_socket w.manager (some reason); reason = reason })
        now

  abbrev pub sent_one : World J → ℕ → (Subscription J → Subscription J) → World J
  sent_one w k f = record w {
    manager = record w.manager {
      query_set_version = add32 w.manager.query_set_version 1;
      subscriptions = change k f w.manager.subscriptions;
    };
  }

  -- The mutex is taken again after an Add. The removals are searched whether or not it was sent.
  unfoldable pub add_sent : World J → ℕ → Option Bytes → ℕ → World J
  add_sent w k none now = seek_removal (sent_one w k added)
  add_sent w k (some reason) now = seek_removal (send_failed w reason now)

  unfoldable pub remove_sent : World J → ℕ → Option Bytes → ℕ → World J
  remove_sent w k none now = leave_section (sent_one w k removed)
  remove_sent w k (some reason) now = leave_section (send_failed w reason now)

  -- Outside the mutex: to connect, to read, or to wait for 20 ms and start again.
  unfoldable pub decide : World J → ℕ → ℕ → World J
  decide w active now =
      if not w.manager.socket && (ltb 0 active && leb w.reconnect_at now)
      then record w { place = dialing }
      else if w.manager.socket
      then record w { place = receiving }
      else record w { place = top }

  abbrev pub absorb : World J → Outcome J → World J
  absorb w o = record w {
    manager = o.manager;
    receive_state = o.state;
    reason = or_keep o.reason w.reason;
  }

  abbrev pub after_code : World J → Code → World J
  after_code w complete = record w { place = top; backoff = 100 }
  after_code w no_data = record w { place = top }
  after_code w transport = record w { place = handling transport }
  after_code w protocol = record w { place = handling protocol }

  -- A failure is told to the subscriptions, and the socket closed.
  abbrev pub tell : Manager J → Code → Bytes → Manager J
  tell m protocol reason =
      publish_error m (some (text "ProtocolError")) (some reason) none none false
  tell m _ reason =
      if not m.closing && not m.debug_requested
      then publish_error m (some (text "TransportError")) (some reason) none none true
      else m

  unfoldable pub handle_failure : World J → Code → ℕ → World J
  handle_failure w code now =
      back_off
        (record w {
          manager = disconnect_socket (tell w.manager code w.reason) (some w.reason);
          receive_state = empty_state;
          place = top;
        })
        now

  -- After the loop: the socket is closed, and nothing is active any more.
  unfoldable pub leave : World J → World J
  leave w = record w {
    manager = record w.manager {
      socket = false;
      stopped = true;
      subscriptions = map deactivate w.manager.subscriptions;
    };
    place = ended;
  }

module _ {J : Type 0} (json : JsonLib J) (describe : Bytes → Bytes) where
  -- One `receive_message`, and a second one if the first found nothing and the socket became ready.
  -- The first has then not touched the manager, so that what other threads do between the two might as
  -- well come before.
  unfoldable pub receive_step : World J → Received → Bool → Bool → Received → Bool → World J
  receive_step w r alloc ready r' alloc' = elim first.code [
    | no_data ↦ if ready then settled second else settled first
    | _ ↦ settled first
  ]
    where
      first : Outcome J
      first = receive_message json describe alloc w.manager w.receive_state r

      second : Outcome J
      second = receive_message json describe alloc' first.manager first.state r'

      settled : Outcome J → World J
      settled o = after_code (absorb w o) o.code

  -- One step of the worker. An input of another kind than the place waits for changes nothing.
  unfoldable pub step_at : Place → Input → World J → World J
  step_at top (clock now) w = enter_section w now
  step_at (adding k) (outcome o now) w = add_sent w k o now
  step_at (removing k) (outcome o now) w = remove_sent w k o now
  step_at (deciding active) (clock now) w = decide w active now
  step_at dialing (outcome o now) w = dialed w o now
  step_at greeting (outcome o now) w = greeted w o now
  step_at (snapshot seq) (outcome o now) w = snapshot_sent w seq o now
  step_at marking (clock now) w = marked w
  step_at receiving (network r alloc ready r' alloc') w = receive_step w r alloc ready r' alloc'
  step_at (handling code) (clock now) w = handle_failure w code now
  step_at exiting (clock now) w = leave w
  step_at _ _ w = w

  unfoldable pub step : World J → Input → World J
  step w i = step_at w.place i w

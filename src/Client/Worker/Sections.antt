-- ===== src/Client/Worker/Sections.antt =====
-- The invariant at the sections of `live_worker`'s loop.
use the_convex_100_language.Common.{
  ℕ, ◌≡◌, inl, inr, Bool, true, false, Option, some, none, List, map, arith, Bytes, Bool-cases,
  text,
}
use the_convex_100_language.Client.Live.{
  Subscription, Manager, change, publish_error, disconnect_socket,
}
use the_convex_100_language.Client.Receive.{Code, protocol}
use the_convex_100_language.Client.Worker.{World, top}
use the_convex_100_language.Client.Worker.Scan.{added, removed, sweep, sweep_one, deactivate}
use the_convex_100_language.Client.Worker.Loop.{
  serve_debug, seek_removal, seek_add, enter_section, add_sent, remove_sent, decide, tell,
  send_failed, sent_one, handle_failure, leave,
}
use the_convex_100_language.Client.Worker.Invariant.{IsList, IsManager, IsWorld}
use the_convex_100_language.Client.Worker.Preserve.{
  Keeps, IsList-map, IsList-change, disconnect_socket-Listed, publish_error-Listed, added-Keeps,
  removed-Keeps, sweep_one-Keeps, deactivate-Keeps,
}
use the_convex_100_language.Client.Worker.Connecting.{
  next_backoff_bounds, disconnect_socket-IsManager,
}

module _ {J : Type 0} where
  -- The critical section. What it needs is the world without what the place knows.
  abbrev pub IsBase : World J → Type 0
  IsBase w = IsWorld (record w { place = top })

  serve_debug-IsWorld : (w : World J) (now : ℕ) → IsBase w → IsBase (serve_debug w now)
  unfolding serve_debug disconnect_socket
  serve_debug-IsWorld w now v = elim (Bool-cases w.manager.debug_requested) [
    | inl asked ↦ ground (
      arith,
      disconnect_socket-Listed (record w.manager { debug_requested = false })
          (some (text "DebugDisconnect")) v.manager_ok.listed,
    )
    | inr quiet ↦ ground arith
  ]

  seek_removal-IsWorld : (w : World J) → IsBase w → IsWorld (seek_removal w)
  unfolding seek_removal
  seek_removal-IsWorld w v = ground arith

  seek_add-IsWorld : (w : World J) → w.manager.socket ≡ true → IsBase w → IsWorld (seek_add w)
  unfolding seek_add
  seek_add-IsWorld w s v = ground (arith, seek_removal-IsWorld w v)

  with_list-IsManager :
      (m : Manager J) (ss : List (Subscription J)) (version : ℕ)
      → IsList ss m.next_query_id m.next_add_sequence
      → IsManager m
      → IsManager (record m { query_set_version = version; subscriptions = ss })
  with_list-IsManager m ss version l v = record {
    listed = l;
    debug = v.debug;
    connection = v.connection;
    leaves_after_close = v.leaves_after_close;
  }

  pub enter_section-IsWorld : (w : World J) (now : ℕ) → IsBase w → IsWorld (enter_section w now)
  unfolding enter_section sweep
  enter_section-IsWorld w now v =
      let d = serve_debug w now in
      let b = serve_debug-IsWorld w now v in
      let swept =
        with_list-IsManager d.manager (map sweep_one d.manager.subscriptions)
          d.manager.query_set_version
          (IsList-map sweep_one d.manager.subscriptions _ _ sweep_one-Keeps b.manager_ok.listed)
          b.manager_ok in
      ground (arith, b, swept, seek_add-IsWorld d)

  send_failed-IsWorld :
      (w : World J) (reason : Bytes) (now : ℕ) → IsBase w → IsBase (send_failed w reason now)
  send_failed-IsWorld w reason now v = ground (
    arith,
    disconnect_socket-IsManager w.manager (some reason) v.manager_ok,
    next_backoff_bounds w.backoff v.backoff_low v.backoff_high,
  )

  sent_one-IsWorld :
      (w : World J) (k : ℕ) (f : Subscription J → Subscription J)
      → Keeps f
      → IsBase w
      → IsBase (sent_one w k f)
  sent_one-IsWorld w k f keep v =
      let m =
        with_list-IsManager w.manager (change k f w.manager.subscriptions) _
          (IsList-change k f w.manager.subscriptions _ _ keep v.manager_ok.listed) v.manager_ok in
      record {
        manager_ok = m;
        knows = tt;
        backoff_low = v.backoff_low;
        backoff_high = v.backoff_high;
        buffer = v.buffer;
      }

  pub add_sent-IsWorld :
      (w : World J) (k : ℕ) (o : Option Bytes) (now : ℕ) → IsBase w → IsWorld (add_sent w k o now)
  unfolding add_sent
  add_sent-IsWorld w k none now v =
      seek_removal-IsWorld _ (sent_one-IsWorld w k added added-Keeps v)
  add_sent-IsWorld w k (some reason) now v =
      seek_removal-IsWorld _ (send_failed-IsWorld w reason now v)

  pub remove_sent-IsWorld :
      (w : World J) (k : ℕ) (o : Option Bytes) (now : ℕ)
      → IsBase w
      → IsWorld (remove_sent w k o now)
  unfolding remove_sent
  remove_sent-IsWorld w k none now v = ground (arith, sent_one-IsWorld w k removed removed-Keeps v)
  remove_sent-IsWorld w k (some reason) now v = ground (arith, send_failed-IsWorld w reason now v)

  pub decide-IsWorld : (w : World J) (active now : ℕ) → IsBase w → IsWorld (decide w active now)
  unfolding decide
  decide-IsWorld w active now v = ground arith

  publish_error-IsManager :
      (m : Manager J) (name message : Option Bytes) (only : Bool)
      → IsManager m
      → IsManager (publish_error m name message none none only)
  unfolding publish_error
  publish_error-IsManager m name message only v = record {
    listed = publish_error-Listed m name message none none only v.listed;
    debug = v.debug;
    connection = v.connection;
    leaves_after_close = v.leaves_after_close;
  }

  tell-IsManager :
      (m : Manager J) (code : Code) (r : Bytes) → IsManager m → IsManager (tell m code r)
  tell-IsManager m protocol r v =
      publish_error-IsManager m (some (text "ProtocolError")) (some r) false v
  tell-IsManager m _ r v =
      ground (arith, publish_error-IsManager m (some (text "TransportError")) (some r) true v)

  pub handle_failure-IsWorld :
      (w : World J) (code : Code) (now : ℕ) → IsBase w → IsWorld (handle_failure w code now)
  unfolding handle_failure
  handle_failure-IsWorld w code now v =
      let m = tell-IsManager w.manager code w.reason v.manager_ok in
      ground (
        arith,
        disconnect_socket-IsManager (tell w.manager code w.reason) (some w.reason) m,
        next_backoff_bounds w.backoff v.backoff_low v.backoff_high,
      )

  pub leave-IsWorld : (w : World J) → w.manager.closing ≡ true → IsBase w → IsWorld (leave w)
  unfolding leave
  leave-IsWorld w c v = ground (
    arith,
    IsList-map deactivate w.manager.subscriptions w.manager.next_query_id
        w.manager.next_add_sequence deactivate-Keeps v.manager_ok.listed,
  )

-- ===== src/Client/Worker/Removal.antt =====
-- When removals are done, and what happens to them when an Add fails.
use the_convex_100_language.Common.{
  ℕ, ◌≡◌, refl, true, false, some, none, List, [], ◌∷◌, map, All, arith, Bytes, add32, ◌⊎◌,
}
use the_convex_100_language.Client.Live.{Subscription, at, rehydrate, disconnect_socket}
use the_convex_100_language.Client.Live.Numbering.{at-change_self, length-map}
use the_convex_100_language.Client.Worker.{World, removing}
use the_convex_100_language.Client.Worker.Invariant.{IsSound, IsWorld}
use the_convex_100_language.Client.Worker.Connect.{next_backoff}
use the_convex_100_language.Client.Worker.Scan.{first_removal, removed, sweep}
use the_convex_100_language.Client.Worker.Loop.{
  serve_debug, seek_removal, enter_section, add_sent, remove_sent,
}

module _ {J : Type 0} where
  -- A removal that was asked for is done, and the subscription inactive.
  abbrev pub IsSettled : Subscription J → Type 0
  IsSettled s = (s.remove_pending ≡ false) ⊎ ((s.remove_done ≡ true) × (s.active ≡ false))

  sweep-IsSettled : (ss : List (Subscription J)) → All IsSound ss → All IsSettled (sweep ss)
  unfolding sweep
  sweep-IsSettled [] h = tt
  sweep-IsSettled (s ∷ ss) h = (ground (arith, h.0), sweep-IsSettled ss h.1)

  serve_debug_offline :
      (w : World J) (now : ℕ)
      → (w.manager.socket ≡ false) ⊎ (w.manager.debug_requested ≡ true)
      → (serve_debug w now).manager.socket ≡ false
  unfolding serve_debug disconnect_socket
  serve_debug_offline w now h = ground arith

  All-rehydrate : (ss : List (Subscription J)) → All IsSound ss → All IsSound (map rehydrate ss)
  All-rehydrate [] h = tt
  All-rehydrate (s ∷ ss) h = (ground (arith, h.0), All-rehydrate ss h.1)

  serve_debug-All :
      (w : World J) (now : ℕ)
      → All IsSound w.manager.subscriptions
      → All IsSound (serve_debug w now).manager.subscriptions
  unfolding serve_debug disconnect_socket
  serve_debug-All w now h = ground (arith, All-rehydrate w.manager.subscriptions h)

  -- With no socket, or when a debug disconnection takes it away, one critical section of a worker that
  -- is not closing and satisfies the invariant completes every removal that waits.
  pub enter_section-IsSettled :
      (w : World J) (now : ℕ)
      → IsWorld w
      → w.manager.closing ≡ false
      → (w.manager.socket ≡ false) ⊎ (w.manager.debug_requested ≡ true)
      → All IsSettled (enter_section w now).manager.subscriptions
  unfolding enter_section
  enter_section-IsSettled w now v open' offline =
      let d = serve_debug w now in
      ground (
        arith,
        serve_debug_offline w now offline,
        sweep-IsSettled d.manager.subscriptions (serve_debug-All w now v.manager_ok.listed.sound),
      )

  -- A Remove that was sent completes its own removal, and is one step of the query set's version.
  pub remove_sent_completes :
      (w : World J) (k now : ℕ) (s : Subscription J)
      → at k w.manager.subscriptions ≡ some s
      → let m = (remove_sent w k none now).manager in
        (at k m.subscriptions ≡ some (removed s))
        × (m.query_set_version ≡ add32 w.manager.query_set_version 1)
  unfolding remove_sent
  remove_sent_completes w k now s e = (at-change_self k removed w.manager.subscriptions s e, refl)

  first_removal-rehydrate :
      (ss : List (Subscription J)) → first_removal (map rehydrate ss) ≡ first_removal ss
  unfolding first_removal
  first_removal-rehydrate [] = refl
  first_removal-rehydrate (s ∷ ss) =
      ground (arith, first_removal-rehydrate ss, length-map rehydrate ss)

  -- If an Add fails while a removal waits, the worker goes on to send the Remove on the socket that it
  -- has just closed: `manager->socket` is NULL when `ws_send_json` is called for it.
  pub add_failed_removes_without_socket :
      (w : World J) (k j now : ℕ) (reason : Bytes)
      → first_removal w.manager.subscriptions ≡ some j
      → let w' = add_sent w k (some reason) now in
        (w'.place ≡ removing j) × (w'.manager.socket ≡ false)
  unfolding add_sent seek_removal disconnect_socket
  add_failed_removes_without_socket w k j now reason e =
      ground (arith, first_removal-rehydrate w.manager.subscriptions)

  -- When that Remove fails too, one broken connection has been counted twice and has advanced the
  -- backoff twice.
  pub add_failed_counts_twice :
      (w : World J) (k j now now' : ℕ) (reason reason' : Bytes)
      → first_removal w.manager.subscriptions ≡ some j
      → let w' = remove_sent (add_sent w k (some reason) now) j (some reason') now' in
        (w'.manager.connection_count ≡ add32 (add32 w.manager.connection_count 1) 1)
        × (w'.backoff ≡ next_backoff (next_backoff w.backoff))
  unfolding add_sent remove_sent seek_removal disconnect_socket
  add_failed_counts_twice w k j now now' reason reason' e =
      ground (arith, first_removal-rehydrate w.manager.subscriptions)

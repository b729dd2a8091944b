-- ===== src/Client/Api/Order.antt =====
-- The invariant over every interleaving of the worker with the public calls.
use the_convex_100_language.Common.{
  ℕ, ◌^◌, ◌≤◌, ◌≡◌, inl, inr, some, List, [], ◌∷◌, length, arith, Bytes, Option-cases,
}
use the_convex_100_language.Client.Json.{JsonLib}
use the_convex_100_language.Client.Live.{Subscription, at, find_subscription}
use the_convex_100_language.Client.Live.Numbering.{find_subscription-at}
use the_convex_100_language.Client.Worker.{World}
use the_convex_100_language.Client.Worker.Invariant.{IsWorld}
use the_convex_100_language.Client.Worker.Steps.{step-IsWorld}
use the_convex_100_language.Client.Api.{new_live}
use the_convex_100_language.Client.Api.System.{
  Event, work, subscribes, unsubscribes, disconnects, reads, closes, closing_wakes, act, run,
}
use the_convex_100_language.Client.Api.Outside.{
  insert-Outside, request_removal-Outside, with_manager-IsWorld, request_disconnect-IsWorld,
  next-IsWorld, request_close-Outside, await_close-IsWorld,
}

module _ {J : Type 0} (json : JsonLib J) (describe : Bytes → Bytes) where
  -- Every critical section of the worker and of the public calls keeps the invariant.
  pub act-IsWorld : (w : World J) (e : Event J) → IsWorld w → IsWorld (act json describe w e)
  unfolding act
  act-IsWorld w (work i) v = step-IsWorld json describe w i v
  act-IsWorld w (subscribes path args) v =
      with_manager-IsWorld w _ (insert-Outside w.manager path args) v
  act-IsWorld w (unsubscribes k) v =
      with_manager-IsWorld w _ (request_removal-Outside w.manager k) v
  act-IsWorld w disconnects v = request_disconnect-IsWorld w v
  act-IsWorld w (reads k late) v = elim (Option-cases (at k w.manager.subscriptions)) [
    | inl e ↦ ground (arith, v)
    | inr (s, e) ↦ ground (arith, next-IsWorld w k s late e v)
  ]
  act-IsWorld w closes v = with_manager-IsWorld w _ (request_close-Outside w.manager) v
  act-IsWorld w (closing_wakes late) v = await_close-IsWorld w late v

  run-IsWorld_from :
      (es : List (Event J)) (w : World J) → IsWorld w → IsWorld (run json describe w es)
  unfolding run
  run-IsWorld_from [] w v = v
  run-IsWorld_from (e ∷ es) w v = run-IsWorld_from es (act json describe w e) (act-IsWorld w e v)

  new_live-IsWorld : IsWorld {J = J} new_live
  unfolding new_live
  new_live-IsWorld = ground arith

  -- After any interleaving of the worker's steps with calls of the public functions, from the state
  -- that `ensure_live` makes: every queue is a ring of at most sixteen updates, a subscription whose
  -- removal is done is inactive, ids and sequence numbers follow the order of creation, a debug
  -- disconnection is completed unless it is still requested, a connected manager has a socket unless
  -- it is closing, the backoff lies between 100 and 15000 ms, and at most 2 MiB wait in the buffer.
  pub run-IsWorld : (es : List (Event J)) → IsWorld (run json describe new_live es)
  run-IsWorld es = run-IsWorld_from es new_live new_live-IsWorld

  -- In every reachable state with at most 2^32 subscriptions an id names exactly one of them.
  pub run_finds :
      (es : List (Event J)) (k : ℕ) (s : Subscription J)
      → length (run json describe new_live es).manager.subscriptions ≤ 2 ^ 32
      → at k (run json describe new_live es).manager.subscriptions ≡ some s
      → find_subscription s.query_id (run json describe new_live es).manager.subscriptions ≡ some k
  run_finds es k s h e =
      (find_subscription-at k _ s (run-IsWorld es).manager_ok.listed.numbered h e).0

-- ===== src/Client/Api/System.antt =====
-- The worker and the callers of the public functions, one critical section at a time, in any order.
use the_convex_100_language.Common.{Bool, Option, none, some, List, [], ◌∷◌, ℕ, Bytes}
use the_convex_100_language.Client.Json.{JsonLib}
use the_convex_100_language.Client.Live.{Manager, at}
use the_convex_100_language.Client.Worker.{World, Input}
use the_convex_100_language.Client.Worker.Loop.{step}
use the_convex_100_language.Client.Api.{
  Result, ok, err, Next, insert, request_removal, request_disconnect, next, request_close,
  await_close,
}

pub data Event (J : Type 0) : Type 0 where
  -- a step of the worker
  work : Input → Event J
  -- the critical section of `convex_subscribe`
  subscribes : Bytes → J → Event J
  -- the first section of `convex_unsubscribe` at a handle
  unsubscribes : ℕ → Event J
  -- the first section of `convex_debug_disconnect`
  disconnects : Event J
  -- a section of `convex_subscription_next` at a handle, and whether its wait timed out
  reads : ℕ → Bool → Event J
  -- the first section of `convex_close`, and a later one
  closes : Event J
  closing_wakes : Bool → Event J

module _ {J : Type 0} where
  abbrev pub with_manager : World J → Manager J → World J
  with_manager w m = record w { manager = m }

  abbrev pub after_disconnect : World J → Result J (Manager J × ℕ) → World J
  after_disconnect w (ok (m, _)) = with_manager w m
  after_disconnect w (err _) = w

  abbrev pub after_next : World J → Option (Next J × Manager J) → World J
  after_next w none = w
  after_next w (some (_, m)) = with_manager w m

  abbrev pub after_close : World J → Option (Result J (Manager J)) → World J
  after_close w none = w
  after_close w (some (ok m)) = with_manager w m
  after_close w (some (err _)) = w

module _ {J : Type 0} (json : JsonLib J) (describe : Bytes → Bytes) where
  unfoldable pub act : World J → Event J → World J
  act w (work i) = step json describe w i
  act w (subscribes path args) = with_manager w (insert w.manager path args)
  act w (unsubscribes k) = with_manager w (request_removal w.manager k).0
  act w disconnects = after_disconnect w (request_disconnect w.manager)
  act w (reads k late) = elim (at k w.manager.subscriptions) [
    | none ↦ w
    | some s ↦ after_next w (next w.manager k s late)
  ]
  act w closes = with_manager w (request_close w.manager)
  act w (closing_wakes late) = after_close w (await_close w.manager late)

  unfoldable pub run : World J → List (Event J) → World J
  run w [] = w
  run w (e ∷ es) = run (act w e) es

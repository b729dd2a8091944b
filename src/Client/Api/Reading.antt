-- ===== src/Client/Api/Reading.antt =====
-- What readers and closers see.
use the_convex_100_language.Common.{
  ℕ, ◌<◌, ◌≡◌, refl, ap, true, false, not, ◌&&◌, Option, some, none, List, [], ◌∷◌, map, length,
  All, arith, if◌then◌else◌,
}
use the_convex_100_language.Client.Queue.{dequeue}
use the_convex_100_language.Client.Queue.Values.{Update}
use the_convex_100_language.Client.Queue.Refine.{
  IsRing, contents, length-contents, dequeue_refines, clear-IsRing,
}
use the_convex_100_language.Client.Live.{Subscription, Manager, at, change}
use the_convex_100_language.Client.Live.Numbering.{at-change_self}
use the_convex_100_language.Client.Worker.Invariant.{IsSound}
use the_convex_100_language.Client.Api.{ok, update, over, next, set_queue, await_close, drain}

module _ {J : Type 0} where
  -- A reader that does not time out gets the oldest update that waits, and leaves the others in their
  -- order, also after the subscription or the client has ended.
  pub next_oldest :
      (m : Manager J) (k : ℕ) (s : Subscription J) (u : Option (Update J))
      (us : List (Option (Update J)))
      → IsRing s.queue
      → at k m.subscriptions ≡ some s
      → contents s.queue ≡ u ∷ us
      → (m' : Manager J) × (t : Subscription J) × (next m k s false ≡ some (update u, m'))
        × (at k m'.subscriptions ≡ some t)
        × (contents t.queue ≡ us)
  unfolding next
  next_oldest m k s u us v e c =
      let f = set_queue (dequeue s.queue).1 in
      let some' : 0 < s.queue.queue_count = omega (arith, length-contents s.queue, ap length c) in
      let parts = dequeue_refines v some' in
      (
        record m { subscriptions = change k f m.subscriptions },
        f s,
        ground (arith, parts),
        at-change_self k f m.subscriptions s e,
        ground (arith, parts),
      )

  -- With an empty queue a reader waits exactly while the subscription is active and the worker runs.
  pub next_empty :
      (m : Manager J) (k : ℕ) (s : Subscription J)
      → contents s.queue ≡ []
      → next m k s false ≡ (if s.active && not m.stopped then none else some (over, m))
  unfolding next
  next_empty m k s c = ground (arith, length-contents s.queue, ap length c)

  drained :
      (ss : List (Subscription J))
      → All IsSound ss
      → All (λ s. contents s.queue ≡ []) (map drain ss)
  drained [] h = tt
  drained (s ∷ ss) h = ((clear-IsRing h.0.ring).1, drained ss h.1)

  -- Once the worker has stopped, a `convex_close` that has not timed out returns with success, the
  -- worker joined and every queue empty, if every queue was a ring of at most sixteen updates.
  pub await_close_drains :
      (m : Manager J)
      → All IsSound m.subscriptions
      → m.stopped ≡ true
      → (m' : Manager J) × (await_close m false ≡ some (ok m'))
        × (m'.worker_joined ≡ true)
        × All (λ s. contents s.queue ≡ []) m'.subscriptions
  unfolding await_close
  await_close_drains m h e = (
    record m { worker_joined = true; subscriptions = map drain m.subscriptions },
    ground arith,
    refl,
    drained m.subscriptions h,
  )

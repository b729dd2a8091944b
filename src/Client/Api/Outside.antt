-- ===== src/Client/Api/Outside.antt =====
-- What the public calls change of the manager.
use the_convex_100_language.Common.{
  ℕ, ◌≡◌, inr, refl, Bool, true, some, List, [], ◌∷◌, map, arith, Bytes, All, add64,
}
use the_convex_100_language.Client.Queue.{dequeue}
use the_convex_100_language.Client.Queue.Refine.{dequeue-IsRing, empty_ring-IsRing}
use the_convex_100_language.Client.Live.{Subscription, Manager, at, change}
use the_convex_100_language.Client.Worker.{World, Place}
use the_convex_100_language.Client.Worker.Invariant.{
  IsSound, IsList, IsManager, IsWorld, PlaceKnows,
}
use the_convex_100_language.Client.Worker.Preserve.{
  IsList-map, IsList-change, set_queue-Keeps, drain-Keeps, pend-Keeps,
}
use the_convex_100_language.Client.Api.{
  new_subscription, insert, request_removal, request_disconnect, next, set_queue, request_close,
  await_close, drain,
}
use the_convex_100_language.Client.Api.System.{
  with_manager, after_disconnect, after_next, after_close,
}

module _ {J : Type 0} where
  -- A change of the manager by another thread.
  pub record Outside (m m' : Manager J) : Type 0 where
    manager_ok : IsManager m → IsManager m'
    knows : (p : Place) → PlaceKnows p m → PlaceKnows p m'

  PlaceKnows-same :
      (m m' : Manager J)
      → m'.socket ≡ m.socket
      → m'.connected ≡ m.connected
      → m'.closing ≡ m.closing
      → (p : Place) → PlaceKnows p m
      → PlaceKnows p m'
  PlaceKnows-same m m' s c l (Place.adding k) h = ground arith
  PlaceKnows-same m m' s c l _ h = ground arith

  pub insert-Outside : (m : Manager J) (path : Bytes) (args : J) → Outside m (insert m path args)
  unfolding insert new_subscription
  insert-Outside m path args = record {
    manager_ok = λ v. record {
      listed = record {
        sound = (
          record { ring = empty_ring-IsRing; done_inactive = λ e. ground arith },
          v.listed.sound,
        );
        numbered = (v.listed.next_id, omega (arith, v.listed.next_seq), v.listed.numbered);
        next_id = omega (arith, v.listed.next_id);
        next_seq = omega (arith, v.listed.next_seq);
      };
      debug = v.debug;
      connection = v.connection;
      leaves_after_close = v.leaves_after_close;
    };
    knows = PlaceKnows-same m (insert m path args) refl refl refl;
  }

  change-Outside :
      (m : Manager J) (k : ℕ) (f : Subscription J → Subscription J)
      → (IsList m.subscriptions m.next_query_id m.next_add_sequence
          → IsList (change k f m.subscriptions) m.next_query_id m.next_add_sequence)
      → Outside m (record m { subscriptions = change k f m.subscriptions })
  change-Outside m k f keep = record {
    manager_ok = λ v. record {
      listed = keep v.listed;
      debug = v.debug;
      connection = v.connection;
      leaves_after_close = v.leaves_after_close;
    };
    knows =
        PlaceKnows-same m (record m { subscriptions = change k f m.subscriptions }) refl refl refl;
  }

  Outside-refl : (m : Manager J) → Outside m m
  Outside-refl m = record { manager_ok = λ v. v; knows = λ p h. h }

  pub request_removal-Outside : (m : Manager J) (k : ℕ) → Outside m (request_removal m k).0
  unfolding request_removal
  request_removal-Outside m k =
      let f = λ (s : Subscription J). record s { remove_pending = true } in
      ground (
        arith,
        Outside-refl m,
        change-Outside m k f (IsList-change k f m.subscriptions _ _ pend-Keeps),
      )

  at-IsSound :
      (k : ℕ) (ss : List (Subscription J)) (s : Subscription J)
      → All IsSound ss
      → at k ss ≡ some s
      → IsSound s
  unfolding at
  at-IsSound k [] s h e = ground arith
  at-IsSound k (t ∷ ss) s h e = ground (arith, at-IsSound k ss s h.1)

  pub with_manager-IsWorld :
      (w : World J) (m : Manager J) → Outside w.manager m → IsWorld w → IsWorld (with_manager w m)
  with_manager-IsWorld w m o v = record {
    manager_ok = o.manager_ok v.manager_ok;
    knows = o.knows w.place v.knows;
    backoff_low = v.backoff_low;
    backoff_high = v.backoff_high;
    buffer = v.buffer;
  }

  requested-Outside :
      (m : Manager J) (generation : ℕ)
      → Outside m (record m { debug_generation = generation; debug_requested = true })
  requested-Outside m generation = record {
    manager_ok = λ v. record {
      listed = v.listed;
      debug = λ e. ground arith;
      connection = v.connection;
      leaves_after_close = v.leaves_after_close;
    };
    knows = PlaceKnows-same m _ refl refl refl;
  }

  pub request_disconnect-IsWorld :
      (w : World J) → IsWorld w → IsWorld (after_disconnect w (request_disconnect w.manager))
  unfolding request_disconnect
  request_disconnect-IsWorld w v = ground (
    arith,
    v,
    with_manager-IsWorld w _ (requested-Outside w.manager (add64 w.manager.debug_generation 1)) v,
  )

  pub next-IsWorld :
      (w : World J) (k : ℕ) (s : Subscription J) (late : Bool)
      → at k w.manager.subscriptions ≡ some s
      → IsWorld w
      → IsWorld (after_next w (next w.manager k s late))
  unfolding next
  next-IsWorld w k s late e v =
      let sound = at-IsSound k w.manager.subscriptions s v.manager_ok.listed.sound e in
      let f = set_queue (dequeue s.queue).1 in
      let keep =
        IsList-change k f w.manager.subscriptions w.manager.next_query_id
          w.manager.next_add_sequence
          (set_queue-Keeps (dequeue s.queue).1 (dequeue-IsRing sound.ring)) in
      ground (
        arith,
        with_manager-IsWorld w w.manager (Outside-refl w.manager) v,
        with_manager-IsWorld w _ (change-Outside w.manager k f keep) v,
      )

  pub request_close-Outside : (m : Manager J) → Outside m (request_close m)
  unfolding request_close
  request_close-Outside m = record {
    manager_ok = λ v. record {
      listed = v.listed;
      debug = v.debug;
      connection = λ e. inr refl;
      leaves_after_close = λ e. refl;
    };
    knows = closed;
  }
    where
      closed : (p : Place) → PlaceKnows p m → PlaceKnows p (record m { closing = true })
      closed Place.dialing h = inr refl
      closed Place.greeting h = (h.0, inr refl)
      closed (Place.snapshot seq) h = (h.0, inr refl)
      closed Place.exiting h = refl
      closed (Place.adding k) h = h
      closed Place.marking h = h
      closed Place.receiving h = h
      closed _ h = tt

  drained-Outside :
      (m : Manager J)
      → Outside m (record m { worker_joined = true; subscriptions = map drain m.subscriptions })
  drained-Outside m = record {
    manager_ok = λ v. record {
      listed = IsList-map drain m.subscriptions _ _ drain-Keeps v.listed;
      debug = v.debug;
      connection = v.connection;
      leaves_after_close = v.leaves_after_close;
    };
    knows = PlaceKnows-same m _ refl refl refl;
  }

  pub await_close-IsWorld :
      (w : World J) (late : Bool) → IsWorld w → IsWorld (after_close w (await_close w.manager late))
  unfolding await_close
  await_close-IsWorld w late v =
      ground (arith, v, with_manager-IsWorld w _ (drained-Outside w.manager) v)

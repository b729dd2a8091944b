-- ===== src/Client/Worker/Preserve.antt =====
-- The changes that the code makes to subscriptions, and the list of them.
use the_convex_100_language.Common.{
  ℕ, ◌≡◌, refl, Bool, true, Option, List, [], ◌∷◌, map, All, All-map, arith, Bytes,
}
use the_convex_100_language.Client.Queue.{Ring, clear}
use the_convex_100_language.Client.Queue.Values.{Update, copy_update}
use the_convex_100_language.Client.Queue.Refine.{IsRing, enqueue-IsRing, clear-IsRing}
use the_convex_100_language.Client.Live.{
  Subscription, Manager, change, enqueue_update, publish_to, publish_error, rehydrate,
  disconnect_socket,
}
use the_convex_100_language.Client.Live.Numbering.{
  Numbered-change, Numbered-map, length-change, length-map,
}
use the_convex_100_language.Client.Worker.Invariant.{IsSound, IsList}
use the_convex_100_language.Client.Worker.Scan.{added, removed, sweep_one, settle_one, deactivate}

module _ {J : Type 0} where
  pub record Keeps (f : Subscription J → Subscription J) : Type 0 where
    pub sound : (s : Subscription J) → IsSound s → IsSound (f s)
    pub numbers :
        (s : Subscription J) → ((f s).query_id ≡ s.query_id) × ((f s).add_sequence ≡ s.add_sequence)

  pub All-change :
      (k : ℕ) (f : Subscription J → Subscription J) (ss : List (Subscription J))
      → ((s : Subscription J) → IsSound s → IsSound (f s))
      → All IsSound ss
      → All IsSound (change k f ss)
  unfolding change
  All-change k f [] keep h = tt
  All-change k f (s ∷ ss) keep h = ground (arith, keep s h.0, All-change k f ss keep h.1)

  pub IsList-map :
      (f : Subscription J → Subscription J) (ss : List (Subscription J)) (id seq : ℕ)
      → Keeps f
      → IsList ss id seq
      → IsList (map f ss) id seq
  IsList-map f ss id seq k l = record {
    sound = All-map IsSound f ss k.sound l.sound;
    numbered = Numbered-map f ss k.numbers l.numbered;
    next_id = omega (arith, length-map f ss, l.next_id);
    next_seq = omega (arith, length-map f ss, l.next_seq);
  }

  pub IsList-change :
      (a : ℕ) (f : Subscription J → Subscription J) (ss : List (Subscription J)) (id seq : ℕ)
      → Keeps f
      → IsList ss id seq
      → IsList (change a f ss) id seq
  IsList-change a f ss id seq k l = record {
    sound = All-change a f ss k.sound l.sound;
    numbered = Numbered-change a f ss k.numbers l.numbered;
    next_id = omega (arith, length-change a f ss, l.next_id);
    next_seq = omega (arith, length-change a f ss, l.next_seq);
  }

  pub enqueue_update-IsSound :
      (u : Update J) (s : Subscription J) → IsSound s → IsSound (enqueue_update s u)
  unfolding enqueue_update
  enqueue_update-IsSound u s h = record {
    ring = enqueue-IsRing (copy_update u) h.ring;
    done_inactive = h.done_inactive;
  }

  enqueue_update_numbers :
      (u : Update J) (s : Subscription J)
      → ((enqueue_update s u).query_id ≡ s.query_id)
        × ((enqueue_update s u).add_sequence ≡ s.add_sequence)
  unfolding enqueue_update
  enqueue_update_numbers u s = (refl, refl)

  pub publish_to-Keeps : (u : Update J) (only : Bool) → Keeps (publish_to u only)
  publish_to-Keeps u only = record {
    sound = λ s h. ground (arith, enqueue_update-IsSound u s h);
    numbers = λ s. ground (arith, enqueue_update_numbers u s);
  }

  pub rehydrate-Keeps : Keeps rehydrate
  rehydrate-Keeps = record { sound = λ s h. ground arith; numbers = λ s. ground arith }

  pub added-Keeps : Keeps added
  added-Keeps = record { sound = λ s h. ground arith; numbers = λ s. ground arith }

  pub removed-Keeps : Keeps removed
  removed-Keeps = record { sound = λ s h. ground arith; numbers = λ s. ground arith }

  pub sweep_one-Keeps : Keeps sweep_one
  sweep_one-Keeps = record { sound = λ s h. ground arith; numbers = λ s. ground arith }

  pub settle_one-Keeps : (seq : ℕ) → Keeps (settle_one seq)
  settle_one-Keeps seq = record { sound = λ s h. ground arith; numbers = λ s. ground arith }

  pub deactivate-Keeps : Keeps deactivate
  deactivate-Keeps = record { sound = λ s h. ground arith; numbers = λ s. ground arith }

  pub set_queue-Keeps : (q : Ring (Update J)) → IsRing q → Keeps (λ s. record s { queue = q })
  set_queue-Keeps q h = record {
    sound = λ s v. record { ring = h; done_inactive = v.done_inactive };
    numbers = λ s. (refl, refl);
  }

  pub drain-Keeps : Keeps (λ s. record s { queue = clear s.queue })
  drain-Keeps = record {
    sound = λ s v. record { ring = (clear-IsRing v.ring).0; done_inactive = v.done_inactive };
    numbers = λ s. (refl, refl);
  }

  pub pend-Keeps : Keeps (λ s. record s { remove_pending = true })
  pend-Keeps = record { sound = λ s h. ground arith; numbers = λ s. ground arith }

  -- The list of a manager under the operations that run over all of it.
  abbrev pub Listed : Manager J → Type 0
  Listed m = IsList m.subscriptions m.next_query_id m.next_add_sequence

  pub disconnect_socket-Listed :
      (m : Manager J) (reason : Option Bytes) → Listed m → Listed (disconnect_socket m reason)
  unfolding disconnect_socket
  disconnect_socket-Listed m reason l = IsList-map rehydrate m.subscriptions _ _ rehydrate-Keeps l

  pub publish_error-Listed :
      (m : Manager J) (name message : Option Bytes) (detail logs : Option J) (only : Bool)
      → Listed m
      → Listed (publish_error m name message detail logs only)
  unfolding publish_error
  publish_error-Listed m name message detail logs only l =
      IsList-map _ m.subscriptions _ _ (publish_to-Keeps _ only) l

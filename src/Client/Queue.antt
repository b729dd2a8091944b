-- ===== src/Client/Queue.antt =====
-- The bounded queue of updates in `struct convex_subscription` of c/client/convex.c: an array of
-- LIVE_QUEUE_CAPACITY slots with a start and a count. A slot is `none` where the code has zeroed it.
pub mod Refine
pub mod Values
use the_convex_100_language.Common.{
  ℕ, zero, suc, ◌+◌, ◌-◌, ◌%◌, Bool, Option, none, some, List, [], ◌∷◌, set, get_or, replicate,
  ◌==◌, if◌then◌else◌,
}

abbrev pub live_queue_capacity : ℕ
live_queue_capacity = 16

pub record Ring (A : Type 0) : Type 0 where
  pub queue : List (Option A)
  pub queue_start : ℕ
  pub queue_count : ℕ

module _ {A : Type 0} where
  -- `calloc` of the subscription
  pub empty_ring : Ring A
  empty_ring = record {
    queue = replicate live_queue_capacity none;
    queue_start = 0;
    queue_count = 0;
  }

  -- The first half of `enqueue_update_locked`: a full queue loses its oldest update. The slot that is
  -- freed by `convex_update_free` is zeroed.
  pub evict : Ring A → Ring A
  evict r =
      if r.queue_count == live_queue_capacity
      then record {
        queue = set r.queue r.queue_start none;
        queue_start = (r.queue_start + 1) % live_queue_capacity;
        queue_count = r.queue_count - 1;
      }
      else r

  pub enqueue : Ring A → A → Ring A
  enqueue r u =
      let e = evict r in
      record e {
        queue = set e.queue ((e.queue_start + e.queue_count) % live_queue_capacity) (some u);
        queue_count = e.queue_count + 1;
      }

  -- The end of `convex_subscription_next`: the oldest update is moved out and its slot zeroed.
  pub dequeue : Ring A → Option A × Ring A
  dequeue r = (
    get_or r.queue r.queue_start none,
    record {
      queue = set r.queue r.queue_start none;
      queue_start = (r.queue_start + 1) % live_queue_capacity;
      queue_count = r.queue_count - 1;
    },
  )

  -- The loop of `convex_close`, from its round `n` on with `left` rounds to go.
  clear_slots : ℕ → ℕ → ℕ → List (Option A) → List (Option A)
  clear_slots start n zero slots = slots
  clear_slots start n (suc left) slots =
      clear_slots start (n + 1) left (set slots ((start + n) % live_queue_capacity) none)

  -- `convex_close` frees the updates that wait, and resets the indices.
  pub clear : Ring A → Ring A
  unfolding clear_slots
  clear r = record {
    queue = clear_slots r.queue_start 0 r.queue_count r.queue;
    queue_start = 0;
    queue_count = 0;
  }

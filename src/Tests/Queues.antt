-- ===== src/Tests/Queues.antt =====
-- The queue of updates.
use the_convex_100_language.Common.{
  ℕ, ◌≡◌, refl, arith, some, none, [], ◌∷◌, ◌++◌, map, set, replicate,
}
use the_convex_100_language.Client.Queue.{Ring}
use the_convex_100_language.Client.Queue.Refine.{
  IsRing, contents, keep_last, enqueue_all, enqueue_all_refines,
}

abbrev one_waits : Ring ℕ
one_waits = record { queue = set (replicate 16 none) 3 (some 5); queue_start = 3; queue_count = 1 }

one_waits-IsRing : IsRing one_waits
one_waits-IsRing = record { slots = refl; start_in = omega arith; count_in = omega arith }

enqueue_all_refines_example :
    contents (enqueue_all one_waits (6 ∷ 7 ∷ []))
    ≡ keep_last (contents one_waits ++ map some (6 ∷ 7 ∷ []))
enqueue_all_refines_example = enqueue_all_refines (6 ∷ 7 ∷ []) one_waits-IsRing

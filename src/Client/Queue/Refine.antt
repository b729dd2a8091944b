-- ===== src/Client/Queue/Refine.antt =====
-- The ring of a subscription against a list that keeps the last sixteen updates.
use the_convex_100_language.Common.{
  ℕ, zero, suc, ◌+◌, ◌-◌, ◌%◌, ◌≤◌, ◌<◌, ◌≡◌, ◌≢◌, refl, sym, ap, ap₂, ◌∙◌, map, append-nil, Option,
  none, some, List, [], ◌∷◌, ◌++◌, append_assoc, length, length-append, length-set, get_or, set,
  drop, drop-append, drop-drop, length-drop, get_or-set_self, get_or-set_ne, ℕ_discrete, arith,
}
use the_convex_100_language.Client.Queue.{
  Ring, empty_ring, evict, enqueue, dequeue, clear_slots, clear,
}

module _ {A : Type 0} where
  pub record IsRing (r : Ring A) : Type 0 where
    pub slots : length r.queue ≡ 16
    pub start_in : r.queue_start < 16
    pub count_in : r.queue_count ≤ 16

  abbrev pub window : List (Option A) → ℕ → ℕ → List (Option A)
  window q start zero = []
  window q start (suc n) = get_or q start none ∷ window q ((start + 1) % 16) n

  -- What waits in the ring, oldest first.
  abbrev pub contents : Ring A → List (Option A)
  contents r = window r.queue r.queue_start r.queue_count

  length-window : (q : List (Option A)) (s n : ℕ) → length (window q s n) ≡ n
  length-window q s zero = refl
  length-window q s (suc n) = ap suc (length-window q ((s + 1) % 16) n)

  pub length-contents : (r : Ring A) → length (contents r) ≡ r.queue_count
  length-contents r = length-window r.queue r.queue_start r.queue_count

  -- A write `d + 1` slots before a window, which ends short of it, is not seen.
  window-set_before :
      (q : List (Option A)) (v : Option A) (i s d n : ℕ)
      → i < 16
      → s ≡ (i + 1 + d) % 16
      → d + n < 16
      → window (set q i v) s n ≡ window q s n
  window-set_before q v i s d zero hi e h = refl
  window-set_before q v i s d (suc n) hi e h =
      ap₂ ◌∷◌ (get_or-set_ne q v none (omega arith))
        (window-set_before q v i ((s + 1) % 16) (d + 1) n hi (omega arith) (omega arith))

  -- A write just past a window extends it.
  window-set_after :
      (q : List (Option A)) (v : Option A) (i s n : ℕ)
      → length q ≡ 16
      → s < 16
      → n < 16
      → i ≡ (s + n) % 16
      → window (set q i v) s (suc n) ≡ window q s n ++ v ∷ []
  window-set_after q v i s zero hq hs hn e =
      let e' : i ≡ s = omega arith in
      rw e' (ap (λ x. x ∷ []) (get_or-set_self q s v none (omega arith)))
  window-set_after q v i s (suc n) hq hs hn e =
      ap₂ ◌∷◌ (get_or-set_ne q v none (omega arith))
        (window-set_after q v i ((s + 1) % 16) n hq (omega arith) (omega arith) (omega arith))

  -- The specification: of what was appended, the last sixteen.
  abbrev pub keep_last : List (Option A) → List (Option A)
  keep_last xs = drop (length xs - 16) xs

  window-drop_one :
      (q : List (Option A)) (s n : ℕ)
      → 0 < n
      → window q ((s + 1) % 16) (n - 1) ≡ drop 1 (window q s n)
  window-drop_one q s zero h = absurd (omega arith)
  window-drop_one q s (suc n) h = ap (window q ((s + 1) % 16)) (omega arith)

  pub evict-IsRing : {r : Ring A} → IsRing r → IsRing (evict r) × ((evict r).queue_count < 16)
  unfolding evict
  evict-IsRing {r} v = ground (arith, length-set r.queue r.queue_start none)

  pub enqueue-IsRing : {r : Ring A} (u : A) → IsRing r → IsRing (enqueue r u)
  unfolding enqueue
  enqueue-IsRing {r} u v =
      let e = evict r in
      ground
        (arith, evict-IsRing v, length-set e.queue ((e.queue_start + e.queue_count) % 16) (some u))

  pub dequeue-IsRing : {r : Ring A} → IsRing r → IsRing (dequeue r).1
  unfolding dequeue
  dequeue-IsRing {r} v = ground (arith, length-set r.queue r.queue_start none)

  evict_full :
      (r : Ring A)
      → r.queue_count ≡ 16
      → evict r ≡ record {
        queue = set r.queue r.queue_start none;
        queue_start = (r.queue_start + 1) % 16;
        queue_count = r.queue_count - 1;
      }
  unfolding evict
  evict_full r e = ground arith

  evict_room : (r : Ring A) → r.queue_count ≢ 16 → evict r ≡ r
  unfolding evict
  evict_room r ne = ground arith

  contents-evict :
      {r : Ring A} → IsRing r → contents (evict r) ≡ drop (r.queue_count - 15) (contents r)
  contents-evict {r} v = elim (ℕ_discrete r.queue_count 16) [
    | yes full ↦
        let one : 1 ≡ r.queue_count - 15 = omega arith in
        rw (evict_full r full) (
          window-set_before r.queue none r.queue_start _ 0 (r.queue_count - 1) v.start_in
            (omega arith) (omega arith)
          ∙ window-drop_one r.queue r.queue_start r.queue_count (omega arith)
          ∙ ap (λ n. drop n (contents r)) one)
    | no room ↦
        let zero' : 0 ≡ r.queue_count - 15 = omega arith in
        rw (evict_room r room) (ap (λ n. drop n (contents r)) zero')
  ]

  -- `enqueue_update_locked` appends its update, and of all that then waits keeps the last sixteen.
  pub enqueue_refines :
      {r : Ring A} (u : A)
      → IsRing r
      → contents (enqueue r u) ≡ keep_last (contents r ++ some u ∷ [])
  unfolding enqueue
  enqueue_refines {r} u v =
      let e = evict r in
      let (w, room) = evict-IsRing v in
      let sizes : r.queue_count - 15 ≡ length (contents r ++ some u ∷ []) - 16 =
        omega (arith, length-append (contents r) (some u ∷ []), length-contents r) in
      let suc' : e.queue_count + 1 ≡ suc e.queue_count = omega arith in
      ap (window (enqueue r u).queue e.queue_start) suc'
      ∙ window-set_after e.queue (some u) _ e.queue_start e.queue_count w.slots w.start_in room refl
      ∙ ap (λ xs. xs ++ some u ∷ []) (contents-evict v)
      ∙ sym (
          drop-append (r.queue_count - 15) (contents r) (some u ∷ [])
            (omega (arith, length-contents r)))
      ∙ ap (λ n. drop n (contents r ++ some u ∷ [])) sizes

  keep_last-append :
      (xs ys : List (Option A)) → keep_last (keep_last xs ++ ys) ≡ keep_last (xs ++ ys)
  keep_last-append xs ys =
      let m = length xs - 16 in
      let cut = keep_last xs ++ ys in
      let sizes : m + (length cut - 16) ≡ length (xs ++ ys) - 16 =
        omega (arith, length-append xs ys, length-append (keep_last xs) ys, length-drop m xs) in
      ap (drop (length cut - 16)) (sym (drop-append m xs ys (omega arith)))
      ∙ drop-drop (length cut - 16) m (xs ++ ys)
      ∙ ap (λ n. drop n (xs ++ ys)) sizes

  abbrev pub enqueue_all : Ring A → List A → Ring A
  enqueue_all r [] = r
  enqueue_all r (u ∷ us) = enqueue_all (enqueue r u) us

  -- However many updates arrive between two reads, what then waits is the last sixteen of what
  -- waited before and all that arrived, in order.
  pub enqueue_all_refines :
      (us : List A) {r : Ring A}
      → IsRing r
      → contents (enqueue_all r us) ≡ keep_last (contents r ++ map some us)
  enqueue_all_refines [] {r} v =
      let zero' : 0 ≡ length (contents r ++ []) - 16 =
        omega (arith, length-append (contents r) [], length-contents r) in
      sym (append-nil (contents r)) ∙ ap (λ n. drop n (contents r ++ [])) zero'
  enqueue_all_refines (u ∷ us) {r} v =
      enqueue_all_refines us (enqueue-IsRing u v)
      ∙ ap (λ xs. keep_last (xs ++ map some us)) (enqueue_refines u v)
      ∙ keep_last-append (contents r ++ some u ∷ []) (map some us)
      ∙ ap keep_last (append_assoc (contents r) (some u ∷ []) (map some us))

  -- `convex_subscription_next` moves out the oldest update and leaves the others in order.
  pub dequeue_refines :
      {r : Ring A}
      → IsRing r
      → 0 < r.queue_count
      → contents r ≡ (dequeue r).0 ∷ contents (dequeue r).1
  unfolding dequeue
  dequeue_refines {r} v h =
      let n = r.queue_count - 1 in
      let count : r.queue_count ≡ suc n = omega arith in
      ap (window r.queue r.queue_start) count
      ∙ ap (◌∷◌ (get_or r.queue r.queue_start none)) (
          sym (
            window-set_before r.queue none r.queue_start ((r.queue_start + 1) % 16) 0 n v.start_in
              (omega arith) (omega arith)))

  length-clear_slots :
      (s n left : ℕ) (q : List (Option A)) → length (clear_slots s n left q) ≡ length q
  unfolding clear_slots
  length-clear_slots s n zero q = refl
  length-clear_slots s n (suc left) q =
      length-clear_slots s (n + 1) left (set q ((s + n) % 16) none)
      ∙ length-set q ((s + n) % 16) none

  pub clear-IsRing : {r : Ring A} → IsRing r → IsRing (clear r) × (contents (clear r) ≡ [])
  unfolding clear
  clear-IsRing {r} v = ground (arith, length-clear_slots r.queue_start 0 r.queue_count r.queue)

  pub empty_ring-IsRing : IsRing empty_ring
  unfolding empty_ring
  empty_ring-IsRing = omega arith

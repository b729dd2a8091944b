-- ===== src/Extension/Buffer.antt =====
-- `buffer_reserve`: the capacity of a buffer that must hold a number of bytes.
use the_convex_100_language.Common.{
  ℕ, zero, suc, ◌+◌, ◌*◌, ◌/◌, ◌≤◌, ◌<◌, ◌≡◌, ◌↔◌, Bool, true, not, Option, none, some, ltb, leb,
  ◌==◌, if◌then◌else◌, arith,
}
use the_convex_100_language.Extension.{max_buffer}

-- The loop that doubles the capacity, with a bound on its rounds.
unfoldable pub grow : ℕ → ℕ → ℕ → ℕ
grow zero next needed = next
grow (suc n) next needed =
    let more = grow n (next * 2) needed in
    if ltb next needed then (if ltb (max_buffer / 2) next then max_buffer else more) else next

-- The new capacity, or `none` for 0. Each round makes the capacity larger, so `needed` rounds are
-- enough. `alloc` tells whether `realloc` succeeds.
unfoldable pub buffer_reserve : ℕ → ℕ → Bool → Option ℕ
buffer_reserve capacity needed alloc =
    let grown = grow needed (if capacity == 0 then 4096 else capacity) needed in
    if ltb max_buffer needed
    then none
    else if leb needed capacity
    then some capacity
    else if not alloc
    then none
    else some grown

grow_enough :
    (n next needed : ℕ)
    → 1 ≤ next
    → needed ≤ next + n
    → needed ≤ max_buffer
    → needed ≤ grow n next needed
unfolding grow
grow_enough zero next needed h e b = omega arith
grow_enough (suc n) next needed h e b = ground (arith, grow_enough n (next * 2) needed)

grow_bounded :
    (n next needed : ℕ) → next ≤ max_buffer → needed ≤ max_buffer → grow n next needed ≤ max_buffer
unfolding grow
grow_bounded zero next needed h b = h
grow_bounded (suc n) next needed h b = ground (arith, grow_bounded n (next * 2) needed)

grow_grows : (n next needed : ℕ) → next ≤ max_buffer → next ≤ grow n next needed
unfolding grow
grow_grows zero next needed h = omega arith
grow_grows (suc n) next needed h = ground (arith, grow_grows n (next * 2) needed)

-- A reservation that succeeds leaves room for the bytes and does not shrink the buffer, and a buffer
-- within CONVEX_MAX_BUFFER stays within it.
pub buffer_reserve_room :
    (capacity needed : ℕ) (alloc : Bool) (c : ℕ)
    → capacity ≤ max_buffer
    → buffer_reserve capacity needed alloc ≡ some c
    → (needed ≤ c) × (capacity ≤ c) × (c ≤ max_buffer)
unfolding buffer_reserve
buffer_reserve_room capacity needed alloc c h e =
    let from = if capacity == 0 then 4096 else capacity in
    ground (
      arith,
      grow_enough needed from needed,
      grow_bounded needed from needed,
      grow_grows needed from needed,
    )

-- With memory it fails exactly for more bytes than CONVEX_MAX_BUFFER.
pub buffer_reserve-none_iff :
    (capacity needed : ℕ) → (buffer_reserve capacity needed true ≡ none) ↔ (max_buffer < needed)
unfolding buffer_reserve
buffer_reserve-none_iff capacity needed = ground arith

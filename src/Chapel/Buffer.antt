-- ===== src/Chapel/Buffer.antt =====
-- `append`: a buffer that grows up to a limit.
use the_convex_100_language.Common.{
  ℕ, zero, suc, ◌+◌, ◌-◌, ◌*◌, ◌/◌, ◌≤◌, ◌<◌, ◌≡◌, refl, Bool, true, false, not, ◌&&◌, ◌||◌, Option,
  none, some, [], ◌++◌, length, length-append, ltb, leb, ◌==◌, if◌then◌else◌, Bytes, arith,
  Bool-cases, inl, inr,
}

-- `struct buffer`; the final NUL is not among the bytes.
pub record Buffer : Type 0 where
  pub bytes : Bytes
  pub capacity : ℕ

abbrev pub empty_buffer : Buffer
empty_buffer = record { bytes = []; capacity = 0 }

-- `while (capacity < wanted && capacity <= limit / 2) capacity *= 2`, with a bound on its rounds.
unfoldable pub grow : ℕ → ℕ → ℕ → ℕ → ℕ
grow zero capacity wanted limit = capacity
grow (suc n) capacity wanted limit =
    let later = grow n (capacity * 2) wanted limit in
    if ltb capacity wanted && leb capacity (limit / 2) then later else capacity

-- The capacity that is asked for. Each round doubles it, so `wanted` rounds are enough.
unfoldable pub new_capacity : ℕ → ℕ → ℕ → ℕ
new_capacity capacity wanted limit =
    let start = if capacity == 0 then 4096 else capacity in
    let grown = grow wanted start wanted limit in
    if ltb capacity wanted then (if ltb grown wanted then wanted else grown) else capacity

-- `none` is the result 0; `alloc` tells whether `realloc` succeeds.
unfoldable pub append : Buffer → Bytes → ℕ → Bool → Option Buffer
append b data_ limit alloc =
    let size = length data_ in
    let wanted = length b.bytes + size + 1 in
    if ltb limit size || ltb (limit - size) (length b.bytes)
    then none
    else if ltb b.capacity wanted && not alloc
    then none
    else some (record { bytes = b.bytes ++ data_; capacity = new_capacity b.capacity wanted limit })

-- The bytes and the NUL fit into the buffer, and the bytes keep the limit.
abbrev pub Fits : ℕ → Buffer → Type 0
Fits limit b = (length b.bytes ≤ limit) × (length b.bytes < b.capacity)

-- The loop has stopped by itself.
grow-Stops :
    (n capacity wanted limit : ℕ)
    → 0 < capacity
    → wanted < capacity + n
    → ltb (grow n capacity wanted limit) wanted && leb (grow n capacity wanted limit) (limit / 2)
      ≡ false
unfolding grow
grow-Stops zero capacity wanted limit p h = ground arith
grow-Stops (suc n) capacity wanted limit p h =
    elim (Bool-cases (ltb capacity wanted && leb capacity (limit / 2))) [
      | inl more ↦
          rw (more, grow) (grow-Stops n (capacity * 2) wanted limit (omega arith) (omega arith))
      | inr done ↦ rw (done, grow, done) refl
    ]

new_capacity-le : (capacity wanted limit : ℕ) → wanted ≤ new_capacity capacity wanted limit
unfolding new_capacity
new_capacity-le capacity wanted limit = ground arith

-- `append` refuses what would exceed the limit; otherwise the bytes stand behind the ones that were
-- there, they keep the limit, and there is room for them and a NUL.
pub append_lem :
    (b : Buffer) (data_ : Bytes) (limit : ℕ) (alloc : Bool)
    → (limit < length b.bytes + length data_ → append b data_ limit alloc ≡ none)
      × ((c : Buffer)
          → append b data_ limit alloc ≡ some c
          → (c.bytes ≡ b.bytes ++ data_) × Fits limit c)
unfolding append
append_lem b data_ limit alloc = (λ over. ground arith, λ c e. filled c e)
  where
    filled :
        (c : Buffer)
        → append b data_ limit alloc ≡ some c
        → (c.bytes ≡ b.bytes ++ data_) × Fits limit c
    filled c e =
        let wanted = length b.bytes + length data_ + 1 in
        let room = new_capacity-le b.capacity wanted limit in
        let joined = length-append b.bytes data_ in
        elim (Bool-cases
          (ltb limit (length data_) || ltb (limit - length data_) (length b.bytes))) [
            | inl over ↦ absurd (ground arith)
            | inr fits ↦ elim (Bool-cases (ltb b.capacity wanted && not alloc)) [
              | inl bad ↦ absurd (ground arith)
              | inr good ↦
                  let c' : c ≡ record {
                    bytes = b.bytes ++ data_;
                    capacity = new_capacity b.capacity wanted limit;
                  } =
                    ground arith in
                  rw c' (refl, (ground arith, omega arith))
            ]
          ]

pub append-fits :
    (b : Buffer) (data_ : Bytes) (limit : ℕ)
    → length b.bytes + length data_ ≤ limit
    → (c : Buffer) × (append b data_ limit true ≡ some c) × (c.bytes ≡ b.bytes ++ data_)
unfolding append
append-fits b data_ limit h =
    let wanted = length b.bytes + length data_ + 1 in
    let fits : ltb limit (length data_) || ltb (limit - length data_) (length b.bytes) ≡ false =
      ground arith in
    let good : ltb b.capacity wanted && false ≡ false = ground arith in
    (
      record { bytes = b.bytes ++ data_; capacity = new_capacity b.capacity wanted limit },
      rw (fits, good) refl,
      refl,
    )

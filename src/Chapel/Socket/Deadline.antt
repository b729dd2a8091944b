-- ===== src/Chapel/Socket/Deadline.antt =====
-- The frame deadline of `ct_ws_receive`.
use the_convex_100_language.Common.{
  ℕ, ◌+◌, ◌≤◌, ◌<◌, ◌≡◌, ◌⊎◌, inl, inr, refl, ◌∙◌, Bool, true, false, not, ◌&&◌, Option, some,
  length, ltb, ◌==◌, if◌then◌else◌, Bytes, arith, Bool-cases, Option-cases,
}
use the_convex_100_language.Chapel.Buffer.{Buffer, append, append_lem}
use the_convex_100_language.Chapel.Utf8.{valid_text_boundary}
use the_convex_100_language.Chapel.Socket.{
  Socket, Meta, Result, idle, waiting, failed, message, Outcome, returned, again, max_ws,
  maybe_yield_idle, is_between, disarm, probe, flag, after_control, deliver, take_chunk, arm,
}

-- What waits is within the limit, and a message that has begun has a deadline.
pub record Guarded (s : Socket) : Type 0 where
  pub small : length s.partial.bytes ≤ max_ws
  pub armed : (is_between s ≡ true) ⊎ (0 < s.frame_deadline_ms)

-- The later state is guarded too, and of a message that has begun the deadline is the same.
pub record Keeps (s t : Socket) : Type 0 where
  pub guarded : Guarded t
  pub begun : is_between s ≡ false → is_between t ≡ false
  pub fixed : is_between s ≡ false → t.frame_deadline_ms ≡ s.frame_deadline_ms

-- A message that is handed over leaves nothing behind.
pub record Empties (bytes : Bytes) (t : Socket) : Type 0 where
  pub between : is_between t ≡ true
  pub disarmed : t.frame_deadline_ms ≡ 0
  pub fits : length bytes ≤ max_ws

abbrev pub ResultKeeps : Socket → Result → Type 0
ResultKeeps s (idle t) = Keeps s t
ResultKeeps s (waiting t) = Keeps s t
ResultKeeps s (failed why t) = Keeps s t
ResultKeeps s (message bytes t) = Empties bytes t

abbrev pub OutcomeKeeps : Socket → Outcome → Type 0
OutcomeKeeps s (returned r) = ResultKeeps s r
OutcomeKeeps s (again t) = Keeps s t

pub Keeps-same : (s : Socket) → Guarded s → Keeps s s
Keeps-same s g = record { guarded = g; begun = λ h. h; fixed = λ h. refl }

pub maybe_yield_idle-Keeps : (s : Socket) (now : ℕ) → Guarded s → Keeps s (maybe_yield_idle s now)
unfolding maybe_yield_idle
maybe_yield_idle-Keeps s now g = elim (Bool-cases (s.frame_deadline_ms == 0)) [
  | inl z ↦ elim (Bool-cases (not (s.last_yield_ms == 0) && ltb now (s.last_yield_ms + 200))) [
    | inl r ↦ simp (z, r) (Keeps-same s g)
    | inr r ↦
        simp (z, r)
          (record {
            guarded = record { small = g.small; armed = g.armed };
            begun = λ h. h;
            fixed = λ h. refl;
          })
  ]
  | inr n ↦ simp n (Keeps-same s g)
]

pub Keeps-trans : (s t u : Socket) → Keeps s t → Keeps t u → Keeps s u
Keeps-trans s t u h k = record {
  guarded = k.guarded;
  begun = λ b. k.begun (h.begun b);
  fixed = λ b. k.fixed (h.begun b) ∙ h.fixed b;
}

pub OutcomeKeeps-trans :
    (s t : Socket) (o : Outcome) → Keeps s t → OutcomeKeeps t o → OutcomeKeeps s o
OutcomeKeeps-trans s t (returned (idle u)) h k = Keeps-trans s t u h k
OutcomeKeeps-trans s t (returned (waiting u)) h k = Keeps-trans s t u h k
OutcomeKeeps-trans s t (returned (failed why u)) h k = Keeps-trans s t u h k
OutcomeKeeps-trans s t (returned (message bytes u)) h k = k
OutcomeKeeps-trans s t (again u) h k = Keeps-trans s t u h k

pub arm-Keeps :
    (s : Socket) (now : ℕ) → Guarded s → Keeps s (arm s now) × (0 < (arm s now).frame_deadline_ms)
arm-Keeps s now g = elim (Bool-cases (s.frame_deadline_ms == 0)) [
  | inl z ↦ simp z (
    record {
      guarded = record { small = g.small; armed = inr (omega arith) };
      begun = λ h. h;
      fixed = λ h. let a = g.armed in absurd (ground arith);
    },
    omega arith,
  )
  | inr n ↦ simp n (
    record {
      guarded = record { small = g.small; armed = g.armed };
      begun = λ h. h;
      fixed = λ h. refl;
    },
    ground arith,
  )
]

-- Between messages the deadline may go.
pub disarm-Keeps : (s : Socket) → Guarded s → Keeps s (if is_between s then disarm s else s)
disarm-Keeps s g = elim (Bool-cases (is_between s)) [
  | inl b ↦ simp b (record {
    guarded = record { small = g.small; armed = inl b };
    begun = λ h. absurd (ground arith);
    fixed = λ h. absurd (ground arith);
  })
  | inr b ↦ simp b (Keeps-same s g)
]

probe-Keeps : (s t : Socket) → Keeps s t → Keeps s (probe t)
probe-Keeps s t h = record {
  guarded = record { small = h.guarded.small; armed = h.guarded.armed };
  begun = h.begun;
  fixed = h.fixed;
}

pub after_control-Keeps :
    (s : Socket) (meta : Option Meta) → Guarded s → Keeps s (after_control s meta)
after_control-Keeps s meta g = elim (Bool-cases (flag (λ m. m.bytesleft == 0) meta)) [
  | inl e ↦ rw e (probe-Keeps s _ (disarm-Keeps s g))
  | inr e ↦ rw e (Keeps-same s g)
]

-- A message whose first data came.
abbrev pub begin : Socket → Socket
begin s = record s { partial_text = true }

begin-Keeps :
    (s : Socket) (partial : Buffer)
    → Guarded s
    → 0 < s.frame_deadline_ms
    → length partial.bytes ≤ max_ws
    → Keeps s (record (begin s) { partial = partial })
begin-Keeps s partial g d fits = record {
  guarded = record { small = fits; armed = inr d };
  begun = λ h. ground arith;
  fixed = λ h. refl;
}

deliver-Keeps : (s : Socket) → Guarded s → OutcomeKeeps s (deliver s)
unfolding deliver
deliver-Keeps s g =
    elim (Bool-cases (valid_text_boundary (some s.partial.bytes) (length s.partial.bytes) true)) [
      | inl v ↦ rw v (record { between = refl; disarmed = refl; fits = g.small })
      | inr v ↦ rw v (Keeps-same s g)
    ]

pub take_chunk-Keeps :
    (s : Socket) (chunk : Bytes) (meta : Option Meta) (alloc : Bool)
    → Guarded s
    → 0 < s.frame_deadline_ms
    → OutcomeKeeps s (take_chunk (begin s) chunk meta alloc)
unfolding take_chunk
take_chunk-Keeps s chunk meta alloc g d =
    elim (Option-cases (append s.partial chunk max_ws alloc)) [
      | inl e ↦ rw (e, take_chunk) (begin-Keeps s s.partial g d g.small)
      | inr (partial, e) ↦
          let filled = (append_lem s.partial chunk max_ws alloc).1 partial e in
          let k = begin-Keeps s partial g d filled.1.0 in
          let t = record (begin s) { partial = partial } in
          elim (Bool-cases (flag (λ m. (m.bytesleft == 0) && not m.cont_flag) meta)) [
            | inl last ↦
                rw (e, take_chunk, last)
                  (OutcomeKeeps-trans s t (deliver t) k (deliver-Keeps t k.guarded))
            | inr more ↦ rw (e, take_chunk, more) (probe-Keeps s t k)
          ]
    ]

-- ===== src/Chapel/Socket/Held.antt =====
-- A call of `ct_ws_receive`, and what it leaves of a message that has begun.
use the_convex_100_language.Common.{
  ℕ, ◌<◌, inl, inr, Bool, ◌||◌, Option, List, [], ◌∷◌, leb, Bytes, Bool-cases,
}
use the_convex_100_language.Chapel.Socket.{
  Socket, Meta, Code, code_ok, code_again, code_failed, Watched, unguarded, fired, came, Round,
  Ready, not_ready, poll_error, is_ready, Result, Outcome, returned, again, flag, nothing_came,
  after_receive, arm, is_late, watch, await, receive_round, receive_rounds, ct_ws_receive,
}
use the_convex_100_language.Chapel.Socket.Deadline.{
  Guarded, Keeps, ResultKeeps, OutcomeKeeps, Keeps-same, maybe_yield_idle-Keeps, OutcomeKeeps-trans,
  arm-Keeps, disarm-Keeps, after_control-Keeps, take_chunk-Keeps,
}

after_receive-Keeps :
    (s : Socket) (code : Code) (chunk : Bytes) (meta : Option Meta) (alloc : Bool)
    → Guarded s
    → 0 < s.frame_deadline_ms
    → OutcomeKeeps s (after_receive s code chunk meta alloc)
unfolding after_receive
after_receive-Keeps s code_again chunk meta alloc g d =
    elim (Bool-cases (nothing_came chunk meta)) [
      | inl e ↦ rw e (disarm-Keeps s g)
      | inr e ↦ rw e (Keeps-same s g)
    ]
after_receive-Keeps s code_failed chunk meta alloc g d = Keeps-same s g
after_receive-Keeps s code_ok chunk meta alloc g d =
    elim (Bool-cases (flag (λ m. m.close_flag) meta)) [
      | inl e ↦ rw e (Keeps-same s g)
      | inr e1 ↦ elim (Bool-cases (flag (λ m. m.ping_flag) meta)) [
        | inl e ↦ rw (e1, e) (after_control-Keeps s meta g)
        | inr e2 ↦ elim (Bool-cases (flag (λ m. m.pong_flag) meta)) [
          | inl e ↦ rw (e1, e2, e) (after_control-Keeps s meta g)
          | inr e3 ↦ elim (Bool-cases (s.partial_text || flag (λ m. m.text_flag) meta)) [
            | inl e ↦ rw (e1, e2, e3, e) (take_chunk-Keeps s chunk meta alloc g d)
            | inr e4 ↦ rw (e1, e2, e3, e4) (Keeps-same s g)
          ]
        ]
      ]
    ]

watch-Keeps :
    (s : Socket) (w : Watched) (alloc : Bool)
    → Guarded s
    → 0 < s.frame_deadline_ms
    → OutcomeKeeps s (watch s w alloc)
unfolding watch
watch-Keeps s unguarded alloc g d = Keeps-same s g
watch-Keeps s fired alloc g d = Keeps-same s g
watch-Keeps s (came code chunk meta) alloc g d = after_receive-Keeps s code chunk meta alloc g d

await-Keeps :
    (s : Socket) (r : Round) (ready : Ready) (go : Outcome)
    → Guarded s
    → OutcomeKeeps s go
    → OutcomeKeeps s (await s r ready go)
await-Keeps s r not_ready go g k = elim (Bool-cases (is_late s r.now_idle)) [
  | inl e ↦ rw e (Keeps-same s g)
  | inr e ↦ rw e (maybe_yield_idle-Keeps s r.now_yield g)
]
await-Keeps s r poll_error go g k = Keeps-same s g
await-Keeps s r is_ready go g k = k

receive_round-Keeps :
    (s : Socket) (deadline_ms : ℕ) (r : Round)
    → Guarded s
    → OutcomeKeeps s (receive_round s deadline_ms r)
unfolding receive_round
receive_round-Keeps s deadline_ms r g =
    let (k, d) = arm-Keeps s r.now_start g in
    let t = arm s r.now_start in
    let receive =
      OutcomeKeeps-trans s t (watch t r.watched r.alloc) k
        (watch-Keeps t r.watched r.alloc k.guarded d) in
    elim (Bool-cases (leb deadline_ms r.now_first)) [
      | inl e ↦ simp e (maybe_yield_idle-Keeps s r.now_yield g)
      | inr e1 ↦ elim (Bool-cases (is_late s r.now_frame)) [
        | inl e ↦ simp (e1, e) (Keeps-same s g)
        | inr e2 ↦ elim (Bool-cases s.may_have_internal) [
          | inl e ↦ simp (e1, e2, e) receive
          | inr e3 ↦
              simp (e1, e2, e3) (await-Keeps s r r.ready (watch t r.watched r.alloc) g receive)
        ]
      ]
    ]

ResultKeeps-trans : (s t : Socket) (r : Result) → Keeps s t → ResultKeeps t r → ResultKeeps s r
ResultKeeps-trans s t r h k = OutcomeKeeps-trans s t (returned r) h k

receive_rounds-Keeps :
    (s : Socket) (deadline_ms : ℕ) (rounds : List Round)
    → Guarded s
    → ResultKeeps s (receive_rounds s deadline_ms rounds)
unfolding receive_rounds
receive_rounds-Keeps s deadline_ms [] g = Keeps-same s g
receive_rounds-Keeps s deadline_ms (r ∷ rounds) g =
    go (receive_round s deadline_ms r) (receive_round-Keeps s deadline_ms r g)
      (λ t k. receive_rounds-Keeps t deadline_ms rounds k.guarded)
  where
    go :
        (o : Outcome)
        → OutcomeKeeps s o
        → ((t : Socket) → Keeps s t → ResultKeeps t (receive_rounds t deadline_ms rounds))
        → ResultKeeps s
            (elim o [ returned result ↦ result | again s' ↦ receive_rounds s' deadline_ms rounds ])
    go (returned result) k later = k
    go (again t) k later = ResultKeeps-trans s t (receive_rounds t deadline_ms rounds) k (later t k)

-- Whatever the clock, the socket and libcurl do in a call of `ct_ws_receive`: the bytes that wait for
-- the rest of their message stay within 2 MiB, and a message that has begun has a deadline, which no
-- later round, ping or call moves before the message is complete; a message that is handed over is
-- within 2 MiB and leaves nothing behind.
pub ct_ws_receive_keeps :
    (s : Socket) (now deadline_ms : ℕ) (rounds : List Round)
    → Guarded s
    → ResultKeeps s (ct_ws_receive s now deadline_ms rounds)
unfolding ct_ws_receive
ct_ws_receive_keeps s now deadline_ms rounds g = elim (Bool-cases s.interrupted) [
  | inl e ↦ simp e (Keeps-same s g)
  | inr e1 ↦ elim (Bool-cases (is_late s now)) [
    | inl e ↦ simp (e1, e) (Keeps-same s g)
    | inr e2 ↦ simp (e1, e2) (receive_rounds-Keeps s deadline_ms rounds g)
  ]
]

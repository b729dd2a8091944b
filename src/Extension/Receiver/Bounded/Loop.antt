-- ===== src/Extension/Receiver/Bounded/Loop.antt =====
-- `do_ws_recv` and CONVEX_MAX_MESSAGE: the loop.
use the_convex_100_language.Common.{
  ℕ, zero, suc, ◌+◌, ◌≡◌, inl, inr, subst, Bool, true, false, none, some, List, [], ◌∷◌, length,
  ltb, if◌then◌else◌, Bytes, arith, Option-cases, Bool-cases,
}
use the_convex_100_language.Extension.{Connection, Status, ok, timeout, eof, error, read_chunk}
use the_convex_100_language.Extension.Buffer.{buffer_reserve}
use the_convex_100_language.Extension.Transport.{
  ReadAttempt, got, ended, wait, read_failed, ready, late, broken, connection_read, fill_pending,
}
use the_convex_100_language.Extension.Frame.{parse_frame}
use the_convex_100_language.Extension.Frame.Fits.{parse_frame_fits}
use the_convex_100_language.Extension.Receiver.{
  io_error, Result, returned, waiting, Round, take_frame, recv_loop, start_clock, no_bytes,
  is_overdue, passes, spoil, do_ws_recv,
}
use the_convex_100_language.Extension.Receiver.Total.{Parsed-cases, Taken-cases}
use the_convex_100_language.Extension.Receiver.Bounded.{
  IsAssembling, IsSmallTaken, IsSmallResult, take_frame-IsSmall,
}

connection_read_keeps :
    (attempts : List ReadAttempt) (c : Connection) (s : Status) (bytes : Bytes) (d : Connection)
    → connection_read c attempts ≡ some (s, bytes, d)
    → (d.frag ≡ c.frag) × (d.frag_opcode ≡ c.frag_opcode)
unfolding connection_read
connection_read_keeps [] c s bytes d e = absurd (ground arith)
connection_read_keeps (got b ∷ rest) c s bytes d e = ground arith
connection_read_keeps (ended ∷ rest) c s bytes d e = ground arith
connection_read_keeps (wait ready ∷ rest) c s bytes d e = connection_read_keeps rest c s bytes d e
connection_read_keeps (wait late ∷ rest) c s bytes d e = ground arith
connection_read_keeps (wait broken ∷ rest) c s bytes d e = ground arith
connection_read_keeps (read_failed ∷ rest) c s bytes d e = ground arith

fill_pending-IsAssembling :
    (attempts : List ReadAttempt) (c : Connection) (alloc : Bool) (s : Status) (d : Connection)
    → fill_pending c alloc attempts ≡ some (s, d)
    → IsAssembling c
    → IsAssembling d
unfolding fill_pending
fill_pending-IsAssembling attempts c alloc s d e a =
    elim (Option-cases (buffer_reserve c.rcap (length c.rbuf + read_chunk) alloc)) [
      | inl full ↦ record {
        frag_in = ground (arith, a.frag_in);
        opcode_in = ground (arith, a.opcode_in);
      }
      | inr (room, e1) ↦ elim (Option-cases (connection_read (record c { rcap = room }) attempts)) [
        | inl none' ↦ absurd (ground arith)
        | inr ((t, bytes, f), e2) ↦
            let kept = connection_read_keeps attempts (record c { rcap = room }) t bytes f e2 in
            record {
              frag_in = ground (arith, a.frag_in, kept);
              opcode_in = ground (arith, a.opcode_in, kept);
            }
      ]
    ]

no_bytes-IsSmall :
    (s : Status) (c : Connection) (now : ℕ) → IsAssembling c → IsSmallResult (no_bytes s c now)
no_bytes-IsSmall ok c now a = (tt, a)
no_bytes-IsSmall eof c now a = (tt, a)
no_bytes-IsSmall error c now a = (tt, a)
no_bytes-IsSmall timeout c now a = elim (Bool-cases (is_overdue c now)) [
  | inl late' ↦ rw late' (tt, record { frag_in = a.frag_in; opcode_in = a.opcode_in })
  | inr early ↦ rw early (tt, a)
]

recv_loop-IsSmall :
    (n : ℕ) (c : Connection) (rounds : List Round) (alloc : Bool) (now : ℕ)
    → IsAssembling c
    → IsSmallResult (recv_loop n c rounds alloc now)
unfolding recv_loop
recv_loop-IsSmall zero c rounds alloc now a = tt
recv_loop-IsSmall (suc n) c rounds alloc now a =
    elim (Parsed-cases (parse_frame c.rbuf c.server_role)) [
      | inr (inl bad) ↦
          rw (bad, recv_loop) (tt, record { frag_in = a.frag_in; opcode_in = a.opcode_in })
      | inl part ↦
          rw (part, recv_loop)
            (elim rounds
              as (λ rs. IsSmallResult (elim rs [
                | [] ↦ waiting c
                | r ∷ rest ↦ elim (fill_pending c alloc r.attempts) [
                  | none ↦ waiting c
                  | some (ok, d) ↦ recv_loop n (start_clock d r.now) rest alloc r.now
                  | some (s, d) ↦ no_bytes s d r.now
                ]
              ])) [
                | [] ↦ a
                | r ∷ rs ↦ elim (Option-cases (fill_pending c alloc r.attempts)) [
                  | inl blocked ↦ rw blocked a
                  | inr ((ok, d), f) ↦
                      let b = fill_pending-IsAssembling r.attempts c alloc ok d f a in
                      rw f (
                        recv_loop-IsSmall n (start_clock d r.now) rs alloc r.now
                          (record { frag_in = b.frag_in; opcode_in = b.opcode_in }))
                  | inr ((timeout, d), f) ↦ rw f (
                      no_bytes-IsSmall timeout d r.now
                        (fill_pending-IsAssembling r.attempts c alloc timeout d f a))
                  | inr ((eof, d), f) ↦ rw f (
                      no_bytes-IsSmall eof d r.now
                        (fill_pending-IsAssembling r.attempts c alloc eof d f a))
                  | inr ((error, d), f) ↦ rw f (
                      no_bytes-IsSmall error d r.now
                        (fill_pending-IsAssembling r.attempts c alloc error d f a))
                ]
              ])
      | inr (inr (fin, opcode, offset, size, rbuf, p)) ↦
          let b = record c { rbuf = rbuf } in
          let (low, in', same', legal) =
            parse_frame_fits c.rbuf c.server_role fin opcode offset size rbuf p in
          let t =
            take_frame-IsSmall b fin opcode offset size alloc now
              (record { frag_in = a.frag_in; opcode_in = a.opcode_in }) legal in
          elim (Taken-cases (take_frame b fin opcode offset size alloc now)) [
            | inl (r, d, e) ↦ rw (p, e, recv_loop) (subst IsSmallTaken e t.small)
            | inr (d, e) ↦
                rw (p, e, recv_loop)
                  (recv_loop-IsSmall n d rounds alloc now (subst IsSmallTaken e t.small))
          ]
    ]

one_of_three :
    (f g : Bool) (x y z : Result)
    → IsSmallResult x
    → IsSmallResult y
    → IsSmallResult z
    → IsSmallResult (if f then x else if g then y else z)
one_of_three true g x y z p q r = p
one_of_three false true x y z p q r = q
one_of_three false false x y z p q r = r

-- Whatever the peer sends, a message that a call hands out is within CONVEX_MAX_MESSAGE and a text or
-- binary one, and what the reassembly buffer keeps for the next call is within it too, if it was before
-- the call.
pub do_ws_recv_bounded :
    (c : Connection) (rounds : List Round) (alloc : Bool) (now : ℕ)
    → IsAssembling c
    → IsSmallResult (do_ws_recv c rounds alloc now)
unfolding do_ws_recv
do_ws_recv_bounded c rounds alloc now a =
    let begun = if ltb 0 (length c.rbuf) then start_clock c now else c in
    let b : IsAssembling begun = record {
      frag_in = ground (arith, a.frag_in);
      opcode_in = ground (arith, a.opcode_in);
    } in
    one_of_three c.failed (is_overdue begun now) (returned io_error c)
      (returned io_error (spoil begun)) (recv_loop (suc (passes c rounds)) begun rounds alloc now)
      (tt, a) (tt, record { frag_in = b.frag_in; opcode_in = b.opcode_in })
      (recv_loop-IsSmall (suc (passes c rounds)) begun rounds alloc now b)

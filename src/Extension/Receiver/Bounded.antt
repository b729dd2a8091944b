-- ===== src/Extension/Receiver/Bounded.antt =====
-- `do_ws_recv` and CONVEX_MAX_MESSAGE: one frame.
pub mod Loop
use the_convex_100_language.Common.{
  ℕ, zero, suc, ◌+◌, ◌-◌, ◌*◌, get_or, ◌≤◌, ◌<◌, ◌≡◌, ◌≢◌, ◌⊎◌, inl, inr, refl, sym, ap, ◌∙◌, subst,
  Bool, true, false, not, ◌&&◌, ◌||◌, Option, none, some, List, [], ◌∷◌, ◌++◌, length,
  length-append, take, drop, length-take, ltb, leb, ◌==◌, if◌then◌else◌, Bytes, arith, Option-cases,
  Bool-cases,
}
use the_convex_100_language.Extension.{
  Connection, Status, ok, timeout, eof, error, max_message, read_chunk,
}
use the_convex_100_language.Extension.Buffer.{buffer_reserve}
use the_convex_100_language.Extension.Transport.{
  ReadAttempt, got, ended, wait, read_failed, Ready, ready, late, broken, connection_read,
  fill_pending, consume_pending,
}
use the_convex_100_language.Extension.Frame.{
  Parsed, incomplete, violation, complete, parse_frame, is_legal,
}
use the_convex_100_language.Extension.Frame.Fits.{parse_frame_fits}
use the_convex_100_language.Extension.Receiver.{
  Reply, message, ping, pong, closing, timed_out, at_end, protocol_error, io_error, Result,
  returned, waiting, out_of_fuel, Round, Taken, reply, more, take_close, take_fragment, take_frame,
  recv_loop, start_clock, no_bytes, is_bad_code, is_overdue, passes, restart_clock, spoil,
  after_control, do_ws_recv,
}
use the_convex_100_language.Extension.Receiver.Total.{
  consume_pending_lem, Parsed-cases, Taken-cases,
}

-- The reassembly buffer is within the bound, and holds a text, a binary message or nothing.
pub record IsAssembling (c : Connection) : Type 0 where
  pub frag_in : length c.frag ≤ max_message
  pub opcode_in : c.frag_opcode ≤ 2

-- A message has an opcode of data and is within the bound.
abbrev pub IsSmall : Reply → Type 0
IsSmall (message opcode bytes) = (length bytes ≤ max_message) × (1 ≤ opcode) × (opcode ≤ 2)
IsSmall _ = Unit

abbrev pub IsSmallTaken : Taken → Type 0
IsSmallTaken (reply r d) = IsSmall r × IsAssembling d
IsSmallTaken (more d) = IsAssembling d

abbrev pub IsSmallResult : Result → Type 0
IsSmallResult (returned r d) = IsSmall r × IsAssembling d
IsSmallResult (waiting d) = IsAssembling d
IsSmallResult out_of_fuel = Unit

-- The same, shut, to prove it of a conditional.
pub record Small (t : Taken) : Type 0 where
  pub small : IsSmallTaken t

either-IsSmall :
    (b : Bool) (x y : Taken)
    → (b ≡ true → Small x)
    → (b ≡ false → Small y)
    → Small (if b then x else y)
either-IsSmall true x y f g = f refl
either-IsSmall false x y f g = g refl

take_fragment-IsSmall :
    (fin : Bool) (payload : Bytes) (c : Connection) (count : ℕ) (alloc : Bool) (now : ℕ)
    → length c.frag ≤ max_message
    → 1 ≤ c.frag_opcode
    → c.frag_opcode ≤ 2
    → IsSmallTaken (take_fragment fin payload c count alloc now)
unfolding take_fragment
take_fragment-IsSmall fin payload c count alloc now h l u =
    let kept : IsAssembling c = record { frag_in = h; opcode_in = u } in
    elim (Bool-cases (ltb max_message (length c.frag + length payload))) [
      | inl over ↦ rw over (tt, record { frag_in = h; opcode_in = u })
      | inr fits ↦
          elim (Option-cases
            (buffer_reserve c.frag_cap (length c.frag + length payload + 1) alloc)) [
              | inl full ↦ rw (fits, full) (tt, record { frag_in = h; opcode_in = u })
              | inr (room, r) ↦
                  let joined = record c { frag = c.frag ++ payload; frag_cap = room } in
                  let sum : length (c.frag ++ payload) ≤ max_message =
                    ground (arith, length-append c.frag payload) in
                  rw (fits, r, consume_pending_lem joined count) (whole _ _ fin sum)
            ]
    ]
  where
    whole :
        (rbuf : Bytes) (room : ℕ) (f : Bool)
        → length (c.frag ++ payload) ≤ max_message
        → let d = record c { frag = c.frag ++ payload; frag_cap = room; rbuf = rbuf } in
          IsSmallTaken (
            if f
            then reply
                (message d.frag_opcode d.frag)
                (restart_clock (record d { frag_opcode = 0; frag = [] }) now)
            else more d)
    whole rbuf room true sum =
        ((sum, l, u), record { frag_in = omega arith; opcode_in = omega arith })
    whole rbuf room false sum = record { frag_in = sum; opcode_in = u }

take_close-IsSmall :
    (payload : Bytes) (c : Connection) (now : ℕ) → IsAssembling c → Small (take_close payload c now)
unfolding take_close
take_close-IsSmall payload c now a =
    let kept : Small (reply protocol_error (spoil c)) = record {
      small = (tt, record { frag_in = a.frag_in; opcode_in = a.opcode_in });
    } in
    let closed : IsAssembling (restart_clock c now) = record {
      frag_in = a.frag_in;
      opcode_in = a.opcode_in;
    } in
    let ends : (code : ℕ) (text : Bytes) → Small (reply (closing code text) (restart_clock c now)) =
      λ code text. record { small = (tt, closed) } in
    either-IsSmall ((length payload == 1) || ltb 125 (length payload)) _ _ (λ _. kept)
      (λ _.
        either-IsSmall (leb 2 (length payload)) _ _
          (λ _.
            either-IsSmall (is_bad_code (get_or payload 0 0 * 256 + get_or payload 1 0)) _ _
              (λ _. kept) (λ _. ends _ _))
          (λ _. ends _ _))

after_control-IsAssembling :
    (c : Connection) (now : ℕ) → IsAssembling c → IsAssembling (after_control c now)
after_control-IsAssembling c now a = record {
  frag_in = ground (arith, a.frag_in);
  opcode_in = ground (arith, a.opcode_in);
}

consume_pending-IsAssembling :
    (c : Connection) (count : ℕ) → IsAssembling c → IsAssembling (consume_pending c count)
consume_pending-IsAssembling c count a =
    rw (consume_pending_lem c count) (record { frag_in = a.frag_in; opcode_in = a.opcode_in })

pub take_frame-IsSmall :
    (c : Connection) (fin : Bool) (opcode offset size : ℕ) (alloc : Bool) (now : ℕ)
    → IsAssembling c
    → is_legal fin opcode size ≡ true
    → Small (take_frame c fin opcode offset size alloc now)
unfolding take_frame
take_frame-IsSmall c fin opcode offset size alloc now a legal =
    let payload = take size (drop offset c.rbuf) in
    let rest = consume_pending c (offset + size) in
    let clean : IsAssembling rest = consume_pending-IsAssembling c (offset + size) a in
    let controlled = after_control-IsAssembling rest now clean in
    let short : length payload ≤ max_message =
      ground (arith, length-take size (drop offset c.rbuf)) in
    let spoilt : Small (reply protocol_error (spoil c)) = record {
      small = (tt, record { frag_in = a.frag_in; opcode_in = a.opcode_in });
    } in
    either-IsSmall (opcode == 9) _ _ (λ _. record { small = (tt, controlled) })
      (λ _.
        either-IsSmall (opcode == 10) _ _ (λ _. record { small = (tt, controlled) })
          (λ _.
            either-IsSmall (opcode == 8) _ _ (λ _. take_close-IsSmall payload rest now clean)
              (λ _.
                either-IsSmall ((opcode == 1) || (opcode == 2)) _ _
                  (λ (data' : ((opcode == 1) || (opcode == 2)) ≡ true).
                    either-IsSmall (not (c.frag_opcode == 0)) _ _ (λ _. spoilt)
                      (λ _.
                        either-IsSmall fin _ _
                          (λ _. record {
                            small = (
                              (short, ground arith, ground arith),
                              record { frag_in = clean.frag_in; opcode_in = clean.opcode_in },
                            );
                          })
                          (λ _. record {
                            small =
                                take_fragment-IsSmall fin payload
                                  (record c { frag_opcode = opcode; frag = [] }) (offset + size)
                                  alloc now (omega arith) (ground arith) (ground arith);
                          })))
                  (λ _.
                    either-IsSmall (c.frag_opcode == 0) _ _ (λ _. spoilt)
                      (λ (started : (c.frag_opcode == 0) ≡ false). record {
                        small =
                            take_fragment-IsSmall fin payload c (offset + size) alloc now a.frag_in
                              (ground arith) a.opcode_in;
                      })))))

-- ===== src/Extension/Receiver/Whole.antt =====
-- A whole fragmented message through one call of `do_ws_recv`.
use the_convex_100_language.Common.{
  ℕ, suc, ◌+◌, ◌≤◌, ◌<◌, ◌≡◌, ◌⊎◌, ap, subst, ◌∙◌, Bool, true, false, some, if◌then◌else◌, zero,
  List, [], ◌∷◌, ◌++◌, length, length-append, All, ltb, Bytes, arith,
}
use the_convex_100_language.Extension.{Connection, ok, max_message, frame_deadline_ms}
use the_convex_100_language.Extension.Writer.{frame_bytes, is_sendable}
use the_convex_100_language.Extension.Frame.{incomplete, parse_frame}
use the_convex_100_language.Extension.Transport.{fill_pending}
use the_convex_100_language.Extension.Receiver.Total.{passes-fill, fill_pending_bytes}
use the_convex_100_language.Extension.Receiver.{
  bytes_of, Round, recv_loop, passes, start_clock, is_overdue, do_ws_recv,
}
use the_convex_100_language.Extension.Receiver.Reassembly.{
  IsFrame, Faces, Gives, middle, payloads, joined, frame_parts, take_frame_first, recv_loop_frame,
  recv_rest,
}

frame_bytes_longer :
    (server_role fin : Bool) (opcode : ℕ) (mask payload : Bytes)
    → 1 ≤ length (frame_bytes server_role fin opcode mask payload)
unfolding frame_bytes
frame_bytes_longer server_role fin opcode mask payload = omega arith

middle_longer :
    (server_role : Bool) (ps : List (Bytes × Bytes)) → length ps ≤ length (middle server_role ps)
middle_longer server_role [] = omega arith
middle_longer server_role ((mask, payload) ∷ ps) = omega (
  arith,
  middle_longer server_role ps,
  length-append (frame_bytes server_role false 0 mask payload) (middle server_role ps),
  frame_bytes_longer server_role false 0 mask payload,
)

passes_longer : (c : Connection) (rounds : List Round) → length c.rbuf ≤ passes c rounds
passes_longer c [] = omega arith
passes_longer c (r ∷ rs) = omega (arith, passes_longer c rs)

-- The connection at the start of the loop.
abbrev pub begun_at : Connection → ℕ → Connection
begun_at c now = if ltb 0 (length c.rbuf) then start_clock c now else c

do_ws_recv_starts :
    (c : Connection) (rounds : List Round) (now : ℕ)
    → c.failed ≡ false
    → is_overdue (begun_at c now) now ≡ false
    → do_ws_recv c rounds true now
      ≡ recv_loop (suc (passes c rounds)) (begun_at c now) rounds true now
unfolding do_ws_recv
do_ws_recv_starts c rounds now sound early = ground arith

begun_in_time :
    (c : Connection) (now : ℕ)
    → (c.frame_started_ms ≡ 0) ⊎ (now < c.frame_started_ms + frame_deadline_ms)
    → is_overdue (begun_at c now) now ≡ false
begun_in_time c now early = ground arith

begun-rbuf : (c : Connection) (now : ℕ) → (begun_at c now).rbuf ≡ c.rbuf
begun-rbuf c now = ground arith

-- The rounds in which bytes arrive while the buffer holds no whole frame yet: from `c` to `d`.
abbrev pub Arrives : Connection → List Round → Connection → Type 0
Arrives c [] d = c ≡ d
Arrives c (r ∷ rs) d =
    (parse_frame c.rbuf c.server_role ≡ incomplete)
    × ((e : Connection) × (fill_pending c true r.attempts ≡ some (ok, e))
        × Arrives (start_clock e r.now) rs d)

abbrev pub last_now : ℕ → List Round → ℕ
last_now now [] = now
last_now now (r ∷ rs) = last_now r.now rs

recv_loop-Arrives :
    (rs : List Round) (n : ℕ) (c d : Connection) (later : List Round) (now : ℕ)
    → Arrives c rs d
    → passes c (rs ++ later) < n
    → (m : ℕ) × (passes d later < m)
      × (recv_loop n c (rs ++ later) true now ≡ recv_loop m d later true (last_now now rs))
unfolding recv_loop
recv_loop-Arrives [] n c d later now e h =
    (n, subst (λ x. passes x later < n) e h, ap (λ x. recv_loop n x later true now) e)
recv_loop-Arrives (r ∷ rs) zero c d later now a h = absurd (omega arith)
recv_loop-Arrives (r ∷ rs) (suc n) c d later now (p, (e, f, a)) h =
    let b = start_clock e r.now in
    let grown : length b.rbuf ≤ length c.rbuf + bytes_of r.attempts =
      fill_pending_bytes r.attempts c true ok e f in
    let fewer = passes-fill c b (rs ++ later) (bytes_of r.attempts) grown in
    let (m, enough, same) = recv_loop-Arrives rs n b d later r.now a (omega arith) in
    (m, enough, rw (p, f, recv_loop) same)

-- The loop at a buffer that holds the whole message.
recv_whole :
    (n : ℕ) (c : Connection) (rounds : List Round) (now : ℕ) (server_role : Bool) (opcode : ℕ)
    (first last : Bytes × Bytes) (ps : List (Bytes × Bytes)) (rest : Bytes)
    → passes c rounds < n
    → (opcode ≡ 1) ⊎ (opcode ≡ 2)
    → IsFrame first
    → All IsFrame ps
    → IsFrame last
    → length first.1 + (length (payloads ps) + length last.1) ≤ max_message
    → c.frag_opcode ≡ 0
    → Faces c server_role (
        frame_bytes server_role false opcode first.0 first.1
        ++ (middle server_role ps ++ (frame_bytes server_role true 0 last.0 last.1 ++ rest)))
    → Gives (recv_loop n c rounds true now) opcode (first.1 ++ (payloads ps ++ last.1)) rest
recv_whole zero c rounds now server_role opcode first last ps rest fuel o f1 fs f2 h idle faces =
    absurd (omega arith)
recv_whole (suc n) c rounds now server_role opcode first last ps rest fuel o f1 fs f2 h idle faces =
    let head = frame_bytes server_role false opcode first.0 first.1 in
    let tail = frame_bytes server_role true 0 last.0 last.1 ++ rest in
    let behind = middle server_role ps ++ tail in
    let long : length ps < length c.rbuf = omega (
      arith,
      ap length faces.1,
      length-append head behind,
      length-append (middle server_role ps) tail,
      middle_longer server_role ps,
      frame_bytes_longer server_role false opcode first.0 first.1,
    ) in
    let size_of = passes_longer c rounds in
    let sends : is_sendable false opcode (length first.1) ≡ true = ground arith in
    let (offset, size, rbuf, p, t, r) =
      frame_parts false server_role opcode first.0 first.1 behind c f1 sends faces.0 faces.1 in
    let (room, g) =
      take_frame_first opcode first.1 (record c { rbuf = rbuf }) offset size now t idle o
        (omega (arith, h)) in
    let j : Connection =
      joined (record c { rbuf = rbuf; frag_opcode = opcode; frag = [] }) first.1 (offset + size)
        room in
    let step = recv_loop_frame n c rounds now false opcode offset size rbuf _ p g in
    let (d, d1, d2, d3) =
      recv_rest ps n server_role last.0 last.1 rest j rounds now (omega arith) fs f2 (faces.0, r)
        (ground arith) (omega (arith, h)) in
    (d, step ∙ d1, d2, d3)

-- A message that the peer wrote as a first frame, any number of continuation frames and a last one,
-- with any masks, is handed out by one call as the concatenation of the payloads under the first
-- frame's opcode. It may have waited in the receive buffer, or arrive in any number of reads, as long as
-- the buffer holds no whole frame before the last of them and the whole message after it. The message
-- has at most CONVEX_MAX_MESSAGE bytes, there is memory, the connection has not failed, no other message
-- is underway, no read ends or fails, and the frame deadline has not passed when the call starts. The
-- bytes behind the message go on waiting.
pub do_ws_recv_reassembles :
    (c d : Connection) (before later : List Round) (now : ℕ) (server_role : Bool) (opcode : ℕ)
    (first last : Bytes × Bytes) (ps : List (Bytes × Bytes)) (rest : Bytes)
    → (opcode ≡ 1) ⊎ (opcode ≡ 2)
    → IsFrame first
    → All IsFrame ps
    → IsFrame last
    → length first.1 + (length (payloads ps) + length last.1) ≤ max_message
    → c.failed ≡ false
    → (c.frame_started_ms ≡ 0) ⊎ (now < c.frame_started_ms + frame_deadline_ms)
    → Arrives (begun_at c now) before d
    → d.frag_opcode ≡ 0
    → Faces d server_role (
        frame_bytes server_role false opcode first.0 first.1
        ++ (middle server_role ps ++ (frame_bytes server_role true 0 last.0 last.1 ++ rest)))
    → Gives
        (do_ws_recv c (before ++ later) true now)
        opcode
        (first.1 ++ (payloads ps ++ last.1))
        rest
do_ws_recv_reassembles c d before later now server_role opcode first last ps rest o f1 fs f2 h sound
      early arrives idle faces =
    let rounds = before ++ later in
    let starts = do_ws_recv_starts c rounds now sound (begun_in_time c now early) in
    let size : length (begun_at c now).rbuf ≤ length c.rbuf + 0 =
      omega (arith, ap length (begun-rbuf c now)) in
    let fuel = passes-fill c (begun_at c now) rounds 0 size in
    let (m, enough, same) =
      recv_loop-Arrives before (suc (passes c rounds)) (begun_at c now) d later now arrives
        (omega arith) in
    let (e, e1, e2, e3) =
      recv_whole m d later (last_now now before) server_role opcode first last ps rest enough o f1
        fs f2 h idle faces in
    (e, starts ∙ same ∙ e1, e2, e3)

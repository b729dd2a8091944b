-- ===== src/Extension/Frame/Fits.antt =====
-- Where a frame lies in the pending bytes.
use the_convex_100_language.Common.{
  ℕ, ◌+◌, ◌/◌, ◌%◌, ◌≤◌, ◌<◌, ◌≡◌, ◌⊎◌, inl, inr, refl, Bool, true, false, not, length, get_or,
  take, drop, ◌==◌, Bytes, arith,
}
use the_convex_100_language.Common.Rules.{lengths}
use the_convex_100_language.Extension.{max_buffer, read_chunk}
use the_convex_100_language.Extension.Bits.{length-apply_mask}
use the_convex_100_language.Extension.Frame.{
  incomplete, complete, Sized, short, illegal, sized, read_length, is_legal, read_payload,
  parse_frame,
}

-- A header is at most ten bytes, and the length field is within the bound once the frame is legal.
read_length_header :
    (rbuf : Bytes) (second header size : ℕ)
    → read_length rbuf second ≡ sized header size
    → header ≤ 10
unfolding read_length
read_length_header rbuf second header size e = ground arith

read_length_short : (r : Bytes) (second : ℕ) → read_length r second ≡ short → length r < 10
unfolding read_length
read_length_short r second q = ground arith

Sized-cases : (s : Sized) → (s ≡ short) ⊎ (s ≡ illegal) ⊎ ((h : ℕ) × (n : ℕ) × (s ≡ sized h n))
Sized-cases short = inl refl
Sized-cases illegal = inr (inl refl)
Sized-cases (sized h n) = inr (inr (h, n, refl))

read_payload_incomplete :
    (rbuf : Bytes) (server_role fin : Bool) (opcode header size : ℕ)
    → read_payload rbuf server_role fin opcode header size ≡ incomplete
    → length rbuf < header + 4 + size
unfolding read_payload
read_payload_incomplete rbuf true fin opcode header size e = ground arith
read_payload_incomplete rbuf false fin opcode header size e = ground arith

-- A frame that is not complete yet leaves room for one more read: the receive buffer is never
-- exhausted in the middle of a frame.
pub parse_frame_room :
    (rbuf : Bytes) (server_role : Bool)
    → parse_frame rbuf server_role ≡ incomplete
    → length rbuf + read_chunk ≤ max_buffer
unfolding parse_frame
parse_frame_room rbuf server_role e = elim (Sized-cases (read_length rbuf (get_or rbuf 1 0))) [
  | inl s ↦ ground (arith, read_length_short rbuf (get_or rbuf 1 0))
  | inr (inl s) ↦ ground arith
  | inr (inr (h, n, s)) ↦ ground (
    arith,
    read_length_header rbuf (get_or rbuf 1 0) h n s,
    read_payload_incomplete rbuf server_role (not (get_or rbuf 0 0 / 128 % 2 == 0))
        (get_or rbuf 0 0 % 16) h n,
  )
]

read_length_low :
    (rbuf : Bytes) (second header size : ℕ)
    → read_length rbuf second ≡ sized header size
    → 2 ≤ header
unfolding read_length
read_length_low rbuf second header size e = ground arith

read_payload_fits :
    (rbuf : Bytes) (server_role fin fin' : Bool) (opcode opcode' header size offset size' : ℕ)
    (buf : Bytes)
    → read_payload rbuf server_role fin opcode header size ≡ complete fin' opcode' offset size' buf
    → (header ≤ offset)
      × (offset + size' ≤ length rbuf)
      × (length buf ≡ length rbuf)
      × (fin' ≡ fin)
      × (opcode' ≡ opcode)
      × (size' ≡ size)
unfolding read_payload
read_payload_fits rbuf false fin fin' opcode opcode' header size offset size' buf e = ground arith
read_payload_fits rbuf true fin fin' opcode opcode' header size offset size' buf e =
    let mask = take 4 (drop header rbuf) in
    let masked = take size (drop (header + 4) rbuf) in grind (arith, lengths, length-apply_mask)

-- A complete frame lies within the pending bytes, has a header of at least two bytes and is legal.
pub parse_frame_fits :
    (rbuf : Bytes) (server_role fin : Bool) (opcode offset size : ℕ) (buf : Bytes)
    → parse_frame rbuf server_role ≡ complete fin opcode offset size buf
    → (2 ≤ offset)
      × (offset + size ≤ length rbuf)
      × (length buf ≡ length rbuf)
      × (is_legal fin opcode size ≡ true)
unfolding parse_frame
parse_frame_fits rbuf server_role fin opcode offset size buf e =
    let f = not (get_or rbuf 0 0 / 128 % 2 == 0) in
    elim (Sized-cases (read_length rbuf (get_or rbuf 1 0))) [
      | inl s ↦ absurd (ground arith)
      | inr (inl s) ↦ absurd (ground arith)
      | inr (inr (h, n, s)) ↦
          let p : read_payload rbuf server_role f (get_or rbuf 0 0 % 16) h n
              ≡ complete fin opcode offset size buf =
            ground arith in
          let l : is_legal f (get_or rbuf 0 0 % 16) n ≡ true = ground arith in
          let (a, b, c, d1, d2, d3) =
            read_payload_fits rbuf server_role f fin (get_or rbuf 0 0 % 16) opcode h n offset size
              buf p in
          let low = read_length_low rbuf (get_or rbuf 1 0) h n s in
          (omega arith, b, c, ground arith)
    ]

-- ===== src/Extension/Writer/Headers.antt =====
-- The headers that `ws_write_frame` writes, in `parse_frame`.
use the_convex_100_language.Common.{
  ℕ, ◌+◌, ◌*◌, ◌/◌, ◌%◌, ◌^◌, ◌≤◌, ◌<◌, ◌≡◌, ◌⊎◌, inl, inr, Bool, true, false, not, ◌∷◌, ◌++◌,
  length, get_or, ltb, ◌==◌, Bytes, arith, Bool-cases,
}
use the_convex_100_language.Extension.{max_message}
use the_convex_100_language.Extension.Frame.{
  sized, wide_length, read_length, is_legal, read_payload, parse_frame,
}
use the_convex_100_language.Extension.Writer.{size_bytes, mask_flag, first_byte, is_sendable}

small_length :
    (first flag size : ℕ) (rest : Bytes)
    → (flag ≡ 0) ⊎ (flag ≡ 128)
    → size < 126
    → read_length (first ∷ (flag + size) ∷ rest) (flag + size) ≡ sized 2 size
unfolding read_length
small_length first flag size rest f h =
    let e : (flag + size) % 128 ≡ size = omega arith in ground arith

middle_length :
    (first flag size : ℕ) (rest : Bytes)
    → (flag ≡ 0) ⊎ (flag ≡ 128)
    → 126 ≤ size
    → size < 65536
    → read_length (first ∷ (flag + 126) ∷ (size / 256) % 256 ∷ size % 256 ∷ rest) (flag + 126)
      ≡ sized 4 size
unfolding read_length
middle_length first flag size rest f l h =
    let e : (flag + 126) % 128 ≡ 126 = omega arith in
    let v : (size / 256) % 256 * 256 + size % 256 ≡ size = omega arith in ground arith

eight_bytes :
    (size : ℕ) (rest : Bytes)
    → size ≤ max_message
    → wide_length 8 0 (
        (size / 2 ^ 56) % 256
        ∷ (size / 2 ^ 48) % 256
        ∷ (size / 2 ^ 40) % 256
        ∷ (size / 2 ^ 32) % 256
        ∷ (size / 2 ^ 24) % 256
        ∷ (size / 2 ^ 16) % 256
        ∷ (size / 2 ^ 8) % 256
        ∷ size % 256
        ∷ rest)
      ≡ size
unfolding wide_length
eight_bytes size rest h =
    let a : size / 2 ^ 56 ≡ 0 = omega arith in
    let b : size / 2 ^ 48 ≡ 0 = omega arith in
    let c : size / 2 ^ 40 ≡ 0 = omega arith in
    let d : size / 2 ^ 32 ≡ 0 = omega arith in
    let e : size / 2 ^ 24 ≡ 0 = omega arith in rw (a, b, c, d, e) (omega arith)

long_length :
    (first flag size : ℕ) (rest : Bytes)
    → (flag ≡ 0) ⊎ (flag ≡ 128)
    → 65536 ≤ size
    → size ≤ max_message
    → let bytes =
        (size / 2 ^ 56) % 256
        ∷ (size / 2 ^ 48) % 256
        ∷ (size / 2 ^ 40) % 256
        ∷ (size / 2 ^ 32) % 256
        ∷ (size / 2 ^ 24) % 256
        ∷ (size / 2 ^ 16) % 256
        ∷ (size / 2 ^ 8) % 256
        ∷ size % 256
        ∷ rest in
      read_length (first ∷ (flag + 127) ∷ bytes) (flag + 127) ≡ sized 10 size
unfolding read_length
long_length first flag size rest f l h =
    let e : (flag + 127) % 128 ≡ 127 = omega arith in ground (arith, eight_bytes size rest h)

read_length_size :
    (first flag size : ℕ) (rest : Bytes)
    → (flag ≡ 0) ⊎ (flag ≡ 128)
    → size ≤ max_message
    → let bytes = first ∷ (size_bytes flag size ++ rest) in
      read_length bytes (get_or bytes 1 0) ≡ sized (1 + length (size_bytes flag size)) size
unfolding size_bytes
read_length_size first flag size rest f h = elim (Bool-cases (ltb size 126)) [
  | inl small ↦ rw small (small_length first flag size rest f (ground arith))
  | inr large ↦ elim (Bool-cases (ltb size 65536)) [
    | inl middle ↦
        rw (large, middle) (middle_length first flag size rest f (ground arith) (ground arith))
    | inr long ↦ rw (large, long) (long_length first flag size rest f (ground arith) h)
  ]
]

size_flag :
    (first size : ℕ) (server_role : Bool) (rest : Bytes)
    → size ≤ max_message
    → let bytes = first ∷ (size_bytes (mask_flag server_role) size ++ rest) in
      (not (get_or bytes 1 0 / 128 % 2 == 0) ≡ not server_role) × (ltb (length bytes) 2 ≡ false)
unfolding size_bytes
size_flag first size true rest h = elim (Bool-cases (ltb size 126)) [
  | inl small ↦ rw small (ground arith)
  | inr large ↦ elim (Bool-cases (ltb size 65536)) [
    | inl middle ↦ rw (large, middle) (ground arith)
    | inr long ↦ rw (large, long) (ground arith)
  ]
]
size_flag first size false rest h = elim (Bool-cases (ltb size 126)) [
  | inl small ↦ rw small (ground arith)
  | inr large ↦ elim (Bool-cases (ltb size 65536)) [
    | inl middle ↦ rw (large, middle) (ground arith)
    | inr long ↦ rw (large, long) (ground arith)
  ]
]

parse_frame_legal :
    (rbuf : Bytes) (fin server_role : Bool) (opcode header size : ℕ)
    → ltb (length rbuf) 2 ≡ false
    → get_or rbuf 0 0 / 16 % 8 ≡ 0
    → not (get_or rbuf 1 0 / 128 % 2 == 0) ≡ server_role
    → not (get_or rbuf 0 0 / 128 % 2 == 0) ≡ fin
    → get_or rbuf 0 0 % 16 ≡ opcode
    → read_length rbuf (get_or rbuf 1 0) ≡ sized header size
    → is_legal fin opcode size ≡ true
    → parse_frame rbuf server_role ≡ read_payload rbuf server_role fin opcode header size
unfolding parse_frame
parse_frame_legal rbuf fin server_role opcode header size e1 e2 e3 e4 e5 e6 e7 = ground arith

-- A frame that may be sent passes every check of the header.
pub parse_frame_head :
    (fin server_role : Bool) (opcode size : ℕ) (rest : Bytes)
    → is_sendable fin opcode size ≡ true
    → let tail = size_bytes (mask_flag server_role) size in
      let bytes = first_byte fin opcode ∷ (tail ++ rest) in
      parse_frame bytes (not server_role)
      ≡ read_payload bytes (not server_role) fin opcode (1 + length tail) size
parse_frame_head fin server_role opcode size rest ok' =
    let first = first_byte fin opcode in
    let small : size ≤ max_message = ground arith in
    let op : opcode < 16 = ground arith in
    let (flag, long) = size_flag first size server_role rest small in
    let f : (mask_flag server_role ≡ 0) ⊎ (mask_flag server_role ≡ 128) = ground arith in
    let sized' = read_length_size first (mask_flag server_role) size rest f small in
    let r : first / 16 % 8 ≡ 0 = ground arith in
    let o : first % 16 ≡ opcode = ground arith in
    let n : not (first / 128 % 2 == 0) ≡ fin = ground arith in
    let bytes = first ∷ (size_bytes (mask_flag server_role) size ++ rest) in
    parse_frame_legal bytes fin (not server_role) opcode _ size long r flag n o sized'
      (ground arith)

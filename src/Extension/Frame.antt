-- ===== src/Extension/Frame.antt =====
-- `parse_frame`: one frame at the front of the pending bytes.
pub mod Fits
use the_convex_100_language.Common.{
  ℕ, zero, suc, ◌+◌, ◌-◌, ◌*◌, ◌/◌, ◌%◌, ◌^◌, ◌≤◌, ◌<◌, ◌≡◌, ◌⊎◌, inl, inr, refl, ap, Bool, true,
  false, not, ◌&&◌, ◌||◌, List, [], ◌∷◌, ◌++◌, length, get_or, take, drop, ltb, leb, ◌==◌,
  if◌then◌else◌, Bytes, arith, Bool-cases, length-append, length-take, length-drop,
}
use the_convex_100_language.Extension.{Connection, max_message, max_buffer, read_chunk}
use the_convex_100_language.Extension.Bits.{apply_mask, length-apply_mask}

-- The results 0, -1 and 1. A complete frame comes with `fin`, the opcode, the payload's offset and
-- length, and the pending bytes, in which the payload is now unmasked.
pub data Parsed : Type 0 where
  incomplete violation : Parsed
  complete : Bool → ℕ → ℕ → ℕ → Bytes → Parsed

-- The length field: the size of the header so far and the payload's length.
pub data Sized : Type 0 where
  short illegal : Sized
  sized : ℕ → ℕ → Sized

-- The loop over the eight bytes of a long length: `wide = (wide << 8) | byte` on 64 bits.
unfoldable pub wide_length : ℕ → ℕ → Bytes → ℕ
wide_length zero wide bytes = wide
wide_length (suc n) wide [] = wide
wide_length (suc n) wide (b ∷ bytes) = wide_length n ((wide * 256) % 2 ^ 64 + b) bytes

unfoldable pub read_length : Bytes → ℕ → Sized
read_length rbuf second =
    let two = get_or rbuf 2 0 * 256 + get_or rbuf 3 0 in
    let wide = wide_length 8 0 (drop 2 rbuf) in
    if second % 128 == 126
    then (if ltb (length rbuf) 4 then short else if ltb two 126 then illegal else sized 4 two)
    else if second % 128 == 127
    then (if ltb (length rbuf) 10
        then short
        else if ltb 0 (wide / 2 ^ 63) || ltb wide 65536 || ltb max_message wide
        then illegal
        else sized 10 wide)
    else sized 2 (second % 128)

abbrev pub is_control : ℕ → Bool
is_control opcode = (opcode == 8) || (opcode == 9) || (opcode == 10)

abbrev pub is_data : ℕ → Bool
is_data opcode = (opcode == 0) || (opcode == 1) || (opcode == 2)

-- The checks between the length field and the payload.
abbrev pub is_legal : Bool → ℕ → ℕ → Bool
is_legal fin opcode size =
    leb size max_message && (if is_control opcode then fin && leb size 125 else is_data opcode)

-- The payload: a server first takes the mask and removes it.
unfoldable pub read_payload : Bytes → Bool → Bool → ℕ → ℕ → ℕ → Parsed
read_payload rbuf false fin opcode header size =
    if ltb (length rbuf) (header + size) then incomplete else complete fin opcode header size rbuf
read_payload rbuf true fin opcode header size =
    let mask = take 4 (drop header rbuf) in
    let masked = take size (drop (header + 4) rbuf) in
    let unmasked =
      take (header + 4) rbuf ++ (apply_mask mask 0 masked ++ drop (header + 4 + size) rbuf) in
    if ltb (length rbuf) (header + 4)
    then incomplete
    else if ltb (length rbuf) (header + 4 + size)
    then incomplete
    else complete fin opcode (header + 4) size unmasked

abbrev pub after_length : Bytes → Bool → Bool → ℕ → Sized → Parsed
after_length rbuf server_role fin opcode short = incomplete
after_length rbuf server_role fin opcode illegal = violation
after_length rbuf server_role fin opcode (sized header size) =
    if is_legal fin opcode size
    then read_payload rbuf server_role fin opcode header size
    else violation

abbrev pub same_bool : Bool → Bool → Bool
same_bool true b = b
same_bool false b = not b

unfoldable pub parse_frame : Bytes → Bool → Parsed
parse_frame rbuf server_role =
    let first = get_or rbuf 0 0 in
    let second = get_or rbuf 1 0 in
    let masked = not (second / 128 % 2 == 0) in
    let fin = not (first / 128 % 2 == 0) in
    if ltb (length rbuf) 2
    then incomplete
    else if not (first / 16 % 8 == 0)
    then violation
    else if not (same_bool masked server_role)
    then violation
    else after_length rbuf server_role fin (first % 16) (read_length rbuf second)

-- ===== src/Extension/Writer/RoundTrip.antt =====
-- The frames of `ws_write_frame`, in `parse_frame`.
use the_convex_100_language.Common.{
  ℕ, ◌+◌, ◌≡◌, refl, sym, ap, ap₂, ◌∙◌, Bool, true, false, not, ◌∷◌, ◌++◌, append_assoc, length,
  take, drop, All, take-length_append, drop-length_append, ltb, Bytes, arith, length-append,
}
use the_convex_100_language.Extension.Bits.{
  apply_mask, length-apply_mask, apply_mask-involutive, IsByte,
}
use the_convex_100_language.Extension.Frame.{
  Parsed, incomplete, violation, complete, read_payload, parse_frame,
}
use the_convex_100_language.Extension.Writer.{size_bytes, first_byte, frame_bytes, is_sendable}
use the_convex_100_language.Extension.Writer.Headers.{parse_frame_head}

-- A parsed frame with a payload, and what stands behind it in the buffer.
abbrev pub Delivers : Bool → ℕ → Bytes → Bytes → Parsed → Type 0
Delivers fin opcode payload rest incomplete = ⊥
Delivers fin opcode payload rest violation = ⊥
Delivers fin opcode payload rest (complete fin' opcode' offset size rbuf) =
    (fin' ≡ fin)
    × (opcode' ≡ opcode)
    × (size ≡ length payload)
    × (take size (drop offset rbuf) ≡ payload)
    × (drop (offset + size) rbuf ≡ rest)

cut :
    (a b c : Bytes) (n m : ℕ)
    → n ≡ length a
    → m ≡ length b
    → (drop n (a ++ (b ++ c)) ≡ b ++ c)
      × (take m (drop n (a ++ (b ++ c))) ≡ b)
      × (drop (n + m) (a ++ (b ++ c)) ≡ c)
      × (take n (a ++ (b ++ c)) ≡ a)
cut a b c n m e f =
    let d : drop n (a ++ (b ++ c)) ≡ b ++ c = rw e (drop-length_append a (b ++ c)) in
    let t : take m (b ++ c) ≡ b = rw f (take-length_append b c) in
    let whole : n + m ≡ length (a ++ b) = omega (arith, length-append a b) in
    let r : drop (n + m) (a ++ (b ++ c)) ≡ c =
      rw (whole, sym (append_assoc a b c)) (drop-length_append (a ++ b) c) in
    let h : take n (a ++ (b ++ c)) ≡ a = rw e (take-length_append a (b ++ c)) in (d, rw d t, r, h)

plain_payload :
    (head payload rest : Bytes) (fin : Bool) (opcode header : ℕ)
    → header ≡ length head
    → Delivers fin opcode payload rest
        (read_payload (head ++ (payload ++ rest)) false fin opcode header (length payload))
unfolding read_payload
plain_payload head payload rest fin opcode header e =
    let (c1, c2, c3, c4) = cut head payload rest header (length payload) e refl in
    let long : ltb (length (head ++ (payload ++ rest))) (header + length payload) ≡ false =
      ground (arith, length-append head (payload ++ rest), length-append payload rest) in
    rw long (refl, refl, refl, c2, c3)

masked_payload :
    (head mask payload rest : Bytes) (fin : Bool) (opcode header : ℕ)
    → header ≡ length head
    → length mask ≡ 4
    → All IsByte payload
    → Delivers fin opcode payload rest (
        read_payload
          (head ++ (mask ++ (apply_mask mask 0 payload ++ rest)))
          true
          fin
          opcode
          header
          (length payload))
unfolding read_payload
masked_payload head mask payload rest fin opcode header e four bytes =
    let body = apply_mask mask 0 payload in
    let size = length-apply_mask mask 0 payload in
    let (c1, c2, c3, c4) = cut head mask (body ++ rest) header 4 e (sym four) in
    let joined : head ++ (mask ++ (body ++ rest)) ≡ (head ++ mask) ++ (body ++ rest) =
      sym (append_assoc head mask (body ++ rest)) in
    let whole : header + 4 ≡ length (head ++ mask) = omega (arith, length-append head mask) in
    let (d1, d2, d3, d4) =
      cut (head ++ mask) body rest (header + 4) (length payload) whole (sym size) in
    let (f1, f2, f3, f4) =
      cut (head ++ mask) payload rest (header + 4) (length payload) whole refl in
    let back = apply_mask-involutive mask 0 payload bytes in
    let enough : ltb (length (head ++ (mask ++ (body ++ rest)))) (header + 4 + length payload)
        ≡ false =
      ground (
        arith,
        length-append head (mask ++ (body ++ rest)),
        length-append mask (body ++ rest),
        length-append body rest,
      ) in
    let enough' : ltb (length (head ++ (mask ++ (body ++ rest)))) (header + 4) ≡ false =
      ground arith in
    let n = length payload in
    let all = head ++ (mask ++ (body ++ rest)) in
    let u2 : take n (drop (header + 4) all) ≡ body = rw joined d2 in
    let u3 : drop (header + 4 + n) all ≡ rest = rw joined d3 in
    let u4 : take (header + 4) all ≡ head ++ mask = rw joined d4 in
    let buffer : take (header + 4) all
          ++ (apply_mask (take 4 (drop header all)) 0 (take n (drop (header + 4) all))
              ++ drop (header + 4 + n) all)
        ≡ (head ++ mask) ++ (payload ++ rest) =
      ap₂ ◌++◌ u4 (ap₂ ◌++◌ (ap₂ (λ m b. apply_mask m 0 b) c2 u2 ∙ back) u3) in
    rw (enough', enough) (rw buffer (refl, refl, refl, f2, f3))

-- Any frame that `ws_write_frame` sends, whatever its mask of four bytes, is read by `parse_frame` of
-- the other side, with the same `fin`, opcode and payload, and with the bytes that follow it left over.
pub write_parse :
    (fin server_role : Bool) (opcode : ℕ) (mask payload rest : Bytes)
    → is_sendable fin opcode (length payload) ≡ true
    → length mask ≡ 4
    → All IsByte payload
    → Delivers fin opcode payload rest
        (parse_frame (frame_bytes server_role fin opcode mask payload ++ rest) (not server_role))
unfolding frame_bytes
write_parse fin true opcode mask payload rest sendable four bytes =
    let head = first_byte fin opcode ∷ size_bytes 0 (length payload) in
    let e = append_assoc head payload rest in
    let p = parse_frame_head fin true opcode (length payload) (payload ++ rest) sendable in
    rw e (
      rw p (
        plain_payload head payload rest fin opcode (1 + length (size_bytes 0 (length payload)))
          (omega arith)))
write_parse fin false opcode mask payload rest sendable four bytes =
    let head = first_byte fin opcode ∷ size_bytes 128 (length payload) in
    let body = apply_mask mask 0 payload in
    let e =
      append_assoc head (mask ++ body) rest ∙ ap (λ x. head ++ x) (append_assoc mask body rest) in
    let p = parse_frame_head fin false opcode (length payload) (mask ++ (body ++ rest)) sendable in
    rw e (
      rw p (
        masked_payload head mask payload rest fin opcode
          (1 + length (size_bytes 128 (length payload))) (omega arith) four bytes))

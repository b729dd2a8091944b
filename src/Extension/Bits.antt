-- ===== src/Extension/Bits.antt =====
-- The bit operations of the frame code on bytes: exclusive or, and masks of four bytes.
use the_convex_100_language.Common.{
  ℕ, zero, suc, ◌+◌, ◌*◌, ◌/◌, ◌%◌, ◌<◌, ◌≡◌, refl, ap₂, [], ◌∷◌, length, get_or, Bytes, All, arith,
}

-- `^`, on the `n` lowest bits.
unfoldable pub xor_bits : ℕ → ℕ → ℕ → ℕ
xor_bits zero a b = 0
xor_bits (suc n) a b = (a % 2 + b % 2) % 2 + 2 * xor_bits n (a / 2) (b / 2)

abbrev pub xor8 : ℕ → ℕ → ℕ
xor8 a b = xor_bits 8 a b

-- `frame[…] = byte ^ mask[index % 4]`, from an index on; masking and unmasking are the same loop.
unfoldable pub apply_mask : Bytes → ℕ → Bytes → Bytes
apply_mask mask index [] = []
apply_mask mask index (b ∷ bs) = xor8 b (get_or mask (index % 4) 0) ∷ apply_mask mask (index + 1) bs

abbrev power_of_two : ℕ → ℕ
power_of_two zero = 1
power_of_two (suc n) = 2 * power_of_two n

abbrev pub IsByte : ℕ → Type 0
IsByte b = b < 256

xor_bits-involutive : (n a b : ℕ) → a < power_of_two n → xor_bits n (xor_bits n a b) b ≡ a
unfolding xor_bits
xor_bits-involutive zero a b h = omega arith
xor_bits-involutive (suc n) a b h =
    let e : xor_bits n (xor_bits n (a / 2) (b / 2)) (b / 2) ≡ a / 2 =
      xor_bits-involutive n (a / 2) (b / 2) (omega arith) in
    let half : ((a % 2 + b % 2) % 2 + 2 * xor_bits n (a / 2) (b / 2)) / 2
        ≡ xor_bits n (a / 2) (b / 2) =
      omega arith in
    rw half (omega (arith, e))

-- A mask that is applied twice, from the same index on, gives the bytes back.
pub apply_mask-involutive :
    (mask : Bytes) (index : ℕ) (bs : Bytes)
    → All IsByte bs
    → apply_mask mask index (apply_mask mask index bs) ≡ bs
unfolding apply_mask
apply_mask-involutive mask index [] h = refl
apply_mask-involutive mask index (b ∷ bs) h =
    ap₂ ◌∷◌ (xor_bits-involutive 8 b (get_or mask (index % 4) 0) h.0)
      (apply_mask-involutive mask (index + 1) bs h.1)

pub length-apply_mask :
    (mask : Bytes) (index : ℕ) (bs : Bytes) → length (apply_mask mask index bs) ≡ length bs
unfolding apply_mask
length-apply_mask mask index [] = refl
length-apply_mask mask index (b ∷ bs) = omega (arith, length-apply_mask mask (index + 1) bs)

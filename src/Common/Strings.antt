-- ===== src/Common/Strings.antt =====
-- C strings as lists of bytes, with the string functions that the sources call.
use Prim.Native.Nat.{ℕ, ◌-◌}
use Prim.Native.Char.{code}
use Prim.Native.String.{String}
use mathlib.Core.Path.{◌≡◌, refl}
use mathlib.Core.Logic.{◌↔◌}
use mathlib.Core.Bool.{Bool, true, false, ◌&&◌}
use mathlib.Core.List.{List, [], ◌∷◌}
use native.Mathlib.Omega.{arith}
use the_convex_100_language.Common.Tests.{◌==◌}
use the_convex_100_language.Common.Lists.{take}

abbrev pub Bytes : Type 0
Bytes = List ℕ

-- A literal. It stays shut in proofs, where only equality of literals matters.
unfoldable pub text : String → Bytes
text String.[] = []
text (String.◌∷◌ c s) = code c ∷ text s

-- `!strcmp(a, b)`
unfoldable pub same : Bytes → Bytes → Bool
same [] [] = true
same [] (_ ∷ _) = false
same (_ ∷ _) [] = false
same (x ∷ a) (y ∷ b) = (x == y) && same a b

pub same_iff : (a b : Bytes) → (same a b ≡ true) ↔ (a ≡ b)
unfolding same
same_iff [] [] = ground arith
same_iff [] (y ∷ b) = ground arith
same_iff (x ∷ a) [] = ground arith
same_iff (x ∷ a) (y ∷ b) = ground (arith, same_iff a b)

pub same_refl : (a : Bytes) → same a a ≡ true
same_refl a = (same_iff a a).1 refl

-- `!strncmp(s, prefix, strlen(prefix))`
unfoldable pub starts_with : Bytes → Bytes → Bool
starts_with s [] = true
starts_with [] (_ ∷ _) = false
starts_with (x ∷ s) (y ∷ p) = (x == y) && starts_with s p

-- What `snprintf(buffer, size, "%s", s)` leaves in the buffer, the final NUL aside.
unfoldable pub clip : ℕ → Bytes → Bytes
clip size s = take (size - 1) s

-- ===== src/Client/Session.antt =====
-- `session_id` and `realtime_after_ms` of c/client/convex.c: the random id of a connection, and the
-- deadline of a wait.
use the_convex_100_language.Common.{
  ℕ, zero, suc, ◌+◌, ◌-◌, ◌*◌, ◌/◌, ◌%◌, ◌^◌, ◌<◌, ◌≡◌, ◌⊎◌, inl, inr, refl, ap, Option, none, some,
  [], ◌∷◌, ◌++◌, length, get_or, leb, ◌==◌, if◌then◌else◌, Bytes, text, arith,
}

-- The fallback where `/dev/urandom` gives no 16 bytes: a linear congruential generator.
unfoldable pub fallback : ℕ → ℕ → Bytes
fallback zero seed = []
fallback (suc n) seed =
    let next = (seed * 6364136223846793005 + 1) % 2 ^ 64 in (next / 2 ^ 32) % 256 ∷ fallback n next

abbrev hex_digits : Bytes
hex_digits = text "0123456789abcdef"

-- `%02x` of a byte
abbrev pub hex : ℕ → Bytes
hex b = get_or hex_digits (b / 16) 0 ∷ get_or hex_digits (b % 16) 0 ∷ []

-- `raw[i]`, with the version in byte 6 and the variant in byte 8.
abbrev pub marked : Bytes → ℕ → ℕ
marked raw i =
    if i == 6
    then get_or raw 6 0 % 16 + 64
    else if i == 8
    then get_or raw 8 0 % 64 + 128
    else get_or raw i 0

-- `raw` is what `read` gave, if it gave all.
abbrev raw_bytes : Option Bytes → ℕ → Bytes
raw_bytes none seed = fallback 16 seed
raw_bytes (some bytes) seed = bytes

unfoldable pub session_id : Option Bytes → ℕ → Bytes
session_id random seed =
    let b = λ (i : ℕ). hex (marked (raw_bytes random seed) i) in
    b 0
    ++ b 1
    ++ b 2
    ++ b 3
    ++ text "-"
    ++ b 4
    ++ b 5
    ++ text "-"
    ++ b 6
    ++ b 7
    ++ text "-"
    ++ b 8
    ++ b 9
    ++ text "-"
    ++ b 10
    ++ b 11
    ++ b 12
    ++ b 13
    ++ b 14
    ++ b 15

abbrev pub IsVariant : ℕ → Type 0
IsVariant c = (c ≡ b'8') ⊎ (c ≡ b'9') ⊎ (c ≡ b'a') ⊎ (c ≡ b'b')

IsVariant-of : (n d : ℕ) → d < 4 → n ≡ 8 + d → IsVariant (get_or hex_digits n 0)
unfolding text
IsVariant-of n zero h e = rw e (inl refl)
IsVariant-of n (suc zero) h e = rw e (inr (inl refl))
IsVariant-of n (suc (suc zero)) h e = rw e (inr (inr (inl refl)))
IsVariant-of n (suc (suc (suc zero))) h e = rw e (inr (inr (inr refl)))
IsVariant-of n (suc (suc (suc (suc d)))) h e = absurd (omega arith)

-- Whatever the random bytes are, the id has 36 characters, dashes where a UUID has them, the version 4
-- and one of the four variant digits of RFC 4122.
pub session_id_form :
    (random : Option Bytes) (seed : ℕ)
    → let id = session_id random seed in
      (length id ≡ 36)
      × (get_or id 8 0 ≡ b'-')
      × (get_or id 13 0 ≡ b'-')
      × (get_or id 18 0 ≡ b'-')
      × (get_or id 23 0 ≡ b'-')
      × (get_or id 14 0 ≡ b'4')
      × IsVariant (get_or id 19 0)
unfolding session_id text
session_id_form random seed =
    let raw = raw_bytes random seed in
    let four : (get_or raw 6 0 % 16 + 64) / 16 ≡ 4 = omega arith in
    (
      refl,
      refl,
      refl,
      refl,
      refl,
      ap (λ d. get_or hex_digits d 0) four,
      IsVariant-of _ (get_or raw 8 0 % 64 / 16) (omega arith) (omega arith),
    )

-- `struct timespec`
pub record Timespec : Type 0 where
  pub tv_sec : ℕ
  pub tv_nsec : ℕ

unfoldable pub realtime_after_ms : Timespec → ℕ → Timespec
realtime_after_ms now timeout_ms =
    let sec = now.tv_sec + timeout_ms / 1000 in
    let nsec = now.tv_nsec + timeout_ms % 1000 * 1000000 in
    if leb 1000000000 nsec
    then record { tv_sec = sec + 1; tv_nsec = nsec - 1000000000 }
    else record { tv_sec = sec; tv_nsec = nsec }

-- The deadline lies exactly the time-out after a clock whose nanoseconds are below a second, and its
-- own nanoseconds are too.
pub realtime_after_ms_exact :
    (now : Timespec) (timeout_ms : ℕ)
    → now.tv_nsec < 1000000000
    → let t = realtime_after_ms now timeout_ms in
      (t.tv_sec * 1000000000 + t.tv_nsec
        ≡ now.tv_sec * 1000000000 + now.tv_nsec + timeout_ms * 1000000)
      × (t.tv_nsec < 1000000000)
unfolding realtime_after_ms
realtime_after_ms_exact now timeout_ms h = ground arith

-- ===== src/Job/Retry.antt =====
-- internal/job/job.go, NextRetryAt. Go's `int` is a 64-bit word, so the products wrap.
use jobit.Prelude.{ℕ, zero, suc, ◌+◌, ◌-◌, ◌*◌, ◌/◌, ◌%◌, ◌^◌, true, false, ltb, if◌then◌else◌}
use jobit.Prelude.Int.{ℤ, pos, negsuc, ◌+ℤ◌, ◌-ℤ◌, ◌*ℤ◌, ltb_ℤ}

-- The number modulo 2 ^ 64.
abbrev pub word64 : ℤ → ℕ
word64 (pos n) = n % 2 ^ 64
word64 (negsuc n) = 2 ^ 64 - 1 - n % 2 ^ 64

-- The signed reading of a 64-bit word.
abbrev pub signed64 : ℕ → ℤ
signed64 w = if ltb w (2 ^ 63) then pos w else negsuc (2 ^ 64 - 1 - w)

-- What a product of two `int`s leaves in a 64-bit register.
unfoldable pub int64 : ℤ → ℤ
int64 z = signed64 (word64 z)

-- `for i := 0; i < attempt && delay < 3600; i++ { delay *= 2 }`, by the rounds left.
unfoldable pub double_delay : ℕ → ℤ → ℤ
double_delay zero delay = delay
double_delay (suc rounds) delay = elim (ltb_ℤ delay (pos 3600)) [
  | true ↦ double_delay rounds (int64 (delay *ℤ pos 2))
  | false ↦ delay
]

-- `int(float64(delay) * 0.2)` where that is positive. The double nearest to 0.2 lies above it by less
-- than 2 ^ -55, so up to 3600 the truncated product is the quotient by 5; below 0 it is not positive.
unfoldable pub jitter_of : ℤ → ℕ
jitter_of (pos n) = n / 5
jitter_of (negsuc n) = 0

-- `intn n` is what `rand.Intn(n)` returns.
unfoldable pub add_jitter : (intn : ℕ → ℕ) → ℤ → ℤ
add_jitter intn delay =
    let jitter = jitter_of delay in
    if ltb 0 jitter then delay +ℤ (pos (intn (2 * jitter + 1)) -ℤ pos jitter) else delay

unfoldable pub next_retry_at : (intn : ℕ → ℕ) → ℕ → ℤ → ℤ → ℤ
next_retry_at intn attempt backoff_seconds now =
    let doubled = double_delay attempt backoff_seconds in
    let delay = if ltb_ℤ (pos 3600) doubled then pos 3600 else doubled in
    now +ℤ int64 (add_jitter intn delay *ℤ pos 1000000000)

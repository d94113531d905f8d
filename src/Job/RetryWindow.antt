-- ===== src/Job/RetryWindow.antt =====
-- internal/job/job.go, NextRetryAt: the window in which a retry falls.
use Prim.Native.Nat.{min}
use native.Mathlib.Nat.{pow-suc}
use native.Mathlib.Decide.{dec_lt}
use jobit.Prelude.{
  ℕ, zero, suc, ◌+◌, ◌-◌, ◌*◌, ◌/◌, ◌^◌, ◌≤◌, ◌<◌, ◌≡◌, refl, arith, if◌then◌else◌, ◌∙◌,
}
use jobit.Prelude.Int.{ℤ, pos, ◌+ℤ◌, ◌-ℤ◌, ◌*ℤ◌, ◌≤ℤ◌, pos_part, ltb_ℤ, int_laws}
use jobit.Job.Retry.{int64, double_delay, jitter_of, add_jitter, next_retry_at}

int64-mul_pos : (a b : ℕ) → a * b < 2 ^ 63 → int64 (pos a *ℤ pos b) ≡ pos (a * b)
unfolding int64 ◌*ℤ◌
int64-mul_pos a b h = ground arith

-- The delay that the backoff aims at: doubled for each attempt, up to an hour.
abbrev pub aimed_delay : ℕ → ℕ → ℕ
aimed_delay attempt backoff = min (backoff * 2 ^ attempt) 3600

one-le-pow : (k : ℕ) → 1 ≤ 2 ^ k
one-le-pow zero = omega arith
one-le-pow (suc k) = omega (arith, pow-suc 2 k, one-le-pow k)

le-mul-pow : (b k : ℕ) → b ≤ b * 2 ^ k
le-mul-pow b k = grind (arith, one-le-pow k)

mul-pow-suc : (b k : ℕ) → b * 2 * 2 ^ k ≡ b * 2 ^ suc k
mul-pow-suc b k = rw pow-suc (omega arith)

double_delay-below :
    (k b : ℕ) → b < 3600 → double_delay (suc k) (pos b) ≡ double_delay k (pos (b * 2))
unfolding double_delay
double_delay-below k b h = ground (arith, int64-mul_pos b 2)

double_delay-above : (k b : ℕ) → 3600 ≤ b → double_delay (suc k) (pos b) ≡ pos b
unfolding double_delay
double_delay-above k b h = ground arith

-- What the loop and the cap leave is the aimed delay.
double_delay-aimed :
    (k b : ℕ) → (d : ℕ) × (double_delay k (pos b) ≡ pos d) × (min d 3600 ≡ aimed_delay k b)
unfolding double_delay
double_delay-aimed zero b = (b, refl, omega arith)
double_delay-aimed (suc k) b = elim (dec_lt b 3600) [
  | yes below ↦
      let (d, e, m) = double_delay-aimed k (b * 2) in
      (d, double_delay-below k b below ∙ e, omega (arith, m, mul-pow-suc b k))
  | no above ↦ (b, double_delay-above k b (omega arith), omega (arith, le-mul-pow b (suc k)))
]

-- A draw that respects `rand.Intn`'s contract.
abbrev pub IsDraw : (ℕ → ℕ) → Type 0
IsDraw intn = (n : ℕ) → 0 < n → intn n < n

add_jitter_window :
    (intn : ℕ → ℕ) (d : ℕ)
    → IsDraw intn
    → (e : ℕ) × (add_jitter intn (pos d) ≡ pos e) × (d - d / 5 ≤ e) × (e ≤ d + d / 5)
unfolding add_jitter jitter_of ◌+ℤ◌ ◌-ℤ◌
add_jitter_window intn d draw = (
  pos_part (add_jitter intn (pos d)),
  ground (arith, draw (2 * (d / 5) + 1)),
  ground (arith, draw (2 * (d / 5) + 1)),
  ground (arith, draw (2 * (d / 5) + 1)),
)

capped : (d : ℕ) → (if ltb_ℤ (pos 3600) (pos d) then pos 3600 else pos d) ≡ pos (min d 3600)
capped d = ground arith

int64-seconds : (e : ℕ) → e ≤ 4320 → int64 (pos e *ℤ pos 1000000000) ≡ pos (e * 1000000000)
int64-seconds e h = int64-mul_pos e 1000000000 (omega arith)

-- For a backoff that is not negative and a legal random draw, the retry falls a whole number of
-- seconds after `now`, at most a fifth away from the aimed delay: the backoff doubled once for each
-- attempt, and at most an hour. No product wraps on the way.
pub next_retry_at_window :
    (intn : ℕ → ℕ) (attempt backoff : ℕ) (now : ℤ)
    → IsDraw intn
    → let aimed = aimed_delay attempt backoff in
      (delay : ℕ) × (next_retry_at intn attempt (pos backoff) now ≡ now +ℤ pos (delay * 1000000000))
      × (aimed - aimed / 5 ≤ delay)
      × (delay ≤ aimed + aimed / 5)
unfolding next_retry_at
next_retry_at_window intn attempt backoff now draw =
    let (d, e, m) = double_delay-aimed attempt backoff in
    let (delay, j, lo, hi) = add_jitter_window intn (aimed_delay attempt backoff) draw in
    (delay, rw (e, capped d, m, j, int64-seconds delay (omega arith)), lo, hi)

-- Whatever the attempt, a retry never falls before `now` nor more than 4320 seconds after it.
next_retry_at_cap :
    (intn : ℕ → ℕ) (attempt backoff : ℕ) (now : ℤ)
    → IsDraw intn
    → (now ≤ℤ next_retry_at intn attempt (pos backoff) now)
      × (next_retry_at intn attempt (pos backoff) now ≤ℤ now +ℤ pos 4320000000000)
next_retry_at_cap intn attempt backoff now draw =
    let (delay, e, lo, hi) = next_retry_at_window intn attempt backoff now draw in
    rw e (omega int_laws, omega int_laws)

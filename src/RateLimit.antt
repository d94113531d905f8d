-- ===== src/RateLimit.antt =====
-- internal/ratelimit/ratelimit.go: how many submissions a tenant may make in a second.
pub mod Window
use jobit.Prelude.{ℕ, suc, ◌/◌, Bool, false, ◌&&◌, ◌==◌, if◌then◌else◌}
use jobit.Prelude.Int.{ℤ, pos, negsuc, leb_ℤ}
use jobit.Job.{Time, second}
use jobit.World.{Redis, Result, ok, Call, pure, ◌>>=◌, redis_exec}

-- `time.Now().Unix()`
abbrev pub unix : Time → ℤ
unix (pos n) = pos (n / second)
unix (negsuc n) = negsuc (n / second)

abbrev pub int_eq : ℤ → ℤ → Bool
int_eq (pos m) (pos n) = m == n
int_eq (negsuc m) (negsuc n) = m == n
int_eq _ _ = false

abbrev pub set_counter : ℕ → ℤ → ℕ → Redis → Redis
set_counter tenant_id s n r = record r {
  counter = λ t u. if t == tenant_id && int_eq u s then n else r.counter t u;
}

-- INCR
abbrev pub incr : ℕ → ℤ → Redis → Redis × Result ℕ
incr tenant_id s r =
    (set_counter tenant_id s (suc (r.counter tenant_id s)) r, ok (suc (r.counter tenant_id s)))

-- A key is that of one second, so its expiry after two is not seen by a later count.
unfoldable pub allow : ℕ → ℤ → Call Bool
allow tenant_id limit w =
    (redis_exec (incr tenant_id (unix w.clock)) >>= λ count. pure (leb_ℤ (pos count) limit)) w

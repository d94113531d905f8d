-- ===== src/RateLimit/Window.antt =====
-- internal/ratelimit/ratelimit.go: the submissions of one tenant in one second.
use jobit.Prelude.{
  ℕ, zero, suc, ◌-◌, ◌≡◌, refl, ◌∙◌, ap, Bool, true, arith, ==_refl, if◌then◌else◌, leb,
}
use jobit.Prelude.Int.{ℤ, pos, negsuc, leb_ℤ}
use jobit.World.{healthy, World, Result, ok, err, redis_exec}
use jobit.RateLimit.{unix, int_eq, set_counter, allow}

-- The number of calls that are allowed of `n` in a row.
unfoldable pub allowed : ℕ → ℕ → ℤ → World → ℕ
allowed zero tenant_id limit w = 0
allowed (suc n) tenant_id limit w =
    let (r, w') = allow tenant_id limit w in
    let rest = allowed n tenant_id limit w' in
    elim r [ ok is_allowed ↦ if is_allowed then suc rest else rest | err e ↦ rest ]

int_eq_refl : (s : ℤ) → int_eq s s ≡ true
int_eq_refl (pos n) = ==_refl n
int_eq_refl (negsuc n) = ==_refl n

-- What a call leaves: the count of the tenant's second, one higher.
abbrev counted : ℕ → World → World
counted tenant_id w =
    let s = unix w.clock in
    record w { redis = set_counter tenant_id s (suc (w.redis.counter tenant_id s)) w.redis }

allow-healthy :
    (tenant_id : ℕ) (limit : ℤ) (w : World)
    → allow tenant_id limit (healthy w) ≡ (
      ok (leb_ℤ (pos (suc (w.redis.counter tenant_id (unix w.clock)))) limit),
      healthy (counted tenant_id w),
    )
unfolding allow redis_exec
allow-healthy tenant_id limit w = refl

count_next :
    (tenant_id : ℕ) (w : World)
    → (counted tenant_id w).redis.counter tenant_id (unix w.clock)
      ≡ suc (w.redis.counter tenant_id (unix w.clock))
count_next tenant_id w = rw (==_refl tenant_id, int_eq_refl (unix w.clock)) refl

-- The smaller of two numbers.
abbrev pub min : ℕ → ℕ → ℕ
min m n = if leb m n then m else n

next_min :
    (n limit count next rest : ℕ)
    → next ≡ suc count
    → rest ≡ min n (limit - next)
    → (if leb_ℤ (pos (suc count)) (pos limit) then suc rest else rest) ≡ min (suc n) (limit - count)
next_min n limit count next rest h k = ground arith

abbrev counts : Result Bool × World → (World → ℕ) → ℕ
counts (r, w') rest = elim r [
  | ok is_allowed ↦ if is_allowed then suc (rest w') else rest w'
  | err e ↦ rest w'
]

-- Of `n` submissions in a row that a tenant makes in one second while Redis answers, exactly so many
-- are allowed as the limit leaves after those counted before, however many are made.
pub allowed_exactly :
    (n tenant_id limit : ℕ) (w : World)
    → allowed n tenant_id (pos limit) (healthy w)
      ≡ min n (limit - w.redis.counter tenant_id (unix w.clock))
unfolding allowed
allowed_exactly zero tenant_id limit w = ground arith
allowed_exactly (suc n) tenant_id limit w =
    ap (λ p. counts p (λ w'. allowed n tenant_id (pos limit) w'))
      (allow-healthy tenant_id (pos limit) w)
    ∙ next_min n limit (w.redis.counter tenant_id (unix w.clock))
        ((counted tenant_id w).redis.counter tenant_id (unix w.clock))
        (allowed n tenant_id (pos limit) (healthy (counted tenant_id w))) (count_next tenant_id w)
        (allowed_exactly n tenant_id limit (counted tenant_id w))

-- ===== src/World/Exec.antt =====
-- A call of a server by one process: single statements, and whole transactions. Other processes act
-- between calls, never within a transaction.
use jobit.Prelude.{ℕ, List, [], length}
use jobit.Job.{Time}
use jobit.World.Rows.{Db}
use jobit.World.Keys.{Redis, Bucket, set_queue}
use jobit.World.Answer.{
  Outcome, done, refused, lost, skipped, Error, fault, Result, ok, err, next_outcome, later,
}
use jobit.World.Tx.{Tx, Progress, next, leave}

pub record World : Type 0 where
  pub db : Db
  pub redis : Redis
  pub clock : Time
  pub script : List Outcome

abbrev pub Call : Type 0 → Type 0
Call A = World → Result A × World

-- The world in which every statement is done.
abbrev pub healthy : World → World
healthy w = record w { script = [] }

module _ {A : Type 0} where
  abbrev pub pure : A → Call A
  pure a w = (ok a, w)

  abbrev pub raise : Error → Call A
  raise e w = (err e, w)

-- `if err != nil { return err }` after each call.
infixl 5 ◌>>=◌ ◌>>◌
abbrev pub ◌>>=◌ : {A B : Type 0} → Call A → (A → Call B) → Call B
◌>>=◌ m f w = let (r, w') = m w in elim r [ ok a ↦ f a w' | err e ↦ (err e, w') ]

abbrev pub ◌>>◌ : {A B : Type 0} → Call A → Call B → Call B
m >> k = m >>= λ _. k

-- `time.Now()`; Postgres reads the same clock.
abbrev pub now : Call Time
now w = (ok w.clock, w)

abbrev pub answer : {A : Type 0} → Outcome → Db × Result A → World → Result A × World
answer done (d, r) w = (r, record w { db = d })
answer refused _ w = (err fault, w)
answer lost (d, _) w = (err fault, record w { db = d })
answer skipped (d, r) w = (r, record w { db = d })

-- One statement in a transaction of its own.
unfoldable pub exec : {A : Type 0} → (Db → Db × Result A) → Call A
exec f w = answer (next_outcome w.script) (f w.db) (record w { script = later w.script })

abbrev pub answer_redis : {A : Type 0} → Outcome → Redis × Result A → World → Result A × World
answer_redis done (d, r) w = (r, record w { redis = d })
answer_redis refused _ w = (err fault, w)
answer_redis lost (d, _) w = (err fault, record w { redis = d })
answer_redis skipped (d, r) w = (r, record w { redis = d })

-- One command to Redis.
unfoldable pub redis_exec : {A : Type 0} → (Redis → Redis × Result A) → Call A
redis_exec f w =
    answer_redis (next_outcome w.script) (f w.redis) (record w { script = later w.script })

-- LLEN
abbrev pub llen : Bucket → ℕ → Call ℕ
llen b t = redis_exec (λ r. (r, ok (length (r.queues b t))))

-- DEL
abbrev pub del : Bucket → ℕ → Call (Unit {0})
del b t = redis_exec (λ r. (set_queue b t [] r, ok tt))

abbrev pub commit : {A : Type 0} → Progress (Result A) A → World → Result A × World
commit (leave r s) w = (r, record w { script = s })
commit (next a d s) w = answer (next_outcome s) (d, ok a) (record w { script = later s })

abbrev pub begin : {A : Type 0} → Outcome → Tx (Result A) A → World → Result A × World
begin done body w = commit (body w.db w.script) w
begin refused body w = (err fault, w)
begin lost body w = (err fault, w)
begin skipped body w = commit (body w.db w.script) w

-- db.Begin, the body, tx.Commit, and the deferred tx.Rollback.
unfoldable pub transaction : {A : Type 0} → Tx (Result A) A → Call A
transaction body w = begin (next_outcome w.script) body (record w { script = later w.script })

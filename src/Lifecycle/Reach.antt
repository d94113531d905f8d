-- ===== src/Lifecycle/Reach.antt =====
-- What the worker, the leader's loops and the API do, as sequences of the operations of Lifecycle:
-- internal/worker/worker.go, internal/scheduler/scheduler.go, internal/api/handler.go.
pub mod Worker
pub mod Ticks
pub mod Requests
pub mod Cron
pub mod Reads
pub mod Socket
pub mod Serve
pub mod Run
pub mod Leader
pub mod Operator
pub mod Commands
use jobit.Prelude.{◌≡◌, arith}
use jobit.World.{World, Redis, Result, redis_exec}
use jobit.Lifecycle.{Op, step}
use jobit.Lifecycle.Sound.{IsAllowed, IsSoundTable, step-IsSoundTable}

-- From one world to another by allowed operations; between them the table `jobs` stays as it is.
pub data Reach : World → World → Type 0 where
  idle : {w w' : World} → w'.db.jobs ≡ w.db.jobs → Reach w w'
  does : {w : World} (op : Op) → IsAllowed op → Reach w (step op w)
  also : {w v w' : World} → Reach w v → Reach v w' → Reach w w'

-- If one world comes from another by a sequence of allowed operations, and before it job ids are
-- unique and every row is sound, then they are so afterwards.
pub Reach-IsSoundTable :
    {w w' : World} → Reach w w' → IsSoundTable w.db.jobs → IsSoundTable w'.db.jobs
Reach-IsSoundTable (Reach.idle e) h = rw e h
Reach-IsSoundTable (Reach.does {w} op a) h = step-IsSoundTable op w a h
Reach-IsSoundTable (Reach.also r s) h = Reach-IsSoundTable s (Reach-IsSoundTable r h)

pub redis_exec-db :
    {A : Type 0} (f : Redis → Redis × Result A) (w : World) → (redis_exec f w).1.db ≡ w.db
unfolding redis_exec
redis_exec-db f w = ground arith

-- ===== src/Storage/Promote.antt =====
-- internal/storage/storage.go: the jobs that the scheduler's loops ask for, and their promotion.
use jobit.Prelude.{ℕ, Bool, true, false, ◌&&◌, List, filter, take, ◌==◌, if◌then◌else◌}
use jobit.Prelude.Int.{pos, ◌-ℤ◌, ltb_ℤ, leb_ℤ}
use jobit.Job.{Job, State, state_eq, pending, scheduled, failed, Time}
use jobit.World.{ok, Call, ◌>>=◌, exec, now, order_by}
use jobit.Storage.Bodies.{update_jobs, is_stale}
use jobit.Storage.Jobs.{query}

-- ORDER BY priority, run_at
abbrev pub sooner : Job → Job → Bool
sooner j k =
    if ltb_ℤ j.priority k.priority
    then true
    else if ltb_ℤ k.priority j.priority
    then false
    else ltb_ℤ j.run_at k.run_at

-- WHERE state = s AND run_at <= t ORDER BY priority, run_at LIMIT limit
unfoldable pub ready_rows : State → Time → ℕ → List Job → List Job
ready_rows s t limit jobs =
    take limit (order_by sooner (filter (λ j. state_eq j.state s && leb_ℤ j.run_at t) jobs))

unfoldable pub get_due_jobs : ℕ → Call (List Job)
get_due_jobs limit = do t ← now; exec (query (λ d. ready_rows scheduled t limit d.jobs))

unfoldable pub get_failed_ready_jobs : ℕ → Call (List Job)
get_failed_ready_jobs limit = do t ← now; exec (query (λ d. ready_rows failed t limit d.jobs))

-- NOW() - INTERVAL '1 minute'
abbrev pub minute_ago : Time → Time
minute_ago t = t -ℤ pos 60000000000

unfoldable pub get_pending_jobs : ℕ → Call (List Job)
get_pending_jobs limit = do
  t ← now
  exec (query (λ d. ready_rows pending (minute_ago t) limit d.jobs))

unfoldable pub get_stale_claims : Call (List Job)
get_stale_claims = do t ← now; exec (query (λ d. filter (is_stale t) d.jobs))

abbrev pub is_in_state : State → ℕ → Job → Bool
is_in_state s job_id j = j.id == job_id && state_eq j.state s

abbrev pub promote : Job → Job
promote j = record j { state = pending }

unfoldable pub promote_scheduled_to_pending : ℕ → Call (Unit {0})
promote_scheduled_to_pending job_id =
    exec (λ d. (update_jobs (is_in_state scheduled job_id) promote d, ok tt))

abbrev pub promote_at : Time → Job → Job
promote_at t j = record j { state = pending; run_at = t }

unfoldable pub promote_failed_to_pending : ℕ → Call (Unit {0})
promote_failed_to_pending job_id = do
  t ← now
  exec (λ d. (update_jobs (is_in_state failed job_id) (promote_at t) d, ok tt))

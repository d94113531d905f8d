-- ===== src/Storage/Claims.antt =====
-- internal/storage/storage.go: the life of a claim, from TryClaim to CompleteJob or FailJob, and what
-- happens to a claim whose deadline passes.
use jobit.Prelude.{ℕ, zero, suc, String, Bool, holds, ◌&&◌, Option, none, some, ◌==◌}
use jobit.Job.{Job, state_eq, claimed, running, succeeded, Time}
use jobit.World.{Db, Result, JobRun, ok, Call, pure, ◌>>=◌, exec, now, count_where, transaction}
use jobit.Storage.Bodies.{
  holds_claim, update_jobs, update_runs, duration_ms_of, is_run, try_claim_body, fail_job_body,
  requeue_body, dead_letter_body,
}

-- `run_id` is the `uuid.New()` of the call.
unfoldable pub try_claim : ℕ → ℕ → ℕ → Time → ℕ → Call (Bool × ℕ)
try_claim job_id worker_id token deadline run_id = do
  t ← now
  transaction (try_claim_body t job_id worker_id token deadline run_id)

abbrev pub is_startable : ℕ → ℕ → Job → Bool
is_startable job_id token j =
    j.id == job_id && (holds token j.claim_token && state_eq j.state claimed)

abbrev pub start : Job → Job
start j = record j { state = running }

unfoldable pub mark_running : ℕ → ℕ → Call (Unit {0})
mark_running job_id token = exec (λ d. (update_jobs (is_startable job_id token) start d, ok tt))

abbrev pub move_deadline : Time → Job → Job
move_deadline deadline j = record j { deadline = some deadline }

unfoldable pub extend_deadline : ℕ → ℕ → Time → Call (Unit {0})
extend_deadline job_id token deadline =
    exec (λ d. (update_jobs (holds_claim job_id token) (move_deadline deadline) d, ok tt))

abbrev pub succeed : Time → Job → Job
succeed t j = record j {
  state = succeeded;
  completed_at = some t;
  claim_token = none;
  deadline = none;
}

abbrev pub succeed_run : Time → JobRun → JobRun
succeed_run t r = record r {
  state = succeeded;
  finished_at = some t;
  duration_ms = some (duration_ms_of t r.started_at);
}

abbrev pub succeed_statement : Time → ℕ → ℕ → Db → Db × Result ℕ
succeed_statement t job_id token d = (
  update_jobs (holds_claim job_id token) (succeed t) d,
  ok (count_where (holds_claim job_id token) d.jobs),
)

abbrev pub succeed_run_statement : Time → ℕ → Db → Db × Result (Unit {0})
succeed_run_statement t run_id d = (update_runs (is_run run_id) (succeed_run t) d, ok tt)

-- The second statement runs only where the first changed a row.
abbrev pub close_run : Time → ℕ → ℕ → Call (Unit {0})
close_run t run_id zero = pure tt
close_run t run_id (suc _) = exec (succeed_run_statement t run_id)

unfoldable pub complete_job : ℕ → ℕ → ℕ → Call (Unit {0})
complete_job job_id run_id token = do
  t ← now
  n ← exec (succeed_statement t job_id token)
  close_run t run_id n

unfoldable pub fail_job : ℕ → ℕ → ℕ → String → Option Time → Call (Unit {0})
fail_job job_id run_id token message next_run_at = do
  t ← now
  transaction (fail_job_body t job_id run_id token message next_run_at)

unfoldable pub requeue_stale_job : ℕ → Call Bool
requeue_stale_job job_id = do t ← now; transaction (requeue_body t job_id)

unfoldable pub move_to_dead_letter : ℕ → Call (Unit {0})
move_to_dead_letter job_id = do t ← now; transaction (dead_letter_body t job_id)

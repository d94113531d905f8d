-- ===== src/Scheduler.antt =====
-- internal/scheduler/scheduler.go: what one tick of each of the leader's loops does.
pub mod Delivery
pub mod Run
pub mod Batch
pub mod Polling
pub mod Reaping
pub mod Burial
use jobit.Prelude.{ℕ, String, Bool, true, false, Option, none, some, List, [], ◌∷◌, get_or, ◌+◌}
use jobit.Prelude.Int.{ℤ, pos}
use jobit.Job.{Job, pending, dead, Time, priority_normal}
use jobit.World.{World, Schedule, Result, ok, err, Call}
use jobit.Storage.Jobs.{insert_job, list_jobs, ListFilter}
use jobit.Storage.Claims.{requeue_stale_job, move_to_dead_letter}
use jobit.Storage.Promote.{
  get_due_jobs, get_failed_ready_jobs, get_pending_jobs, get_stale_claims,
  promote_scheduled_to_pending, promote_failed_to_pending,
}
use jobit.Storage.Schedules.{get_due_schedules, update_schedule_after_run}
use jobit.Queue.{enqueue}

abbrev pub batch_size : ℕ
batch_size = 500

-- A call whose error is logged and passed over.
abbrev pub logged : {A : Type 0} → Call A → World → World
logged m w = (m w).1

-- `for _, j := range jobs`; where the query fails the tick ends.
unfoldable pub for_each : {A : Type 0} → (A → World → World) → List A → World → World
for_each f [] w = w
for_each f (x ∷ xs) w = for_each f xs (f x w)

abbrev pub for_rows : {A : Type 0} → (A → World → World) → Result (List A) × World → World
for_rows f (ok xs, w) = for_each f xs w
for_rows f (err e, w) = w

abbrev pub enqueue_job : Job → World → World
enqueue_job j = logged (enqueue j.tenant_id j.id j.priority)

-- `continue` after a promotion that fails; else the job is enqueued.
abbrev pub then_enqueue : Job → Result (Unit {0}) × World → World
then_enqueue j (ok _, w) = enqueue_job j w
then_enqueue j (err e, w) = w

unfoldable pub poll_scheduled_jobs : World → World
poll_scheduled_jobs w =
    for_rows (λ j w'. then_enqueue j (promote_scheduled_to_pending j.id w'))
      (get_due_jobs batch_size w)

unfoldable pub poll_failed_jobs : World → World
poll_failed_jobs w =
    for_rows (λ j w'. then_enqueue j (promote_failed_to_pending j.id w'))
      (get_failed_ready_jobs batch_size w)

abbrev pub enqueue_unless_dead : Job → Result Bool × World → World
enqueue_unless_dead j (ok true, w) = w
enqueue_unless_dead j (ok false, w) = enqueue_job j w
enqueue_unless_dead j (err e, w) = w

unfoldable pub reap_stale_claims : World → World
reap_stale_claims w =
    for_rows (λ j w'. enqueue_unless_dead j (requeue_stale_job j.id w')) (get_stale_claims w)

abbrev pub dead_filter : ListFilter
dead_filter = record { tenant_id = none; state = some dead; limit = 200; offset = 0 }

unfoldable pub promote_dead_jobs : World → World
promote_dead_jobs w = for_rows (λ j. logged (move_to_dead_letter j.id)) (list_jobs dead_filter w)

unfoldable pub reconcile_pending : World → World
reconcile_pending w = for_rows enqueue_job (get_pending_jobs batch_size w)

-- The fields of a schedule's job template.
pub record Template : Type 0 where
  pub kind : String
  pub payload : String
  pub priority : Option ℤ
  pub max_retries : Option ℤ
  pub backoff_seconds : Option ℤ

unfoldable pub job_of_template : ℕ → Template → ℕ → Time → Job
job_of_template tenant_id t id now = record {
  id = id;
  tenant_id = tenant_id;
  kind = t.kind;
  payload = t.payload;
  priority = get_or t.priority priority_normal;
  state = pending;
  run_at = now;
  claimed_at = none;
  claimed_by = none;
  claim_token = none;
  deadline = none;
  attempt = 0;
  max_retries = get_or t.max_retries (pos 3);
  backoff_seconds = get_or t.backoff_seconds (pos 30);
  idempotency_key = none;
  last_error = none;
  created_at = now;
  completed_at = none;
}

abbrev pub insert_and_enqueue : Schedule → Time → Job → World → World
insert_and_enqueue s next_run_at j w =
    let (r, w') = insert_job j w in
    elim r [
      | err e ↦ w'
      | ok _ ↦ logged (update_schedule_after_run s.id w.clock next_run_at) (enqueue_job j w')
    ]

-- `next_run` is cron.Parser.Parse and then Next; `unmarshal` is json.Unmarshal; `none` is their error.
-- `fresh n` is the n-th `uuid.New()` of the tick.
module _ (next_run : String → Option (Time → Time)) (unmarshal : String → Option Template) where
  unfoldable pub fire_schedule : Schedule → ℕ → World → World
  fire_schedule s id w = elim (next_run s.cron) [
    | none ↦ w
    | some next ↦ elim (unmarshal s.job_template) [
      | none ↦ w
      | some t ↦ insert_and_enqueue s (next w.clock) (job_of_template s.tenant_id t id w.clock) w
    ]
  ]

  unfoldable pub fire_all : (fresh : ℕ → ℕ) → ℕ → List Schedule → World → World
  fire_all fresh n [] w = w
  fire_all fresh n (s ∷ ss) w = fire_all fresh (n + 1) ss (fire_schedule s (fresh n) w)

  abbrev pub fire_rows : (fresh : ℕ → ℕ) → Result (List Schedule) × World → World
  fire_rows fresh (ok ss, w) = fire_all fresh 0 ss w
  fire_rows fresh (err e, w) = w

  unfoldable pub expand_cron : (fresh : ℕ → ℕ) → World → World
  expand_cron fresh w = fire_rows fresh (get_due_schedules 200 w)

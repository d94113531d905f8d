-- ===== src/Tests/Delivery.antt =====
-- The way of a job from its submission to its end, at concrete inputs.
use jobit.Prelude.{
  All, filter, ℕ, zero, suc, ◌≡◌, refl, Option, none, some, List, [], ◌∷◌, String, Bool, false,
  arith,
}
use jobit.Prelude.Int.{pos, ◌+ℤ◌, leb_ℤ}
use jobit.Job.{Job, Time, scheduled, failed, dead}
use jobit.World.{World, healthy, find, update_where, exec, redis_exec, transaction}
use jobit.Storage.Claims.{start, mark_running, complete_job, try_claim}
use jobit.Queue.Shuffle.{TenantWeight}
use jobit.Queue.{dequeue, remove_from_processing}
use jobit.Storage.Jobs.{get_job, list_rows}
use jobit.Storage.Bodies.{try_claim_body, is_stale, requeue, dead_entry}
use jobit.World.Tx.{tx_exec, tx_skip_locked}
use jobit.Api.{SubmitJobRequest, created, job_of_request, create}
use jobit.Worker.{ExecError, webhook_request, process, work, finish, beats}
use jobit.Scheduler.{batch_size, reap_stale_claims, dead_filter}
use jobit.Scheduler.Run.{tick, due_poll, dead_letter_promoter}
use jobit.Scheduler.Burial.{Buries}
use jobit.Scheduler.Burial.Tick.{IsEntered, promote_dead_jobs-Buries}
use jobit.Scheduler.Polling.Due.{IsDue, polls-IsDue}
use jobit.Tests.Refinement.{next_hour, template}
use jobit.Storage.Promote.{ready_rows}
use jobit.Scheduler.Reaping.Queued.{IsServedAgain, reap_stale_claims_takes_back}
use jobit.Worker.Run.{dequeue_timeout}
use jobit.Worker.Outcome.{claimed_job}
use jobit.Worker.Shutdown.{IsKept, IsForgotten, process-IsForgotten}
use jobit.Lifecycle.Delivery.{IsServed, submitted_job-IsServed}
use jobit.Tests.Data.{
  waiting_job, small_db, small_db-IsSoundTable, rough_world, tenant_7, same_request,
}

abbrev failing : Job → Option ExecError
failing j = some webhook_request

abbrev message : ExecError → String
message e = "failed"

abbrev least : ℕ → ℕ
least n = 0

abbrev idle : ℕ → World → World
idle k w = w

-- A context that does not end.
abbrev endless : Time → Bool
endless t = false

-- The run succeeds, but the context ends with it.
abbrev succeeding : Job → Option ExecError
succeeding j = none

abbrev signal : Time
signal = pos 101000000000

abbrev ended : Time → Bool
ended t = leb_ℤ signal t

abbrev cut_short : ℕ → World → World
cut_short zero w = record w { clock = signal }
cut_short (suc k) w = w

abbrev left_job : Job
left_job =
    start (claimed_job succeeding message least ended cut_short 0 5 21 31 1 waiting_job rough_world)

abbrev next_day : Time
next_day = pos 90000000000000

cut_short_keeps :
    (id token : ℕ) (j : Job) (k : ℕ) (v : World)
    → IsKept id token j v
    → IsKept id token j (cut_short k v)
cut_short_keeps id token j zero v h = record {
  answered = h.answered;
  going = refl;
  unique = h.unique;
  row = h.row;
  found = h.found;
  held = h.held;
  in_flight = h.in_flight;
  attempt = h.attempt;
  max_retries = h.max_retries;
}
cut_short_keeps id token j (suc k) v h = h

process-IsForgotten_example :
    IsForgotten succeeding message least ended cut_short 0 5 21 31 1 waiting_job rough_world
      (process succeeding message least ended cut_short 0 5 21 31 1 (healthy rough_world))
      next_day
      left_job
unfolding process work finish beats mark_running complete_job remove_from_processing try_claim
    get_job exec redis_exec transaction try_claim_body tx_exec tx_skip_locked ◌+ℤ◌
process-IsForgotten_example =
    process-IsForgotten succeeding message least ended cut_short 0 5 21 31 1 waiting_job rough_world
      next_day left_job small_db-IsSoundTable.unique refl refl refl
      (λ k v h.
        cut_short_keeps 1 21
          (claimed_job succeeding message least ended cut_short 0 5 21 31 1 waiting_job rough_world)
          k v h)
      (λ v h. refl) refl refl

-- A new key, and no time given.
abbrev new_request : SubmitJobRequest
new_request = record same_request { idempotency_key = some "key-9" }

abbrev no_draw : ℕ → ℕ → ℕ → ℕ
no_draw k n i = 0

abbrev known : List TenantWeight
known = record { id = 6; weight = pos 3 } ∷ record { id = 7; weight = pos 1 } ∷ []

submitted_job-IsServed_example :
    ((create tenant_7 new_request 9 (healthy rough_world)).0
      ≡ created (job_of_request tenant_7 new_request 9 rough_world.clock))
    × IsServed tenant_7 new_request 9 rough_world refl failing message least endless idle 2 5 21 31
        no_draw known
        (dequeue endless no_draw 5 known dequeue_timeout
          (create tenant_7 new_request 9 (healthy rough_world)).1)
unfolding job_of_request
submitted_job-IsServed_example =
    submitted_job-IsServed tenant_7 new_request 9 rough_world refl failing message least endless
      idle 2 5 21 31 no_draw known small_db-IsSoundTable.unique (λ b t. refl) refl refl (λ k n h. h)
      (omega arith, (omega arith, tt)) refl (λ k v h. h)

-- The deadline of the running job has passed.
reap_stale_claims_takes_back_example :
    let v = reap_stale_claims (healthy rough_world) in
    (v.db.jobs ≡ update_where (is_stale rough_world.clock) requeue small_db.jobs)
    × (find (is_stale rough_world.clock) v.db.jobs ≡ none)
    × All (IsServedAgain v) (filter (is_stale rough_world.clock) small_db.jobs)
reap_stale_claims_takes_back_example =
    reap_stale_claims_takes_back rough_world small_db-IsSoundTable.unique

-- A scheduled job and a failed one are due.
abbrev due_job : Job
due_job = record waiting_job { state = scheduled }

abbrev failed_job : Job
failed_job = record waiting_job { id = 2; state = failed; attempt = 1; idempotency_key = none }

abbrev due_world : World
due_world = record rough_world { db = record small_db { jobs = due_job ∷ failed_job ∷ [] } }

polls-IsDue_example :
    let v = (tick next_hour template due_poll ([], healthy due_world)).1 in
    All
      (λ j. IsDue v j.run_at j)
      (ready_rows scheduled due_world.clock batch_size due_world.db.jobs)
    × All (IsDue v due_world.clock) (ready_rows failed due_world.clock batch_size due_world.db.jobs)
polls-IsDue_example =
    polls-IsDue next_hour template [] due_world (((λ e. omega (arith, e)), tt), (tt, tt))

-- One job is dead, and another has an entry already.
abbrev dead_job : Job
dead_job = record waiting_job {
  id = 2;
  state = dead;
  attempt = 2;
  last_error = some "boom";
  idempotency_key = none;
}

abbrev mourning_world : World
mourning_world = record rough_world {
  db = record small_db {
    jobs = waiting_job ∷ dead_job ∷ [];
    dead_letter = dead_entry (pos 7) (record dead_job { id = 9 }) ∷ [];
  };
}

promote_dead_jobs-Buries_example :
    let v = (tick next_hour template dead_letter_promoter ([], healthy mourning_world)).1 in
    Buries mourning_world.clock mourning_world.db v.db
    × All (IsEntered v.db) (list_rows dead_filter mourning_world.db.jobs)
promote_dead_jobs-Buries_example =
    promote_dead_jobs-Buries next_hour template [] mourning_world
      (((λ e. omega (arith, e)), tt), (tt, tt)) (tt, tt)

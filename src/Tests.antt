-- ===== src/Tests.antt =====
-- The theorems at concrete inputs.
mod Delivery
mod Start
mod Api
mod Data
mod Processes
mod Refinement
use jobit.Prelude.{
  Bool, ℕ, ◌≡◌, ◌≢◌, ◌≤◌, ◌+◌, ◌-◌, ◌*◌, ◌/◌, refl, inl, false, none, some, List, [], ◌∷◌, arith,
  All,
}
use jobit.Prelude.Int.{pos, ◌+ℤ◌, ◌≤ℤ◌}
use jobit.Job.{Job, pending}
use jobit.Job.Retry.{next_retry_at}
use jobit.Job.RetryWindow.{aimed_delay, next_retry_at_window}
use jobit.World.TableLaws.{by_key}
use jobit.World.{
  World, uuid_text, queue_1, queue_5, queue_10, healthy, ok, err, out_of_fuel, set_queue,
  set_processing,
}
use jobit.Storage.Sound.{budget, IsNew}
use jobit.Storage.Claims.{
  try_claim, mark_running, extend_deadline, complete_job, fail_job, requeue_stale_job,
}
use jobit.Tests.Data.{
  same_request, waiting_job, running_job, finished_job, new_job, tenant_7, small_db, empty_redis,
  rough_world, trace, small_db-IsSoundTable, busy_world,
}
use jobit.Storage.Recording.{IsFailed, fail_job-IsFailed}
use jobit.Storage.Reaper.{IsReaped, IsSpared, requeue_stale_job-fresh, requeue_stale_job-stale}
use jobit.Storage.Fencing.{id_of, Discarded, stale_worker_fenced}
use jobit.Storage.Claiming.{IsOutcome, try_claim-IsOutcome}
use jobit.Storage.Burst.{Attempt, winners, winners-le-one, winners-eq-one}
use jobit.Storage.Promote.{ready_rows, minute_ago}
use jobit.Lifecycle.{Op, step, run}
use jobit.Lifecycle.Change.{Change}
use jobit.Lifecycle.Sound.{IsAllowed, IsInserted, IsSoundTable, step-Change, run-IsSoundTable}
use jobit.Lifecycle.Automaton.{row_of, Fate, step-Fate, succeeded_final}
use jobit.Lifecycle.Budget.{claims_of, replays_of, claims_bounded}
use jobit.Queue.{scan, dequeue}
use jobit.Queue.Shuffle.{TenantWeight, total_from, pick, returned, weighted_shuffle}
use jobit.Queue.Fair.{IsPositive, weighted_shuffle-Perm}
use jobit.Queue.Order.{scan_first}
use jobit.Queue.Ends.{dequeue_ends}
use jobit.RateLimit.Window.{allowed, allowed_exactly}
use jobit.Scheduler.{batch_size, reconcile_pending}
use jobit.Scheduler.Delivery.{IsQueued, reconcile_pending-queues}
use jobit.Api.{ok_job, create}
use jobit.Api.Submit.{submit_idempotent}
use mathlib.Core.List.{Perm}

new_job-IsNew : IsNew new_job
new_job-IsNew = record { waiting = inl refl; untried = refl }

claims_bounded_example :
    claims_of 1 trace rough_world ≤ (1 + replays_of 1 trace rough_world) * budget waiting_job
claims_bounded_example =
    claims_bounded 1 trace rough_world
      (tt, (tt, ((new_job-IsNew, (λ e. omega (arith, e))), (tt, (tt, (tt, (tt, tt)))))))
      small_db-IsSoundTable waiting_job refl

stale_worker_fenced_example :
    ((mark_running 2 12 rough_world).1.db ≡ small_db)
    × ((extend_deadline 2 12 (pos 70) rough_world).1.db ≡ small_db)
    × Discarded rough_world (complete_job 2 30 12 rough_world)
    × Discarded rough_world (fail_job 2 30 12 "late" none rough_world)
stale_worker_fenced_example =
    stale_worker_fenced 2 12 30 (pos 70) "late" none rough_world small_db-IsSoundTable.unique refl

try_claim-IsOutcome_example :
    let (r, w') = try_claim 1 5 21 (pos 200000000000) 31 rough_world in
    IsOutcome 1 5 21 (pos 200000000000) 31 rough_world r w'.db
try_claim-IsOutcome_example =
    try_claim-IsOutcome 1 5 21 (pos 200000000000) 31 rough_world small_db-IsSoundTable.unique

abbrev two_attempts : List Attempt
two_attempts =
    record { worker = 5; token = 21; deadline = pos 200000000000; run = 31 }
    ∷ record { worker = 6; token = 22; deadline = pos 200000000000; run = 32 }
    ∷ []

winners-le-one_example : winners 1 two_attempts rough_world ≤ 1
winners-le-one_example = winners-le-one 1 two_attempts rough_world small_db-IsSoundTable.unique

winners-eq-one_example : winners 1 two_attempts (healthy rough_world) ≡ 1
winners-eq-one_example =
    winners-eq-one 1 (record { worker = 5; token = 21; deadline = pos 200000000000; run = 31 })
      (record { worker = 6; token = 22; deadline = pos 200000000000; run = 32 } ∷ []) rough_world
      small_db-IsSoundTable.unique refl

step-Fate_example :
    Fate running_job (row_of 2 (step (Op.fail 2 30 11 "boom" (some (pos 1))) rough_world))
step-Fate_example =
    step-Fate (Op.fail 2 30 11 "boom" (some (pos 1))) rough_world tt small_db-IsSoundTable.unique 2
      running_job refl

trace-IsAllowed : All IsAllowed trace
trace-IsAllowed = (tt, (tt, (new_job-IsNew, (tt, (tt, (tt, (tt, tt)))))))

succeeded_final_example : row_of 3 (run trace rough_world) ≡ some finished_job
succeeded_final_example =
    succeeded_final trace rough_world trace-IsAllowed small_db-IsSoundTable 3 finished_job refl refl

run-IsSoundTable_example : IsSoundTable (run trace rough_world).db.jobs
run-IsSoundTable_example = run-IsSoundTable trace rough_world trace-IsAllowed small_db-IsSoundTable

next_retry_at_window_example :
    (delay : ℕ) × (next_retry_at (λ n. 0) 3 (pos 30) (pos 7) ≡ pos 7 +ℤ pos (delay * 1000000000))
    × (aimed_delay 3 30 - aimed_delay 3 30 / 5 ≤ delay)
    × (delay ≤ aimed_delay 3 30 + aimed_delay 3 30 / 5)
next_retry_at_window_example = next_retry_at_window (λ n. 0) 3 30 (pos 7) (λ n h. h)

abbrev heavy : TenantWeight
heavy = record { id = 7; weight = pos 3 }

abbrev light : TenantWeight
light = record { id = 8; weight = pos 1 }

weights-IsPositive : All IsPositive (heavy ∷ light ∷ [])
weights-IsPositive = (omega arith, (omega arith, tt))

dequeue_ends_example :
    (dequeue (λ t. false) (λ n k m. 0) 5 (heavy ∷ light ∷ []) 200000000 rough_world).0
    ≢ err out_of_fuel
dequeue_ends_example =
    dequeue_ends (λ t. false) (λ n k m. 0) 5 (heavy ∷ light ∷ []) 200000000 rough_world
      (λ n k m h. h) weights-IsPositive

-- Two jobs wait in the middle queue of tenant 7.
abbrev queued_world : World
queued_world = record rough_world {
  redis = set_queue queue_5 7 (uuid_text 2 ∷ uuid_text 1 ∷ []) empty_redis;
}

scan_first_example :
    scan 5 ((queue_1, 7) ∷ (queue_5, 7) ∷ (queue_10, 7) ∷ []) (healthy queued_world) ≡ (
      ok (some 1),
      record queued_world {
        redis =
            set_processing 5
              (uuid_text 1 ∷ [])
              (set_queue queue_5 7 (uuid_text 2 ∷ []) queued_world.redis);
        script = [];
      },
    )
scan_first_example =
    scan_first 5 ((queue_1, 7) ∷ []) queue_5 7 ((queue_10, 7) ∷ []) queued_world (uuid_text 2 ∷ [])
      1 (refl, tt) refl

weighted_shuffle-Perm_example :
    (order : List ℕ) × (weighted_shuffle (λ k n. 0) (heavy ∷ light ∷ []) ≡ returned order)
    × Perm order (7 ∷ 8 ∷ [])
weighted_shuffle-Perm_example =
    weighted_shuffle-Perm (λ k n. 0) (heavy ∷ light ∷ []) (λ k n h. h) weights-IsPositive

from_heavy : total_from (pos 0) (heavy ∷ []) ≤ℤ pos 3
unfolding total_from ◌+ℤ◌
from_heavy = omega arith

below_total : ¬ (total_from (pos 0) (heavy ∷ []) +ℤ pos 1 ≤ℤ pos 3)
unfolding total_from ◌+ℤ◌
below_total h = omega (arith, h)

reconcile_pending-queues_example :
    All
      (IsQueued (reconcile_pending (healthy rough_world)).redis)
      (ready_rows pending (minute_ago rough_world.clock) batch_size small_db.jobs)
reconcile_pending-queues_example = reconcile_pending-queues rough_world

submit_idempotent_example :
    create tenant_7 same_request 40 (healthy rough_world)
    ≡ (ok_job waiting_job, healthy rough_world)
submit_idempotent_example =
    submit_idempotent tenant_7 same_request 40 rough_world "key-1" waiting_job refl refl

allowed_exactly_example : allowed 5 7 (pos 2) (healthy rough_world) ≡ 2
allowed_exactly_example = allowed_exactly 5 7 2 rough_world

requeue_stale_job-fresh_example :
    ((requeue_stale_job 2 (healthy busy_world)).0 ≡ ok false)
    × IsSpared 2 busy_world (requeue_stale_job 2 (healthy busy_world)).1
requeue_stale_job-fresh_example =
    requeue_stale_job-fresh 2 busy_world running_job small_db-IsSoundTable.unique refl refl

requeue_stale_job-stale_example :
    (dead_now : Bool) × ((requeue_stale_job 2 (healthy rough_world)).0 ≡ ok dead_now)
    × IsReaped running_job dead_now
        (by_key id_of 2 (requeue_stale_job 2 (healthy rough_world)).1.db.jobs)
requeue_stale_job-stale_example =
    requeue_stale_job-stale 2 rough_world running_job small_db-IsSoundTable.unique refl refl

fail_job-IsFailed_example :
    (k : Job) × ((fail_job 2 30 11 "boom" (some (pos 90)) (healthy rough_world)).0 ≡ ok tt)
    × (by_key id_of 2 (fail_job 2 30 11 "boom" (some (pos 90)) (healthy rough_world)).1.db.jobs
        ≡ some k)
    × IsFailed running_job (some (pos 90)) k
fail_job-IsFailed_example =
    fail_job-IsFailed 2 11 30 rough_world running_job small_db-IsSoundTable.unique refl refl refl
      "boom" (some (pos 90))

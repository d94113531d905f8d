-- ===== src/Lifecycle/Reach/Reads.antt =====
-- internal/api: the calls that leave the table `jobs` as it is.
use jobit.Prelude.{ℕ, ◌≡◌, refl, ◌∙◌, ap, arith, String, Bool, Option, none, some, List, [], ◌∷◌}
use jobit.Job.{Job, State}
use jobit.World.{World, Tenant, Schedule, Bucket, Result, ok, err, Call}
use jobit.Storage.Jobs.{get_job_for_tenant, list_jobs, ListFilter}
use jobit.Storage.Schedules.{
  insert_schedule_row, insert_schedule, get_schedule, list_schedules, delete_schedule, get_tenants,
  count_jobs_by_state, list_recent_runs, list_dead_letter,
}
use jobit.Lifecycle.Change.{exec-Leaves, Leaves}
use jobit.Lifecycle.Reach.{Reach, redis_exec-db}
use jobit.Api.{
  QueueDepth, Response, StateParam, any_state, no_state, of_state, list_in_state, answer_job,
  answer_list,
}
use jobit.Api.Schedules.{answer_insert_schedule, answer_schedules, answer_schedule, answer_delete}
use jobit.Api.Stats.{
  depth_at, depths_at, priorities, depths_of, depths_or_error, queue_depths, counted, counts_after,
  snapshot, answer_stats, handle_stats, answer_runs, answer_entries,
}

-- An answer is made of a result, and the world stays.
pub answers-Reach :
    {A : Type 0} (answer : Result A × World → Response × World) (m : Call A) (w : World)
    → Leaves m
    → ((p : Result A × World) → (answer p).1 ≡ p.1)
    → Reach w (answer (m w)).1
answers-Reach answer m w leaves same = Reach.idle (ap (λ v. v.db.jobs) (same (m w)) ∙ leaves w)

pub answer_job-world : (p : Result Job × World) → (answer_job p).1 ≡ p.1
answer_job-world (ok j, w) = refl
answer_job-world (err e, w) = ground arith

pub answer_list-world : (p : Result (List Job) × World) → (answer_list p).1 ≡ p.1
answer_list-world (ok j, w) = refl
answer_list-world (err e, w) = refl

pub answer_insert_schedule-world :
    (s : Schedule) (p : Result (Unit {0}) × World) → (answer_insert_schedule s p).1 ≡ p.1
answer_insert_schedule-world s (ok j, w) = refl
answer_insert_schedule-world s (err e, w) = ground arith

pub answer_schedules-world : (p : Result (List Schedule) × World) → (answer_schedules p).1 ≡ p.1
answer_schedules-world (ok j, w) = refl
answer_schedules-world (err e, w) = refl

pub answer_schedule-world : (p : Result Schedule × World) → (answer_schedule p).1 ≡ p.1
answer_schedule-world (ok j, w) = refl
answer_schedule-world (err e, w) = ground arith

pub answer_delete-world : (p : Result (Unit {0}) × World) → (answer_delete p).1 ≡ p.1
answer_delete-world (ok j, w) = refl
answer_delete-world (err e, w) = ground arith

pub answer_runs-world : (p : _ × World) → (answer_runs p).1 ≡ p.1
answer_runs-world (ok j, w) = refl
answer_runs-world (err e, w) = refl

pub answer_entries-world : (p : _ × World) → (answer_entries p).1 ≡ p.1
answer_entries-world (ok j, w) = refl
answer_entries-world (err e, w) = refl

pub get_job_for_tenant-Leaves : (id t : ℕ) → Leaves (get_job_for_tenant id t)
unfolding get_job_for_tenant
get_job_for_tenant-Leaves id t w = exec-Leaves _ (λ d. refl) w

pub list_jobs-Leaves : (f : ListFilter) → Leaves (list_jobs f)
unfolding list_jobs
list_jobs-Leaves f w = exec-Leaves _ (λ d. refl) w

pub list_in_state-Leaves :
    (t : Tenant) (p : StateParam) (limit offset : ℕ) → Leaves (list_in_state t p limit offset)
list_in_state-Leaves t any_state limit offset w = list_jobs-Leaves _ w
list_in_state-Leaves t (of_state s) limit offset w = list_jobs-Leaves _ w
list_in_state-Leaves t no_state limit offset w = exec-Leaves _ (λ d. refl) w

pub insert_schedule-Leaves : (stored : String) (s : Schedule) → Leaves (insert_schedule stored s)
unfolding insert_schedule insert_schedule_row
insert_schedule-Leaves stored s w = exec-Leaves (insert_schedule_row stored s) (λ d. ground arith) w

pub get_schedule-Leaves : (id : ℕ) → Leaves (get_schedule id)
unfolding get_schedule
get_schedule-Leaves id w = exec-Leaves _ (λ d. refl) w

pub list_schedules-Leaves :
    (by_name : String → String → Bool) (t : ℕ) → Leaves (list_schedules by_name t)
unfolding list_schedules
list_schedules-Leaves by_name t w = exec-Leaves _ (λ d. refl) w

pub delete_schedule-Leaves : (id t : ℕ) → Leaves (delete_schedule id t)
unfolding delete_schedule
delete_schedule-Leaves id t w = exec-Leaves _ (λ d. refl) w

pub list_recent_runs-Leaves : (n : ℕ) → Leaves (list_recent_runs n)
unfolding list_recent_runs
list_recent_runs-Leaves n w = exec-Leaves _ (λ d. refl) w

pub list_dead_letter-Leaves : (n : ℕ) → Leaves (list_dead_letter n)
unfolding list_dead_letter
list_dead_letter-Leaves n w = exec-Leaves _ (λ d. refl) w

-- The tables that a world holds are another's.
abbrev pub Same : World → World → Type 0
Same w w' = w'.db.jobs ≡ w.db.jobs

pub depth_at-Same : (t : Tenant) (b : Bucket) (w : World) → Same w (depth_at t b w).1
unfolding depth_at
depth_at-Same t b w = ap (λ d. d.jobs) (redis_exec-db _ w)

pub depths_at-Same : (t : Tenant) (bs : List Bucket) (w : World) → Same w (depths_at t bs w).1
unfolding depths_at
depths_at-Same t [] w = refl
depths_at-Same t (b ∷ bs) w = depths_at-Same t bs (depth_at t b w).1 ∙ depth_at-Same t b w

pub depths_of-Same : (ts : List Tenant) (w : World) → Same w (depths_of ts w).1
unfolding depths_of
depths_of-Same [] w = refl
depths_of-Same (t ∷ ts) w =
    depths_of-Same ts (depths_at t priorities w).1 ∙ depths_at-Same t priorities w

pub depths_or_error-Same : (p : Result (List Tenant) × World) → Same p.1 (depths_or_error p).1
depths_or_error-Same (ok ts, w) = depths_of-Same ts w
depths_or_error-Same (err e, w) = refl

pub counts_after-Same : (p : Result (List QueueDepth) × World) → Same p.1 (counts_after p).1
unfolding count_jobs_by_state
counts_after-Same (err e, w) = refl
counts_after-Same (ok ds, w) = go (count_jobs_by_state w) (exec-Leaves _ (λ d. refl) w)
  where
    go : (p : Result (List (State × ℕ)) × World) → Same w p.1 → Same w (counted ds p).1
    go (ok cs, v) same = same
    go (err e, v) same = same

pub answer_stats-world :
    (p : Option (List QueueDepth × List (State × ℕ)) × World) → (answer_stats p).1 ≡ p.1
answer_stats-world (some (ds, cs), w) = refl
answer_stats-world (none, w) = refl

pub snapshot-Same : (w : World) → Same w (snapshot w).1
unfolding snapshot queue_depths get_tenants
snapshot-Same w =
    counts_after-Same (queue_depths w)
    ∙ depths_or_error-Same (get_tenants w)
    ∙ exec-Leaves _ (λ d. refl) w

pub handle_stats-Reach : (w : World) → Reach w (handle_stats w).1
unfolding handle_stats
handle_stats-Reach w =
    Reach.idle (ap (λ v. v.db.jobs) (answer_stats-world (snapshot w)) ∙ snapshot-Same w)

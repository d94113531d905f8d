-- ===== src/Lifecycle/Reach/Ticks.antt =====
-- internal/scheduler/scheduler.go: a tick of any of the leader's loops acts on the table `jobs` by
-- operations only.
use jobit.Prelude.{ℕ, refl, ap, Bool, true, false, List, [], ◌∷◌}
use jobit.Job.{Job}
use jobit.World.{World, Result, ok, err, Call}
use jobit.Storage.Jobs.{list_jobs}
use jobit.Storage.Claims.{requeue_stale_job}
use jobit.Storage.Promote.{
  get_due_jobs, get_failed_ready_jobs, get_pending_jobs, get_stale_claims,
  promote_scheduled_to_pending, promote_failed_to_pending,
}
use jobit.Queue.{enqueue}
use jobit.Lifecycle.{Op, step}
use jobit.Lifecycle.Change.{exec-Leaves, Leaves}
use jobit.Lifecycle.Reach.{Reach, redis_exec-db}
use jobit.Scheduler.{
  batch_size, for_each, for_rows, enqueue_job, then_enqueue, poll_scheduled_jobs, poll_failed_jobs,
  enqueue_unless_dead, reap_stale_claims, dead_filter, promote_dead_jobs, reconcile_pending,
}

for_each-Reach :
    {A : Type 0} (f : A → World → World) (xs : List A) (w : World)
    → ((x : A) (v : World) → Reach v (f x v))
    → Reach w (for_each f xs w)
unfolding for_each
for_each-Reach f [] w h = Reach.idle refl
for_each-Reach f (x ∷ xs) w h = Reach.also (h x w) (for_each-Reach f xs (f x w) h)

for_rows-Reach :
    {A : Type 0} (f : A → World → World) (m : Call (List A)) (w : World)
    → Leaves m
    → ((x : A) (v : World) → Reach v (f x v))
    → Reach w (for_rows f (m w))
for_rows-Reach {A} f m w leaves h = Reach.also (Reach.idle (leaves w)) (go (m w))
  where
    go : (p : Result (List A) × World) → Reach p.1 (for_rows f p)
    go (ok xs, v) = for_each-Reach f xs v h
    go (err e, v) = Reach.idle refl

pub enqueue_job-Reach : (j : Job) (w : World) → Reach w (enqueue_job j w)
unfolding enqueue
enqueue_job-Reach j w = Reach.idle (ap (λ d. d.jobs) (redis_exec-db _ w))

then_enqueue-Reach : (j : Job) (p : Result (Unit {0}) × World) → Reach p.1 (then_enqueue j p)
then_enqueue-Reach j (ok _, w) = enqueue_job-Reach j w
then_enqueue-Reach j (err e, w) = Reach.idle refl

enqueue_unless_dead-Reach :
    (j : Job) (p : Result Bool × World) → Reach p.1 (enqueue_unless_dead j p)
enqueue_unless_dead-Reach j (ok true, w) = Reach.idle refl
enqueue_unless_dead-Reach j (ok false, w) = enqueue_job-Reach j w
enqueue_unless_dead-Reach j (err e, w) = Reach.idle refl

get_due_jobs-Leaves : (n : ℕ) → Leaves (get_due_jobs n)
unfolding get_due_jobs
get_due_jobs-Leaves n w = exec-Leaves _ (λ d. refl) w

get_failed_ready_jobs-Leaves : (n : ℕ) → Leaves (get_failed_ready_jobs n)
unfolding get_failed_ready_jobs
get_failed_ready_jobs-Leaves n w = exec-Leaves _ (λ d. refl) w

get_pending_jobs-Leaves : (n : ℕ) → Leaves (get_pending_jobs n)
unfolding get_pending_jobs
get_pending_jobs-Leaves n w = exec-Leaves _ (λ d. refl) w

get_stale_claims-Leaves : Leaves get_stale_claims
unfolding get_stale_claims
get_stale_claims-Leaves w = exec-Leaves _ (λ d. refl) w

list_jobs-Leaves : Leaves (list_jobs dead_filter)
unfolding list_jobs
list_jobs-Leaves w = exec-Leaves _ (λ d. refl) w

-- However the servers answer, a tick of any of the five loops on jobs acts on the table `jobs` as a
-- sequence of allowed operations.
pub ticks-Reach :
    (w : World)
    → Reach w (poll_scheduled_jobs w)
      × Reach w (poll_failed_jobs w)
      × Reach w (reap_stale_claims w)
      × Reach w (promote_dead_jobs w)
      × Reach w (reconcile_pending w)
unfolding poll_scheduled_jobs poll_failed_jobs reap_stale_claims promote_dead_jobs reconcile_pending
    step
ticks-Reach w = (
  for_rows-Reach _ (get_due_jobs batch_size) w (get_due_jobs-Leaves batch_size) (λ j v.
      Reach.also (Reach.does (Op.promote_scheduled j.id) tt)
        (then_enqueue-Reach j (promote_scheduled_to_pending j.id v))),
  for_rows-Reach _ (get_failed_ready_jobs batch_size) w (get_failed_ready_jobs-Leaves batch_size)
      (λ j v.
        Reach.also (Reach.does (Op.promote_failed j.id) tt)
          (then_enqueue-Reach j (promote_failed_to_pending j.id v))),
  for_rows-Reach _ get_stale_claims w get_stale_claims-Leaves (λ j v.
      Reach.also (Reach.does (Op.requeue j.id) tt)
        (enqueue_unless_dead-Reach j (requeue_stale_job j.id v))),
  for_rows-Reach _ (list_jobs dead_filter) w list_jobs-Leaves (λ j v. Reach.does (Op.bury j.id) tt),
  for_rows-Reach enqueue_job (get_pending_jobs batch_size) w (get_pending_jobs-Leaves batch_size)
      enqueue_job-Reach,
)

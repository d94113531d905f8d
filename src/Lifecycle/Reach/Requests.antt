-- ===== src/Lifecycle/Reach/Requests.antt =====
-- internal/api/handler.go: a request acts on the table `jobs` by operations only.
use jobit.Prelude.{
  ℕ, ◌≡◌, ◌⊎◌, inl, inr, refl, ap, arith, Bool, true, false, Option, none, some, if◌then◌else◌,
  ◌||◌,
}
use text.Mathlib.Text.{◌==◌ as str_eq}
use jobit.Job.{Job, state_eq, pending, scheduled, Time}
use jobit.Prelude.Int.{ℤ}
use jobit.World.{redis_exec, World, Tenant, Result, ok, err, duplicate}
use jobit.Storage.Jobs.{insert_job, get_job_by_idempotency_key, cancel_job, replay_job}
use jobit.Storage.Sound.{IsNew}
use jobit.Queue.{enqueue}
use jobit.RateLimit.{allow}
use jobit.Lifecycle.{Op, step}
use jobit.Lifecycle.Change.{exec-Leaves}
use jobit.Lifecycle.Reach.{Reach, redis_exec-db}
use jobit.Api.{
  SubmitJobRequest, Response, bad_request, state_for, later_than, job_of_request,
  original_or_conflict, answer_duplicate, enqueue_if_pending, answer_insert, create, limited,
  handle_submit_job, answer_cancel, handle_cancel_job, answer_replay, handle_replay_job,
}

state_for-waiting : (o : Option Time) → (state_for o ≡ pending) ⊎ (state_for o ≡ scheduled)
state_for-waiting none = inl refl
state_for-waiting (some _) = inr refl

job_of_request-IsNew :
    (t : Tenant) (q : SubmitJobRequest) (id : ℕ) (now : Time) → IsNew (job_of_request t q id now)
unfolding job_of_request
job_of_request-IsNew t q id now = record {
  waiting = state_for-waiting (later_than now q.run_at);
  untried = refl;
}

enqueue-Reach :
    (j : Job) (id : ℕ) (tenant : ℕ) (w : World) → Reach w (enqueue tenant id j.priority w).1
unfolding enqueue
enqueue-Reach j id tenant w = Reach.idle (ap (λ d. d.jobs) (redis_exec-db _ w))

enqueue_if_pending-Reach : (j : Job) (w : World) → Reach w (enqueue_if_pending j w)
enqueue_if_pending-Reach j w = go (state_eq j.state pending)
  where
    go : (b : Bool) → Reach w (if b then (enqueue j.tenant_id j.id j.priority w).1 else w)
    go true = enqueue-Reach j j.id j.tenant_id w
    go false = Reach.idle refl

original-Reach : (p : Result Job × World) → Reach p.1 (original_or_conflict p).1
original-Reach (ok j, w) = Reach.idle refl
original-Reach (err e, w) = Reach.idle refl

answer_duplicate-Reach :
    (t : Tenant) (key : Option _) (w : World) → Reach w (answer_duplicate t key w).1
unfolding answer_duplicate get_job_by_idempotency_key
answer_duplicate-Reach t none w = Reach.idle refl
answer_duplicate-Reach t (some key) w =
    Reach.also (Reach.idle (exec-Leaves _ (λ d. refl) w))
      (original-Reach (get_job_by_idempotency_key t.id key w))

answer_insert-Reach :
    (t : Tenant) (j : Job) (p : Result (Unit {0}) × World) → Reach p.1 (answer_insert t j p).1
answer_insert-Reach t j (ok _, w) = enqueue_if_pending-Reach j w
answer_insert-Reach t j (err duplicate, w) = answer_duplicate-Reach t j.idempotency_key w
answer_insert-Reach t j (err e, w) = Reach.idle refl

create-Reach :
    (t : Tenant) (q : SubmitJobRequest) (id : ℕ) (w : World) → Reach w (create t q id w).1
unfolding create step
create-Reach t q id w =
    let j = job_of_request t q id w.clock in
    Reach.also (Reach.does (Op.insert j) (job_of_request-IsNew t q id w.clock))
      (answer_insert-Reach t j (insert_job j w))

limited-Reach :
    (next : World → Response × World) (p : Result Bool × World)
    → ((v : World) → Reach v (next v).1)
    → Reach p.1 (limited next p).1
limited-Reach next (ok false, w) h = Reach.idle refl
limited-Reach next (ok true, w) h = h w
limited-Reach next (err e, w) h = h w

allow-jobs : (t : ℕ) (limit : ℤ) (w : World) → (allow t limit w).1.db.jobs ≡ w.db.jobs
unfolding allow redis_exec
allow-jobs t limit w = ground arith

create-limited-Reach :
    (b : Bool) (t : Tenant) (q : SubmitJobRequest) (id : ℕ) (w : World)
    → Reach w (if b then limited (create t q id) (allow t.id t.rate_limit w) else create t q id w).1
create-limited-Reach true t q id w =
    Reach.also (Reach.idle (allow-jobs t.id t.rate_limit w))
      (limited-Reach (create t q id) (allow t.id t.rate_limit w) (create-Reach t q id))
create-limited-Reach false t q id w = create-Reach t q id w

submit-Reach :
    (b : Bool) (t : Tenant) (q : Option SubmitJobRequest) (id : ℕ) (w : World)
    → Reach w (handle_submit_job b t q id w).1
unfolding handle_submit_job
submit-Reach b t none id w = Reach.idle refl
submit-Reach b t (some q) id w = go (str_eq q.kind "" || str_eq q.payload "")
  where
    go :
        (refuse : Bool)
        → Reach w
            (if refuse
              then (bad_request, w)
              else if b
              then limited (create t q id) (allow t.id t.rate_limit w)
              else create t q id w).1
    go true = Reach.idle refl
    go false = create-limited-Reach b t q id w

answer_cancel-Reach : (p : Result (Unit {0}) × World) → Reach p.1 (answer_cancel p).1
answer_cancel-Reach (ok _, w) = Reach.idle refl
answer_cancel-Reach (err e, w) = Reach.idle (ground arith)

answer_replay-Reach :
    (t : Tenant) (id : ℕ) (p : Result Job × World) → Reach p.1 (answer_replay t id p).1
answer_replay-Reach t id (ok j, w) = enqueue-Reach j id t.id w
answer_replay-Reach t id (err e, w) = Reach.idle (ground arith)

-- However the servers answer, a request to submit, to cancel or to replay a job acts on the table
-- `jobs` as a sequence of allowed operations.
pub requests-Reach :
    (has_limiter : Bool) (t : Tenant) (q : Option SubmitJobRequest) (new_id : ℕ) (id : Option ℕ)
    (w : World)
    → Reach w (handle_submit_job has_limiter t q new_id w).1
      × Reach w (handle_cancel_job t id w).1
      × Reach w (handle_replay_job t id w).1
unfolding handle_cancel_job handle_replay_job step
requests-Reach has_limiter t q new_id none w =
    (submit-Reach has_limiter t q new_id w, Reach.idle refl, Reach.idle refl)
requests-Reach has_limiter t q new_id (some id) w = (
  submit-Reach has_limiter t q new_id w,
  Reach.also (Reach.does (Op.cancel id t.id) tt) (answer_cancel-Reach (cancel_job id t.id w)),
  Reach.also (Reach.does (Op.replay id t.id) tt) (answer_replay-Reach t id (replay_job id t.id w)),
)

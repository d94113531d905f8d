-- ===== src/Lifecycle/Delivery.antt =====
-- From internal/api/handler.go over internal/queue/queue.go to internal/worker/worker.go: a job that is
-- submitted reaches a worker and comes to its end.
use jobit.Prelude.{
  ℕ, ◌≡◌, refl, sym, ◌∙◌, ap, String, Bool, true, false, Option, none, some, List, [], ◌∷◌, map,
  ◌==◌, ==_refl, All, arith,
}
use mathlib.Core.Path.{subst}
use jobit.Job.{Job, Time, state_eq, pending}
use jobit.World.{
  World, Tenant, Redis, Bucket, bucket_eq_refl, uuid_text, lpush, healthy, find, exec, redis_exec,
  Result, ok, done, answer,
}
use jobit.World.TableLaws.{UniqueKeys, UniqueKeys-append, by_key, find-append, find_stronger}
use jobit.Storage.Jobs.{conflicts, inserted_row, insert_row-free, insert_job}
use jobit.Storage.Fencing.{id_of}
use jobit.Queue.{bucket_for_priority, enqueue, dequeue}
use jobit.Queue.Shuffle.{TenantWeight}
use jobit.Queue.Fair.{AreDraws, IsPositive, tenant_id_of}
use jobit.Queue.Only.{is_in, OnlyAt, taken_world, dequeue_only}
use jobit.Api.{
  SubmitJobRequest, created, later_than, job_of_request, answer_insert, enqueue_if_pending, create,
}
use jobit.Api.Submit.Outcome.{with_job}
use jobit.Worker.{ExecError, process}
use jobit.Worker.Run.{dequeue_timeout}
use jobit.Worker.Holding.{IsHolding}
use jobit.Worker.Outcome.{IsOver, claimed_job, process-IsOver}

abbrev pub AreEmpty : Redis → Type 0
AreEmpty r = (b : Bucket) (t : ℕ) → r.queues b t ≡ []

lpush-OnlyAt :
    (b : Bucket) (t id : ℕ) (r : Redis) → AreEmpty r → OnlyAt b t (lpush b t (uuid_text id) r)
lpush-OnlyAt b t id r empty c u other = rw other (empty c u)

lpush_here :
    (b : Bucket) (t id : ℕ) (r : Redis)
    → AreEmpty r
    → (lpush b t (uuid_text id) r).queues b t ≡ uuid_text id ∷ []
lpush_here b t id r empty = rw (bucket_eq_refl b, ==_refl t, empty b t) refl

-- The world after a submission that inserts a job which is due.
abbrev pub submitted_world : Job → World → World
submitted_world j w = record w {
  db = with_job j w.db;
  redis = lpush (bucket_for_priority j.priority) j.tenant_id (uuid_text j.id) w.redis;
  script = [];
}

pushed_if_pending :
    (j : Job) (w : World)
    → state_eq j.state pending ≡ true
    → enqueue_if_pending j (record w { db = with_job j w.db; script = [] }) ≡ submitted_world j w
unfolding enqueue redis_exec
pushed_if_pending j w h = rw h refl

module _ (t : Tenant) (q : SubmitJobRequest) (id : ℕ) (w : World)
    (due : later_than w.clock q.run_at ≡ none) where
  abbrev submitted : Job
  submitted = job_of_request t q id w.clock

  submitted_pending : state_eq submitted.state pending ≡ true
  unfolding job_of_request
  submitted_pending = rw due refl

  create_free :
      find (conflicts submitted) w.db.jobs ≡ none
      → create t q id (healthy w) ≡ (created submitted, submitted_world submitted w)
  unfolding create insert_job exec
  create_free free =
      ap (λ p. answer_insert t submitted (answer done p (healthy w)))
        (insert_row-free submitted w.db free)
      ∙ ap (λ v. (created submitted, v)) (pushed_if_pending submitted w submitted_pending)

  absent : find (conflicts submitted) w.db.jobs ≡ none → by_key id_of id w.db.jobs ≡ none
  unfolding job_of_request
  absent free =
      find_stronger (λ x. x.id == id) (conflicts submitted) (λ x e. rw e refl) w.db.jobs free

  submitted-found :
      find (conflicts submitted) w.db.jobs ≡ none
      → by_key id_of id (with_job submitted w.db).jobs ≡ some (inserted_row submitted)
  unfolding job_of_request
  submitted-found free =
      find-append (λ x. x.id == id) w.db.jobs (inserted_row submitted) (absent free) (==_refl id)

  module _ (execute : Job → Option ExecError) (message : ExecError → String) (intn : ℕ → ℕ)
      (is_done : Time → Bool) (meanwhile : ℕ → World → World) (ticks worker_id token run_id : ℕ)
      (rand : ℕ → ℕ → ℕ → ℕ) (tenants : List TenantWeight) where
    -- The job as the worker that takes it at once has claimed it.
    abbrev pub delivered_job : Job
    delivered_job =
        claimed_job execute message intn is_done meanwhile ticks worker_id token run_id id
          (inserted_row submitted) w

    abbrev pub IsServed : Result (Option ℕ) × World → Type 0
    IsServed (a, w2) =
        (a ≡ ok (some id))
        × IsOver is_done worker_id id delivered_job (execute delivered_job)
            (process execute message intn is_done meanwhile ticks worker_id token run_id id w2)

    served :
        UniqueKeys id_of w.db.jobs
        → AreEmpty w.redis
        → find (conflicts submitted) w.db.jobs ≡ none
        → is_in t.id (map tenant_id_of tenants) ≡ true
        → AreDraws (rand 0)
        → All IsPositive tenants
        → is_done w.clock ≡ false
        → ((k : ℕ) (v : World)
            → IsHolding is_done id token delivered_job v
            → IsHolding is_done id token delivered_job (meanwhile k v))
        → IsServed
            (dequeue is_done rand worker_id tenants dequeue_timeout (submitted_world submitted w))
    unfolding job_of_request
    served u empty free known draws positive running rely =
        let b = bucket_for_priority submitted.priority in
        let v = submitted_world submitted w in
        subst IsServed
          (sym (
            dequeue_only worker_id b t.id id [] v (lpush-OnlyAt b t.id id w.redis empty)
              (lpush_here b t.id id w.redis empty) is_done rand tenants dequeue_timeout draws
              positive known (omega arith) running))
          (
            refl,
            process-IsOver execute message intn is_done meanwhile ticks worker_id token run_id id
                (inserted_row submitted) (taken_world worker_id b t.id [] id v)
                (UniqueKeys-append id_of (inserted_row submitted) w.db.jobs (absent free) u)
                (submitted-found free) submitted_pending running rely,
          )

    -- Where job ids are unique, every queue of every tenant is empty and the servers answer, a submission
    -- that is due and whose id and key are free is answered as created; a worker that knows the tenant,
    -- with positive weights and legal draws, and whose Dequeue comes before anything else happens,
    -- takes the job; and where the others leave its claim alone and the worker's context is not done
    -- while the job executes, process records the end of the job, as its run says, and lets go of it.
    pub submitted_job-IsServed :
        UniqueKeys id_of w.db.jobs
        → AreEmpty w.redis
        → find (conflicts submitted) w.db.jobs ≡ none
        → is_in t.id (map tenant_id_of tenants) ≡ true
        → AreDraws (rand 0)
        → All IsPositive tenants
        → is_done w.clock ≡ false
        → ((k : ℕ) (v : World)
            → IsHolding is_done id token delivered_job v
            → IsHolding is_done id token delivered_job (meanwhile k v))
        → ((create t q id (healthy w)).0 ≡ created submitted)
          × IsServed
              (dequeue is_done rand worker_id tenants dequeue_timeout (create t q id (healthy w)).1)
    submitted_job-IsServed u empty free known draws positive running rely =
        subst
          (λ p.
            (p.0 ≡ created submitted)
            × IsServed (dequeue is_done rand worker_id tenants dequeue_timeout p.1))
          (sym (create_free free)) (refl, served u empty free known draws positive running rely)

-- ===== src/Scheduler/Delivery.antt =====
-- internal/scheduler/scheduler.go, reconcilePending: what Redis has lost, Postgres restores.
use mathlib.Core.Path.{subst}
use jobit.Prelude.{
  sym, inl, inr, Bool-cases, ℕ, ◌≡◌, refl, ◌∙◌, ap, Bool, true, false, ◌&&◌, List, [], ◌∷◌, All,
  arith, ◌==◌, ==_refl, if◌then◌else◌,
}
use jobit.Job.{Job, pending}
use jobit.World.{
  healthy, World, Element, uuid_text, Bucket, queue_1, queue_5, queue_10, bucket_eq, bucket_eq_refl,
  Redis, is_uuid, lpush, exec, redis_exec,
}
use jobit.Storage.Promote.{ready_rows, minute_ago, get_pending_jobs}
use jobit.Queue.{bucket_for_priority, enqueue}
use jobit.Scheduler.{for_each, enqueue_job, batch_size, reconcile_pending}

abbrev pub holds_uuid : ℕ → List Element → Bool
holds_uuid id [] = false
holds_uuid id (e ∷ es) = if is_uuid id e then true else holds_uuid id es

-- Whether a job's id is in the queue of its tenant and priority.
abbrev pub is_queued : Redis → Job → Bool
is_queued r j = holds_uuid j.id (r.queues (bucket_for_priority j.priority) j.tenant_id)

abbrev pushed : Job → World → World
pushed j w = record w {
  redis = lpush (bucket_for_priority j.priority) j.tenant_id (uuid_text j.id) w.redis;
}

enqueue_healthy : (j : Job) (w : World) → enqueue_job j (healthy w) ≡ healthy (pushed j w)
unfolding enqueue redis_exec
enqueue_healthy j w = refl

bucket_eq-true : (b c : Bucket) → bucket_eq b c ≡ true → b ≡ c
bucket_eq-true queue_1 queue_1 h = refl
bucket_eq-true queue_5 queue_5 h = refl
bucket_eq-true queue_10 queue_10 h = refl
bucket_eq-true queue_1 queue_5 h = cc
bucket_eq-true queue_1 queue_10 h = cc
bucket_eq-true queue_5 queue_1 h = cc
bucket_eq-true queue_5 queue_10 h = cc
bucket_eq-true queue_10 queue_1 h = cc
bucket_eq-true queue_10 queue_5 h = cc

cons_keeps :
    (id : ℕ) (e : Element) (es : List Element)
    → holds_uuid id es ≡ true
    → holds_uuid id (e ∷ es) ≡ true
cons_keeps id e es h = ground arith

push-keeps :
    (q : Bucket → ℕ → List Element) (b c : Bucket) (t u id : ℕ) (e : Element)
    → holds_uuid id (q c u) ≡ true
    → holds_uuid id (if bucket_eq c b && u == t then e ∷ q b t else q c u) ≡ true
push-keeps q b c t u id e h = elim (Bool-cases (bucket_eq c b)) [
  | inr other ↦ rw other h
  | inl same ↦ elim (Bool-cases (u == t)) [
    | inr other ↦ rw (same, other) h
    | inl same_t ↦
        let equal : c ≡ b = bucket_eq-true c b same in
        let equal_t : u ≡ t = ground (arith, same_t) in
        let held : holds_uuid id (q b t) ≡ true =
          sym (ap (λ x. holds_uuid id (q x t)) equal)
          ∙ sym (ap (λ v. holds_uuid id (q c v)) equal_t)
          ∙ h in
        rw (same, same_t) (cons_keeps id e (q b t) held)
  ]
]

pub pushed-queued : (j : Job) (w : World) → is_queued (pushed j w).redis j ≡ true
pushed-queued j w =
    rw (bucket_eq_refl (bucket_for_priority j.priority), ==_refl j.tenant_id, ==_refl j.id) refl

pub pushed-keeps :
    (j k : Job) (w : World) → is_queued w.redis k ≡ true → is_queued (pushed j w).redis k ≡ true
pushed-keeps j k w h =
    push-keeps w.redis.queues (bucket_for_priority j.priority) (bucket_for_priority k.priority)
      j.tenant_id k.tenant_id k.id (uuid_text j.id) h

for_each-keeps :
    (js : List Job) (w : World) (k : Job)
    → is_queued w.redis k ≡ true
    → is_queued (for_each enqueue_job js (healthy w)).redis k ≡ true
unfolding for_each
for_each-keeps [] w k h = h
for_each-keeps (j ∷ js) w k h =
    ap (λ v. is_queued (for_each enqueue_job js v).redis k) (enqueue_healthy j w)
    ∙ for_each-keeps js (pushed j w) k (pushed-keeps j k w h)

abbrev pub IsQueued : Redis → Job → Type 0
IsQueued r j = is_queued r j ≡ true

for_each-queues :
    (js : List Job) (w : World) → All (IsQueued (for_each enqueue_job js (healthy w)).redis) js
unfolding for_each
for_each-queues [] w = tt
for_each-queues (j ∷ js) w =
    subst (λ v. All (IsQueued (for_each enqueue_job js v).redis) (j ∷ js))
      (sym (enqueue_healthy j w))
      (for_each-keeps js (pushed j w) j (pushed-queued j w), for_each-queues js (pushed j w))

-- While the servers answer, after a tick of reconcilePending each of the jobs that have been
-- pending for a minute, of the first 500 by priority and time, is in its queue, whatever Redis held
-- before.
pub reconcile_pending-queues :
    (w : World)
    → All
        (IsQueued (reconcile_pending (healthy w)).redis)
        (ready_rows pending (minute_ago w.clock) batch_size w.db.jobs)
unfolding reconcile_pending get_pending_jobs exec
reconcile_pending-queues w =
    for_each-queues (ready_rows pending (minute_ago w.clock) batch_size w.db.jobs) w

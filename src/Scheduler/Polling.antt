-- ===== src/Scheduler/Polling.antt =====
-- internal/scheduler/scheduler.go, pollScheduledJobs and pollFailedJobs: what the promotion of a batch does to
-- its jobs, one after another.
pub mod Due
use mathlib.Core.Path.{subst}
use jobit.Prelude.{
  ℕ, String, ◌≡◌, ◌≢◌, refl, sym, ◌∙◌, ap, inl, inr, Bool, true, false, Bool-cases, Option, List,
  [], ◌∷◌, All, filter, take, arith, ◌==◌, ==_refl, some,
}
use jobit.Job.{Job, State, Time, state_eq, pending, scheduled, failed}
use jobit.World.{World, healthy, uuid_text, lpush, exec, redis_exec, update_where, order_by}
use jobit.World.TableLaws.{UniqueKeys, UniqueKeys-update, by_key, by_key-update}
use jobit.Storage.Bodies.{update_jobs}
use jobit.Storage.Fencing.{id_of}
use jobit.Storage.Partitions.{Partition}
use jobit.Storage.Promote.{
  sooner, ready_rows, is_in_state, promote, promote_at, promote_scheduled_to_pending,
  promote_failed_to_pending, get_due_jobs, get_failed_ready_jobs,
}
use jobit.Queue.{bucket_for_priority, enqueue}
use jobit.Scheduler.{
  Template, for_each, then_enqueue, batch_size, poll_scheduled_jobs, poll_failed_jobs,
}
use jobit.Scheduler.Run.{tick, due_poll}
use jobit.Scheduler.Batch.{All-both, IsSelected, is_ready, ready_rows-IsSelected}
use jobit.Scheduler.Delivery.{IsQueued, pushed-queued, pushed-keeps}

filter-update :
    (p q : Job → Bool) (f : Job → Job)
    → ((x : Job) → q x ≡ true → (p x ≡ false) × (p (f x) ≡ false))
    → (xs : List Job) → filter p (update_where q f xs) ≡ filter p xs
filter-update p q f h [] = refl
filter-update p q f h (x ∷ xs) = elim (Bool-cases (q x)) [
  | inl e ↦ rw (e, (h x e).0, (h x e).1) (filter-update p q f h xs)
  | inr e ↦ rw e (ground (arith, filter-update p q f h xs))
]

not_ready : (s : State) (t : Time) (x : Job) → state_eq x.state s ≡ false → is_ready s t x ≡ false
not_ready s t x h = rw h refl

in_state : (s : State) (id : ℕ) (x : Job) → is_in_state s id x ≡ true → state_eq x.state s ≡ true
in_state s id x h = ground (arith, h)

-- One job of the batch: `f` is what its promotion makes of the row, at the clock's time.
abbrev pub polled : State → (Time → Job → Job) → Job → World → World
polled s f j w = record w {
  db = update_jobs (is_in_state s j.id) (f w.clock) w.db;
  redis = lpush (bucket_for_priority j.priority) j.tenant_id (uuid_text j.id) w.redis;
}

-- The row of the job is `x`, and the job is in its queue.
abbrev pub Stands : Job → World → Job → Type 0
Stands x v k = (by_key id_of k.id v.db.jobs ≡ some x) × IsQueued v.redis k

abbrev pub IsDelivered : (Time → Job → Job) → Time → World → Job → Type 0
IsDelivered f t v j = Stands (f t j) v j

abbrev IsWaiting : State → World → Job → Type 0
IsWaiting s w j = (by_key id_of j.id w.db.jobs ≡ some j) × (state_eq j.state s ≡ true)

module _ (s : State) (f : Time → Job → Job) (same_id : (t : Time) (j : Job) → (f t j).id ≡ j.id)
    (one : Job → World → World)
    (step : (j : Job) (w : World) → one j (healthy w) ≡ healthy (polled s f j w)) where
  polled-keeps :
      (j k x : Job) (w : World)
      → k.id ≢ j.id
      → x.id ≡ k.id
      → Stands x w k
      → Stands x (polled s f j w) k
  polled-keeps j k x w other same (found, queued) =
      let apart : (x.id == j.id) ≡ false = ground (arith, other, same) in
      (
        by_key-update id_of (is_in_state s j.id) (f w.clock) (λ y e. same_id w.clock y) k.id
              w.db.jobs
            ∙ rw (found, apart) refl,
        pushed-keeps j k w queued,
      )

  pub each-keeps :
      (js : List Job) (k x : Job) (w : World)
      → All (λ j. j.id ≢ k.id) js
      → x.id ≡ k.id
      → Stands x w k
      → Stands x (for_each one js (healthy w)) k
  unfolding for_each
  each-keeps [] k x w h same d = d
  each-keeps (j ∷ js) k x w h same d =
      subst (λ v. Stands x (for_each one js v) k) (sym (step j w))
        (each-keeps js k x (polled s f j w) h.1 same
          (polled-keeps j k x w (λ e. h.0 (sym e)) same d))

  polled-IsWaiting :
      (j k : Job) (w : World) → k.id ≢ j.id → IsWaiting s w k → IsWaiting s (polled s f j w) k
  polled-IsWaiting j k w other (found, e) =
      let apart : (k.id == j.id) ≡ false = ground (arith, other) in
      (
        by_key-update id_of (is_in_state s j.id) (f w.clock) (λ x e. same_id w.clock x) k.id
              w.db.jobs
            ∙ rw (found, apart) refl,
        e,
      )

  polled-IsDelivered :
      (j : Job) (w : World) → IsWaiting s w j → IsDelivered f w.clock (polled s f j w) j
  polled-IsDelivered j w (found, e) = (
    by_key-update id_of (is_in_state s j.id) (f w.clock) (λ x e. same_id w.clock x) j.id w.db.jobs
        ∙ rw (found, ==_refl j.id, e) refl,
    pushed-queued j w,
  )

  for_each-IsDelivered :
      (js : List Job) (w : World)
      → UniqueKeys id_of js
      → All (IsWaiting s w) js
      → All (IsDelivered f w.clock (for_each one js (healthy w))) js
  unfolding for_each
  for_each-IsDelivered [] w u h = tt
  for_each-IsDelivered (j ∷ js) w u h =
      subst (λ v. All (IsDelivered f w.clock (for_each one js v)) (j ∷ js)) (sym (step j w))
        (
          each-keeps js j (f w.clock j) (polled s f j w) u.0 (same_id w.clock j)
              (polled-IsDelivered j w h.0),
          for_each-IsDelivered js (polled s f j w) u.1 (
              All-both (λ k. k.id ≢ j.id) (IsWaiting s w) (IsWaiting s (polled s f j w))
                (λ k. polled-IsWaiting j k w) js u.0 h.1),
        )

  -- The rows of the query are such a batch.
  pub batch-IsDelivered :
      (limit : ℕ) (w : World)
      → UniqueKeys id_of w.db.jobs
      → let js = ready_rows s w.clock limit w.db.jobs in
        All (IsDelivered f w.clock (for_each one js (healthy w))) js
  batch-IsDelivered limit w u =
      let (unique, selected) = ready_rows-IsSelected s w.clock limit w.db.jobs u in
      let js = ready_rows s w.clock limit w.db.jobs in
      for_each-IsDelivered js w unique (
        All-both (IsSelected (is_ready s w.clock) w.db.jobs)
          (IsSelected (is_ready s w.clock) w.db.jobs) (IsWaiting s w)
          (λ j (found, e) k. (found, ground (arith, e))) js selected selected)

  -- The world after the batch.
  pub polls : List Job → World → World
  polls [] w = w
  polls (j ∷ js) w = polls js (polled s f j w)

  pub for_each-polls :
      (js : List Job) (w : World) → for_each one js (healthy w) ≡ healthy (polls js w)
  unfolding for_each polls
  for_each-polls [] w = refl
  for_each-polls (j ∷ js) w = ap (for_each one js) (step j w) ∙ for_each-polls js (polled s f j w)

  pub polls-clock : (js : List Job) (w : World) → (polls js w).clock ≡ w.clock
  unfolding polls
  polls-clock [] w = refl
  polls-clock (j ∷ js) w = polls-clock js (polled s f j w)

  pub polls_unique :
      (js : List Job) (w : World)
      → UniqueKeys id_of w.db.jobs
      → UniqueKeys id_of (polls js w).db.jobs
  unfolding polls
  polls_unique [] w u = u
  polls_unique (j ∷ js) w u = polls_unique js (polled s f j w) (
      UniqueKeys-update id_of (is_in_state s j.id) (f w.clock) (λ x e. same_id w.clock x) w.db.jobs
        u)

  -- A batch leaves alone what a query for jobs in another state gives, where it makes none of those.
  pub polls-ready_rows :
      (s' : State) (t : Time) (limit : ℕ)
      → ((x : Job) → state_eq x.state s ≡ true → state_eq x.state s' ≡ false)
      → ((t' : Time) (x : Job) → state_eq (f t' x).state s' ≡ false)
      → (js : List Job) (w : World)
      → ready_rows s' t limit (polls js w).db.jobs ≡ ready_rows s' t limit w.db.jobs
  unfolding polls ready_rows
  polls-ready_rows s' t limit before after [] w = refl
  polls-ready_rows s' t limit before after (j ∷ js) w =
      polls-ready_rows s' t limit before after js (polled s f j w)
      ∙ ap (λ xs. take limit (order_by sooner xs))
          (filter-update (is_ready s' t) (is_in_state s j.id) (f w.clock)
            (λ x e. (
              not_ready s' t x (before x (in_state s j.id x e)),
              not_ready s' t (f w.clock x) (after w.clock x),
            ))
            w.db.jobs)

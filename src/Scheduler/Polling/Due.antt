-- ===== src/Scheduler/Polling/Due.antt =====
-- internal/scheduler/scheduler.go, runDuePoll: a tick makes its two batches of due jobs pending and puts each
-- job in its queue.
use mathlib.Core.Path.{subst}
use jobit.Prelude.{
  String, ◌≡◌, ◌≢◌, refl, sym, ◌∙◌, ap, true, false, Option, List, [], ◌∷◌, All, arith, some,
}
use jobit.Job.{Job, State, Time, state_eq, pending, scheduled, failed}
use jobit.World.{World, healthy, exec, redis_exec}
use jobit.World.TableLaws.{UniqueKeys, by_key}
use jobit.Storage.Fencing.{id_of}
use jobit.Storage.Partitions.{Partition}
use jobit.Storage.Promote.{
  ready_rows, promote, promote_at, promote_scheduled_to_pending, promote_failed_to_pending,
  get_due_jobs, get_failed_ready_jobs,
}
use jobit.Queue.{enqueue}
use jobit.Scheduler.{
  Template, for_each, then_enqueue, batch_size, poll_scheduled_jobs, poll_failed_jobs,
}
use jobit.Scheduler.Run.{tick, due_poll}
use jobit.Scheduler.Batch.{All-both, IsSelected, is_ready, ready_rows-IsSelected}
use jobit.Scheduler.Delivery.{IsQueued}
use jobit.Scheduler.Polling.{
  polled, IsDelivered, each-keeps, batch-IsDelivered, polls, for_each-polls, polls-clock,
  polls_unique, polls-ready_rows,
}

scheduled_not_failed :
    (x : Job) → state_eq x.state scheduled ≡ true → state_eq x.state failed ≡ false
scheduled_not_failed x h = go x.state h
  where
    go : (s : State) → state_eq s scheduled ≡ true → state_eq s failed ≡ false
    go s e = ground (arith, e)

no_failed :
    (k j : Job)
    → (let x : Option Job = some (promote k) in x ≡ some j)
    → state_eq j.state failed ≡ true
    → ⊥
no_failed k j clash still =
    let e : promote k ≡ j = cc in
    let f : state_eq (promote k).state failed ≡ true =
      subst (λ y. state_eq y.state failed ≡ true) (sym e) still in
    cc

abbrev one_scheduled : Job → World → World
one_scheduled j v = then_enqueue j (promote_scheduled_to_pending j.id v)

abbrev one_failed : Job → World → World
one_failed j v = then_enqueue j (promote_failed_to_pending j.id v)

-- The job is pending and due at `t`, with its tries as they were, no worker holds it, and it is in its queue.
pub record IsDue (v : World) (t : Time) (j : Job) : Type 0 where
  pub row : Job
  pub found : by_key id_of j.id v.db.jobs ≡ some row
  pub is_pending : row.state ≡ pending
  pub due_at : row.run_at ≡ t
  pub same_tries : (row.attempt ≡ j.attempt) × (row.max_retries ≡ j.max_retries)
  pub same_token : row.claim_token ≡ j.claim_token
  pub queued : IsQueued v.redis j

scheduled-IsDue :
    (v : World) (t : Time) (j : Job) → IsDelivered (λ t. promote) t v j → IsDue v j.run_at j
scheduled-IsDue v t j (found, queued) = record {
  row = promote j;
  found = found;
  is_pending = refl;
  due_at = refl;
  same_tries = (refl, refl);
  same_token = refl;
  queued = queued;
}

failed-IsDue : (v : World) (t : Time) (j : Job) → IsDelivered promote_at t v j → IsDue v t j
failed-IsDue v t j (found, queued) = record {
  row = promote_at t j;
  found = found;
  is_pending = refl;
  due_at = refl;
  same_tries = (refl, refl);
  same_token = refl;
  queued = queued;
}

-- A job that has been made pending is none of the failed jobs.
apart_from_failed :
    (w : World) (t : Time) (k : Job) (js : List Job)
    → by_key id_of k.id w.db.jobs ≡ some (promote k)
    → All (IsSelected (is_ready failed t) w.db.jobs) js
    → All (λ j. j.id ≢ k.id) js
apart_from_failed w t k [] h sel = tt
apart_from_failed w t k (j ∷ js) h sel = (
  λ same.
      let e : by_key id_of k.id w.db.jobs ≡ some j =
        subst (λ i. by_key id_of i w.db.jobs ≡ some j) same sel.0.0 in
      let clash : (let x : Option Job = some (promote k) in x ≡ some j) = sym h ∙ e in
      let still : state_eq j.state failed ≡ true = ground (arith, sel.0.1) in
      no_failed k j clash still,
  apart_from_failed w t k js h sel.1,
)

scheduled_step :
    (j : Job) (w : World)
    → one_scheduled j (healthy w) ≡ healthy (polled scheduled (λ t. promote) j w)
unfolding promote_scheduled_to_pending exec enqueue redis_exec
scheduled_step j w = refl

failed_step :
    (j : Job) (w : World) → one_failed j (healthy w) ≡ healthy (polled failed promote_at j w)
unfolding promote_failed_to_pending exec enqueue redis_exec
failed_step j w = refl

module _ (w : World) (u : UniqueKeys id_of w.db.jobs) where
  abbrev due : List Job
  due = ready_rows scheduled w.clock batch_size w.db.jobs

  abbrev retried : List Job
  retried = ready_rows failed w.clock batch_size w.db.jobs

  -- The world between the two polls of a tick.
  after_due : World
  after_due = polls scheduled (λ t. promote) (λ t j. refl) one_scheduled scheduled_step due w

  abbrev retried_after : List Job
  retried_after = ready_rows failed after_due.clock batch_size after_due.db.jobs

  first_poll : poll_scheduled_jobs (healthy w) ≡ healthy after_due
  unfolding poll_scheduled_jobs get_due_jobs exec after_due
  first_poll =
      for_each-polls scheduled (λ t. promote) (λ t j. refl) one_scheduled scheduled_step due w

  after_due-clock : after_due.clock ≡ w.clock
  unfolding after_due
  after_due-clock =
      polls-clock scheduled (λ t. promote) (λ t j. refl) one_scheduled scheduled_step due w

  after_due_unique : UniqueKeys id_of after_due.db.jobs
  unfolding after_due
  after_due_unique =
      polls_unique scheduled (λ t. promote) (λ t j. refl) one_scheduled scheduled_step due w u

  -- The first poll does not change which jobs the second one finds.
  same_retried : retried_after ≡ retried
  unfolding after_due
  same_retried =
      ap (λ t. ready_rows failed t batch_size after_due.db.jobs) after_due-clock
      ∙ polls-ready_rows scheduled (λ t. promote) (λ t j. refl) one_scheduled scheduled_step failed
          w.clock batch_size scheduled_not_failed (λ t x. refl) due w

  abbrev after_both : World
  after_both = for_each one_failed retried_after (healthy after_due)

  second_poll : poll_failed_jobs (poll_scheduled_jobs (healthy w)) ≡ after_both
  unfolding poll_failed_jobs get_failed_ready_jobs exec
  second_poll = ap poll_failed_jobs first_poll

  due-IsDue : All (λ k. IsDue after_both k.run_at k) due
  unfolding after_due
  due-IsDue =
      let delivered : All (IsDelivered (λ t. promote) w.clock after_due) due =
        subst (λ v. All (IsDelivered (λ t. promote) w.clock v) due)
          (for_each-polls scheduled (λ t. promote) (λ t j. refl) one_scheduled scheduled_step due w)
          (batch-IsDelivered scheduled (λ t. promote) (λ t j. refl) one_scheduled scheduled_step
            batch_size w u) in
      All-both (IsDelivered (λ t. promote) w.clock after_due)
        (IsDelivered (λ t. promote) w.clock after_due) (λ k. IsDue after_both k.run_at k)
        (λ k d _. scheduled-IsDue after_both w.clock k (
          each-keeps failed promote_at (λ t j. refl) one_failed failed_step retried_after k
            (promote k) after_due
            (apart_from_failed after_due after_due.clock k retried_after d.0
              (ready_rows-IsSelected failed after_due.clock batch_size after_due.db.jobs
                after_due_unique).1)
            refl d))
        due delivered delivered

  retried-IsDue : All (IsDue after_both w.clock) retried
  retried-IsDue =
      let delivered =
        batch-IsDelivered failed promote_at (λ t j. refl) one_failed failed_step batch_size
          after_due after_due_unique in
      let there : All (IsDue after_both after_due.clock) retried_after =
        All-both (IsDelivered promote_at after_due.clock after_both)
          (IsDelivered promote_at after_due.clock after_both) (IsDue after_both after_due.clock)
          (λ k d _. failed-IsDue after_both after_due.clock k d) retried_after delivered
          delivered in
      subst (λ js. All (IsDue after_both w.clock) js) same_retried
        (subst (λ t. All (IsDue after_both t) retried_after) after_due-clock there)

-- Where job ids are unique and the servers answer, after a tick of runDuePoll, pollScheduledJobs and then
-- pollFailedJobs, each of the jobs that were scheduled for a time that has come, of the first 500 by
-- priority and time, is pending, due when it was, and in its queue; and so is each of the failed jobs
-- whose retry is due, of the first 500, due at the time of the tick. Their tries are as they were.
pub polls-IsDue :
    (next_run : String → Option (Time → Time)) (unmarshal : String → Option Template)
    (ps : List Partition) (w : World)
    → UniqueKeys id_of w.db.jobs
    → let v = (tick next_run unmarshal due_poll (ps, healthy w)).1 in
      All (λ j. IsDue v j.run_at j) (ready_rows scheduled w.clock batch_size w.db.jobs)
      × All (IsDue v w.clock) (ready_rows failed w.clock batch_size w.db.jobs)
unfolding tick
polls-IsDue next_run unmarshal ps w u =
    subst (λ v. All (λ j. IsDue v j.run_at j) (due w u) × All (IsDue v w.clock) (retried w u))
      (sym (second_poll w u)) (due-IsDue w u, retried-IsDue w u)

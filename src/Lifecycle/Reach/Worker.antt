-- ===== src/Lifecycle/Reach/Worker.antt =====
-- internal/worker/worker.go, process: a worker acts on the table `jobs` by operations only.
use jobit.Prelude.{ℕ, zero, suc, refl, ap, String, Bool, true, false, Option, none, some}
use jobit.Prelude.Int.{pos, ◌+ℤ◌}
use jobit.Job.{Job, Time}
use jobit.World.{World, Call, Result, ok, err, cancelled}
use jobit.Storage.Jobs.{get_job, select_job}
use jobit.Storage.Claims.{try_claim, mark_running, extend_deadline, complete_job, fail_job}
use jobit.Queue.{heartbeat, heartbeat_ttl, remove_from_processing}
use jobit.Lifecycle.{Op, step}
use jobit.Lifecycle.Change.{exec-Leaves}
use jobit.Lifecycle.Reach.{Reach, redis_exec-db}
use jobit.Worker.{
  ExecError, attempt, under, beat, beats, retry_time, finish, work, fetched, claimed_or_not,
  process, claim_window,
}

under-Reach :
    {A : Type 0} (ctx : Time → Bool) (m : Call A) (w : World)
    → Reach w (m w).1
    → Reach w (attempt (under ctx m) w)
under-Reach {A} ctx m w h = go (ctx w.clock)
  where
    go :
        (b : Bool)
        → Reach w
            (let p : Result A × World = elim b [ true ↦ (err cancelled, w) | false ↦ m w ] in p).1
    go true = Reach.idle refl
    go false = h

beat-Reach : (ctx : Time → Bool) (job_id token : ℕ) (w : World) → Reach w (beat ctx job_id token w)
unfolding beat heartbeat step
beat-Reach ctx job_id token w =
    let w' = attempt (under ctx (heartbeat job_id token)) w in
    Reach.also
      (under-Reach ctx (heartbeat job_id token) w
        (Reach.idle (ap (λ d. d.jobs) (redis_exec-db _ w))))
      (under-Reach ctx (extend_deadline job_id token (w'.clock +ℤ pos heartbeat_ttl)) w'
        (Reach.does (Op.extend job_id token (w'.clock +ℤ pos heartbeat_ttl)) tt))

beats-Reach :
    (ctx : Time → Bool) (meanwhile : ℕ → World → World) (n job_id token : ℕ) (w : World)
    → ((k : ℕ) (v : World) → Reach v (meanwhile k v))
    → Reach w (beats ctx meanwhile n job_id token w)
unfolding beats
beats-Reach ctx meanwhile zero job_id token w h = h 0 w
beats-Reach ctx meanwhile (suc n) job_id token w h =
    Reach.also (Reach.also (h (suc n) w) (beat-Reach ctx job_id token (meanwhile (suc n) w)))
      (beats-Reach ctx meanwhile n job_id token (beat ctx job_id token (meanwhile (suc n) w)) h)

remove-Reach :
    (ctx : Time → Bool) (worker_id job_id : ℕ) (w : World)
    → Reach w (attempt (under ctx (remove_from_processing worker_id job_id)) w)
unfolding remove_from_processing
remove-Reach ctx worker_id job_id w =
    under-Reach ctx (remove_from_processing worker_id job_id) w
      (Reach.idle (ap (λ d. d.jobs) (redis_exec-db _ w)))

get_job-Reach :
    (ctx : Time → Bool) (job_id : ℕ) (w : World) → Reach w (attempt (under ctx (get_job job_id)) w)
unfolding get_job
get_job-Reach ctx job_id w =
    under-Reach ctx (get_job job_id) w (Reach.idle (exec-Leaves (select_job job_id) (λ d. refl) w))

module _ (execute : Job → Option ExecError) (message : ExecError → String) (intn : ℕ → ℕ)
    (ctx : Time → Bool) (meanwhile : ℕ → World → World) (ticks : ℕ)
    (others : (k : ℕ) (v : World) → Reach v (meanwhile k v)) where
  finish-Reach :
      (j : Job) (job_id run_id token : ℕ) (e : Option ExecError) (w : World)
      → Reach w (finish execute message intn ctx meanwhile ticks j job_id run_id token e w)
  unfolding finish step
  finish-Reach j job_id run_id token none w =
      under-Reach ctx (complete_job job_id run_id token) w
        (Reach.does (Op.complete job_id run_id token) tt)
  finish-Reach j job_id run_id token (some e) w =
      let t = retry_time execute message intn ctx meanwhile ticks j w.clock in
      under-Reach ctx (fail_job job_id run_id token (message e) t) w
        (Reach.does (Op.fail job_id run_id token (message e) t) tt)

  work-Reach :
      (worker_id job_id run_id token : ℕ) (j : Job) (w : World)
      → Reach w (work execute message intn ctx meanwhile ticks worker_id job_id run_id token j w)
  unfolding work step
  work-Reach worker_id job_id run_id token j w =
      let w1 = attempt (under ctx (mark_running job_id token)) w in
      let w2 = beats ctx meanwhile ticks job_id token w1 in
      Reach.also
        (under-Reach ctx (mark_running job_id token) w (Reach.does (Op.mark job_id token) tt))
        (Reach.also (beats-Reach ctx meanwhile ticks job_id token w1 others) (
          Reach.also (finish-Reach j job_id run_id token (execute j) w2)
            (remove-Reach ctx worker_id job_id _)))

  fetched-Reach :
      (worker_id job_id run_id token : ℕ) (p : Result Job × World)
      → Reach p.1 (fetched execute message intn ctx meanwhile ticks worker_id job_id run_id token p)
  fetched-Reach worker_id job_id run_id token (err e, w) = Reach.idle refl
  fetched-Reach worker_id job_id run_id token (ok j, w) =
      work-Reach worker_id job_id run_id token j w

  claimed_or_not-Reach :
      (worker_id job_id token : ℕ) (p : Result (Bool × ℕ) × World)
      → Reach p.1 (claimed_or_not execute message intn ctx meanwhile ticks worker_id job_id token p)
  claimed_or_not-Reach worker_id job_id token (ok (true, run_id), w) =
      Reach.also (get_job-Reach ctx job_id w)
        (fetched-Reach worker_id job_id run_id token (under ctx (get_job job_id) w))
  claimed_or_not-Reach worker_id job_id token (ok (false, _), w) =
      remove-Reach ctx worker_id job_id w
  claimed_or_not-Reach worker_id job_id token (err e, w) = remove-Reach ctx worker_id job_id w

  -- Whatever the job, the servers' answers and the error of the run, process acts on the table `jobs` as
  -- a sequence of allowed operations, as long as what happens meanwhile does.
  pub process-Reach :
      (worker_id token run_id job_id : ℕ) (w : World)
      → Reach w (process execute message intn ctx meanwhile ticks worker_id token run_id job_id w)
  unfolding process step
  process-Reach worker_id token run_id job_id w =
      let claims = try_claim job_id worker_id token (w.clock +ℤ pos claim_window) run_id in
      Reach.also
        (under-Reach ctx claims w
          (Reach.does (Op.claim job_id worker_id token (w.clock +ℤ pos claim_window) run_id) tt))
        (claimed_or_not-Reach worker_id job_id token (under ctx claims w))

-- ===== src/Worker/Shutdown.antt =====
-- internal/worker/worker.go, Shutdown, with cmd/sluice/main.go, runWorker: the end of the process's context
-- while a job executes. The context that a signal ends is the one that process hands to its statements.
use jobit.Prelude.{
  ℕ, zero, suc, ◌≡◌, refl, sym, ◌∙◌, ap, String, Bool, true, false, Option, none, some, Bool-cases,
  inl, inr, if◌then◌else◌,
}
use mathlib.Core.Path.{subst}
use jobit.Prelude.Int.{pos, ◌+ℤ◌, leb_ℤ}
use jobit.Job.{Job, Time, state_eq, pending}
use jobit.World.{World, healthy}
use jobit.World.TableLaws.{UniqueKeys, by_key}
use jobit.Storage.Bodies.{is_stale, is_in_flight}
use jobit.Storage.Claims.{mark_running, extend_deadline, complete_job, fail_job, requeue_stale_job}
use jobit.Storage.Fencing.{id_of}
use jobit.Storage.Reaper.{IsReaped, requeue_stale_job-stale}
use jobit.Queue.{heartbeat, heartbeat_ttl, remove_from_processing}
use jobit.Worker.{
  ExecError, attempt, under, attempt_done, retry_time, beat, beats, finish, work, process,
}
use jobit.Worker.Holding.{IsHolding, beat-IsHolding, mark_running-IsHolding}
use jobit.Worker.Outcome.{claimed_job, claimed_world, claimed-IsHolding, process_works}

-- What Shutdown finds when it returns: the loop has ended, or the timeout has passed.
pub data Closing : Type 0 where
  drained timed_out : Closing

-- `ends` is when the loop closes the channel `done`, `none` for never.
unfoldable pub shutdown : Option Time → ℕ → Time → Closing
shutdown none timeout t = timed_out
shutdown (some ends) timeout t = if leb_ℤ ends (t +ℤ pos timeout) then drained else timed_out

-- The claim is held and the servers answer, whether the worker's context is done or not.
abbrev pub IsKept : ℕ → ℕ → Job → World → Type 0
IsKept = IsHolding (λ t. false)

module _ (ctx : Time → Bool) (id token : ℕ) (j : Job) where
  kept : (v : World) → IsHolding ctx id token j v → IsKept id token j v
  kept v h = record {
    answered = h.answered;
    going = refl;
    unique = h.unique;
    row = h.row;
    found = h.found;
    held = h.held;
    in_flight = h.in_flight;
    attempt = h.attempt;
    max_retries = h.max_retries;
  }

  still_going : (v : World) → IsKept id token j v → ctx v.clock ≡ false → IsHolding ctx id token j v
  still_going v h e = record {
    answered = h.answered;
    going = e;
    unique = h.unique;
    row = h.row;
    found = h.found;
    held = h.held;
    in_flight = h.in_flight;
    attempt = h.attempt;
    max_retries = h.max_retries;
  }

  -- A heartbeat under a context that is done does nothing.
  beat_done : (v : World) → ctx v.clock ≡ true → beat ctx id token v ≡ v
  unfolding beat
  beat_done v e =
      ap
        (λ (u : World).
          attempt (under ctx (extend_deadline id token (u.clock +ℤ pos heartbeat_ttl))) u)
        (attempt_done ctx (heartbeat id token) v e)
      ∙ attempt_done ctx (extend_deadline id token (v.clock +ℤ pos heartbeat_ttl)) v e

  beat-IsKept : (v : World) → IsKept id token j v → IsKept id token j (beat ctx id token v)
  beat-IsKept v h = elim (Bool-cases (ctx v.clock)) [
    | inl e ↦ subst (IsKept id token j) (sym (beat_done v e)) h
    | inr e ↦ kept (beat ctx id token v) (beat-IsHolding ctx id token j v (still_going v h e))
  ]

  module _ (meanwhile : ℕ → World → World)
      (rely : (k : ℕ) (v : World) → IsKept id token j v → IsKept id token j (meanwhile k v)) where
    beats-IsKept :
        (n : ℕ) (v : World)
        → IsKept id token j v
        → IsKept id token j (beats ctx meanwhile n id token v)
    unfolding beats
    beats-IsKept zero v h = rely 0 v h
    beats-IsKept (suc n) v h =
        beats-IsKept n (beat ctx id token (meanwhile (suc n) v))
          (beat-IsKept (meanwhile (suc n) v) (rely (suc n) v h))

    beats_done :
        ((v : World) → IsKept id token j v → ctx (meanwhile 0 v).clock ≡ true)
        → (n : ℕ) (v : World) → IsKept id token j v
        → ctx (beats ctx meanwhile n id token v).clock ≡ true
    unfolding beats
    beats_done ends zero v h = ends v h
    beats_done ends (suc n) v h =
        beats_done ends n (beat ctx id token (meanwhile (suc n) v))
          (beat-IsKept (meanwhile (suc n) v) (rely (suc n) v h))

module _ (execute : Job → Option ExecError) (message : ExecError → String) (intn : ℕ → ℕ)
    (ctx : Time → Bool) (meanwhile : ℕ → World → World) (ticks worker_id token run_id id : ℕ)
    (j : Job) (w : World) where
  -- The claim as the worker made it, and the world in which the execution of the job ends.
  abbrev pub cut_job : Job
  cut_job = claimed_job execute message intn ctx meanwhile ticks worker_id token run_id id j w

  abbrev pub executed : World
  executed = beats ctx meanwhile ticks id token (
      attempt (under ctx (mark_running id token))
        (claimed_world execute message intn ctx meanwhile ticks worker_id token run_id id j w))

  -- Under a context that is done the end of the run is not recorded.
  finish_done :
      (e : Option ExecError) (v : World)
      → ctx v.clock ≡ true
      → finish execute message intn ctx meanwhile ticks cut_job id run_id token e v ≡ v
  unfolding finish
  finish_done none v e = attempt_done ctx (complete_job id run_id token) v e
  finish_done (some x) v e =
      attempt_done ctx
        (fail_job id run_id token (message x)
          (retry_time execute message intn ctx meanwhile ticks cut_job v.clock))
        v e

  work_done :
      ctx executed.clock ≡ true
      → work execute message intn ctx meanwhile ticks worker_id id run_id token cut_job
          (claimed_world execute message intn ctx meanwhile ticks worker_id token run_id id j w)
        ≡ executed
  unfolding work
  work_done e =
      ap (attempt (under ctx (remove_from_processing worker_id id)))
        (finish_done (execute cut_job) executed e)
      ∙ attempt_done ctx (remove_from_processing worker_id id) executed e

  -- What is left in `v` of a run that the end of the context has cut off: all is as it was when the
  -- execution ended; `x`, the row of the job, is in flight with its tries as they were; and the reaper,
  -- at the time `t`, counts a try.
  pub record IsForgotten (v : World) (t : Time) (x : Job) : Type 0 where
    pub unrecorded : v ≡ executed
    pub in_flight : is_in_flight x.state ≡ true
    pub same_tries : (x.attempt ≡ j.attempt) × (x.max_retries ≡ j.max_retries)
    pub dead_now : Bool
    pub reaped :
        IsReaped x dead_now
          (by_key id_of id (requeue_stale_job id (healthy (record v { clock = t }))).1.db.jobs)

  kept-IsForgotten :
      (v : World) (t : Time) (x : Job)
      → v ≡ executed
      → IsKept id token cut_job v
      → by_key id_of id v.db.jobs ≡ some x
      → is_stale t x ≡ true
      → IsForgotten v t x
  kept-IsForgotten v t x unrecorded h found stale =
      let same : h.row ≡ x = (let e = sym h.found ∙ found in cc) in
      let (dead_now, answer, reaped) =
        requeue_stale_job-stale id (record v { clock = t }) x h.unique found stale in
      record {
        unrecorded = unrecorded;
        in_flight = subst (λ y. is_in_flight y.state ≡ true) same h.in_flight;
        same_tries = (
          ap (λ y. y.attempt) (sym same) ∙ h.attempt,
          ap (λ y. y.max_retries) (sym same) ∙ h.max_retries,
        );
        dead_now = dead_now;
        reaped = reaped;
      }

  -- Where job ids are unique, the servers answer, a pending job is processed, the other processes leave its
  -- claim alone, and the worker's context ends while the job executes, process leaves tables, lists and
  -- runs as the execution left them, whether the run has given an error or not: the job stays in
  -- flight with its tries as they were, and the reaper, at a time at which its claim is stale, counts a
  -- try against it, dead exactly when its tries are used up.
  pub process-IsForgotten :
      (t : Time) (x : Job)
      → UniqueKeys id_of w.db.jobs
      → by_key id_of id w.db.jobs ≡ some j
      → state_eq j.state pending ≡ true
      → ctx w.clock ≡ false
      → ((k : ℕ) (v : World) → IsKept id token cut_job v → IsKept id token cut_job (meanwhile k v))
      → ((v : World) → IsKept id token cut_job v → ctx (meanwhile 0 v).clock ≡ true)
      → let v =
          process execute message intn ctx meanwhile ticks worker_id token run_id id (healthy w) in
        by_key id_of id v.db.jobs ≡ some x → is_stale t x ≡ true → IsForgotten v t x
  process-IsForgotten t x u found waiting running rely ends found_x stale =
      let w0 : World =
        claimed_world execute message intn ctx meanwhile ticks worker_id token run_id id j w in
      let w1 : World = attempt (under ctx (mark_running id token)) w0 in
      let start : IsKept id token cut_job w1 = kept ctx id token cut_job w1 (
        mark_running-IsHolding ctx id token cut_job w0 (
          claimed-IsHolding execute message intn ctx meanwhile ticks worker_id token run_id id j w u
            found running)) in
      let unrecorded =
        process_works execute message intn ctx meanwhile ticks worker_id token run_id id j w u found
          waiting running
        ∙ work_done (beats_done ctx id token cut_job meanwhile rely ends ticks w1 start) in
      kept-IsForgotten
        (process execute message intn ctx meanwhile ticks worker_id token run_id id (healthy w)) t x
        unrecorded
        (subst (IsKept id token cut_job) (sym unrecorded)
          (beats-IsKept ctx id token cut_job meanwhile rely ticks w1 start))
        found_x stale

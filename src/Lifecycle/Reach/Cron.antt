-- ===== src/Lifecycle/Reach/Cron.antt =====
-- internal/scheduler/scheduler.go, expandCron: the cron loop acts on the table `jobs` by operations
-- only.
use jobit.Prelude.{ℕ, ◌+◌, refl, inl, String, Option, none, some, List, [], ◌∷◌}
use jobit.Job.{Job, Time}
use jobit.World.{World, Schedule, Result, ok, err}
use jobit.Storage.Jobs.{insert_job}
use jobit.Storage.Sound.{IsNew}
use jobit.Storage.Schedules.{get_due_schedules, update_schedule_after_run}
use jobit.Lifecycle.{Op, step}
use jobit.Lifecycle.Change.{exec-Leaves, Leaves}
use jobit.Lifecycle.Reach.{Reach}
use jobit.Lifecycle.Reach.Ticks.{enqueue_job-Reach}
use jobit.Scheduler.{
  logged, enqueue_job, Template, job_of_template, insert_and_enqueue, fire_schedule, fire_all,
  fire_rows, expand_cron,
}

update-Reach :
    (id : ℕ) (last next : Time) (w : World)
    → Reach w (logged (update_schedule_after_run id last next) w)
unfolding update_schedule_after_run
update-Reach id last next w = Reach.idle (exec-Leaves _ (λ d. refl) w)

get_due_schedules-Leaves : (n : ℕ) → Leaves (get_due_schedules n)
unfolding get_due_schedules
get_due_schedules-Leaves n w = exec-Leaves _ (λ d. refl) w

insert_and_enqueue-Reach :
    (s : Schedule) (next : Time) (j : Job) (w : World)
    → IsNew j
    → Reach w (insert_and_enqueue s next j w)
unfolding step
insert_and_enqueue-Reach s next j w new =
    Reach.also (Reach.does (Op.insert j) new) (go (insert_job j w))
  where
    go :
        (p : Result (Unit {0}) × World)
        → Reach p.1 (
            let (r, w') = p in
            elim r [
              | err e ↦ w'
              | ok _ ↦ logged (update_schedule_after_run s.id w.clock next) (enqueue_job j w')
            ])
    go (ok _, v) = Reach.also (enqueue_job-Reach j v) (update-Reach s.id w.clock next _)
    go (err e, v) = Reach.idle refl

job_of_template-IsNew :
    (tenant_id : ℕ) (t : Template) (id : ℕ) (now : Time)
    → IsNew (job_of_template tenant_id t id now)
unfolding job_of_template
job_of_template-IsNew tenant_id t id now = record { waiting = inl refl; untried = refl }

module _ (next_run : String → Option (Time → Time)) (unmarshal : String → Option Template) where
  fire_schedule-Reach :
      (s : Schedule) (id : ℕ) (w : World) → Reach w (fire_schedule next_run unmarshal s id w)
  unfolding fire_schedule
  fire_schedule-Reach s id w = go (next_run s.cron) (unmarshal s.job_template)
    where
      go :
          (o : Option (Time → Time)) (p : Option Template)
          → Reach w (elim o [
            | none ↦ w
            | some next ↦ elim p [
              | none ↦ w
              | some t ↦
                  insert_and_enqueue s (next w.clock) (job_of_template s.tenant_id t id w.clock) w
            ]
          ])
      go none p = Reach.idle refl
      go (some next) none = Reach.idle refl
      go (some next) (some t) =
          insert_and_enqueue-Reach s (next w.clock) (job_of_template s.tenant_id t id w.clock) w
            (job_of_template-IsNew s.tenant_id t id w.clock)

  fire_all-Reach :
      (fresh : ℕ → ℕ) (n : ℕ) (ss : List Schedule) (w : World)
      → Reach w (fire_all next_run unmarshal fresh n ss w)
  unfolding fire_all
  fire_all-Reach fresh n [] w = Reach.idle refl
  fire_all-Reach fresh n (s ∷ ss) w =
      Reach.also (fire_schedule-Reach s (fresh n) w) (fire_all-Reach fresh (n + 1) ss _)

  -- However the servers answer and whatever the schedules say, a tick of the cron loop acts on the
  -- table `jobs` as a sequence of allowed operations.
  pub expand_cron-Reach :
      (fresh : ℕ → ℕ) (w : World) → Reach w (expand_cron next_run unmarshal fresh w)
  unfolding expand_cron
  expand_cron-Reach fresh w =
      Reach.also (Reach.idle (get_due_schedules-Leaves 200 w)) (go (get_due_schedules 200 w))
    where
      go : (p : Result (List Schedule) × World) → Reach p.1 (fire_rows next_run unmarshal fresh p)
      go (ok ss, v) = fire_all-Reach fresh 0 ss v
      go (err e, v) = Reach.idle refl

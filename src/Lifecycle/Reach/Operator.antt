-- ===== src/Lifecycle/Reach/Operator.antt =====
-- cmd/sluice-cli/main.go: the operator's commands act on the table `jobs` by operations only.
use jobit.Prelude.{ℕ, ◌≡◌, refl, ap, Bool, true, false, Option, none, some, List, if◌then◌else◌}
use jobit.Job.{Job, state_eq, dead}
use jobit.World.{World, Result, ok, err, ◌>>◌}
use jobit.Storage.Jobs.{get_job, select_job}
use jobit.Queue.{enqueue}
use jobit.Queue.Order.{after}
use jobit.Lifecycle.{Op, step}
use jobit.Lifecycle.Change.{exec-Leaves}
use jobit.Lifecycle.Reach.{Reach, redis_exec-db}
use jobit.Cli.{fatal, exit_of, reset_job, force_fail_job, replay_found, cmd_replay, cmd_force_fail}
use jobit.Cli.Drain.{QueueKey, cmd_drain}
use jobit.Cli.Drain.Empty.{cmd_drain-Spares}

exit_of-world : (p : Result (Unit {0}) × World) → (exit_of p).1 ≡ p.1
exit_of-world (ok _, w) = refl
exit_of-world (err e, w) = refl

enqueue-after :
    (j : Job) (job_id : ℕ) (p : Result (Unit {0}) × World)
    → Reach p.1 (after p (λ _. enqueue j.tenant_id job_id j.priority)).1
unfolding enqueue
enqueue-after j job_id (ok _, w) = Reach.idle (ap (λ d. d.jobs) (redis_exec-db _ w))
enqueue-after j job_id (err e, w) = Reach.idle refl

replay_found-Reach : (job_id : ℕ) (p : Result Job × World) → Reach p.1 (replay_found job_id p).1
unfolding step
replay_found-Reach job_id (err e, w) = Reach.idle refl
replay_found-Reach job_id (ok j, w) = go (state_eq j.state dead)
  where
    go :
        (b : Bool)
        → Reach w
            (if b
              then exit_of ((reset_job job_id >> enqueue j.tenant_id job_id j.priority) w)
              else (fatal, w)).1
    go false = Reach.idle refl
    go true = Reach.also (Reach.does (Op.cli_reset job_id) tt) (
        Reach.also (enqueue-after j job_id (reset_job job_id w))
          (Reach.idle (ap (λ v. v.db.jobs) (exit_of-world _))))

pub cmd_replay-Reach : (job_id : Option ℕ) (w : World) → Reach w (cmd_replay job_id w).1
unfolding cmd_replay get_job
cmd_replay-Reach none w = Reach.idle refl
cmd_replay-Reach (some job_id) w =
    Reach.also (Reach.idle (exec-Leaves (select_job job_id) (λ d. refl) w))
      (replay_found-Reach job_id (get_job job_id w))

pub cmd_force_fail-Reach : (job_id : Option ℕ) (w : World) → Reach w (cmd_force_fail job_id w).1
unfolding cmd_force_fail step
cmd_force_fail-Reach none w = Reach.idle refl
cmd_force_fail-Reach (some job_id) w =
    Reach.also (Reach.does (Op.cli_fail job_id) tt)
      (Reach.idle (ap (λ v. v.db.jobs) (exit_of-world (force_fail_job job_id w))))

pub cmd_drain-Reach :
    (pages : List (Option (List QueueKey))) (w : World) → Reach w (cmd_drain pages w).1
cmd_drain-Reach pages w = Reach.idle (ap (λ d. d.jobs) (cmd_drain-Spares pages w).db)

-- ===== src/Cli.antt =====
-- cmd/sluice-cli/main.go: replay and force-fail.
pub mod Command
pub mod Drain
pub mod Replay
pub mod Reports
use jobit.Prelude.{ℕ, String, Bool, ◌&&◌, ◌||◌, Option, none, some, ◌==◌, if◌then◌else◌}
use jobit.Job.{Job, state_eq, pending, claimed, running, failed, dead}
use jobit.World.{World, Result, ok, err, Call, ◌>>◌, exec, count_where}
use jobit.Storage.Bodies.{update_jobs}
use jobit.Storage.Jobs.{affected, reset, get_job}
use jobit.Queue.{enqueue}

-- The UPDATE of cmdReplay.
abbrev pub is_dead_row : ℕ → Job → Bool
is_dead_row job_id j = j.id == job_id && state_eq j.state dead

unfoldable pub reset_job : ℕ → Call (Unit {0})
reset_job job_id = exec (λ d. (update_jobs (is_dead_row job_id) reset d, ok tt))

-- The UPDATE of cmdForceFail.
abbrev pub is_failable : ℕ → Job → Bool
is_failable job_id j =
    j.id == job_id
    && (state_eq j.state claimed
        || state_eq j.state running
        || state_eq j.state pending
        || state_eq j.state failed)

abbrev pub force_failed_message : String
force_failed_message = "force-failed by operator"

abbrev pub force_fail : Job → Job
force_fail j = record j {
  state = dead;
  last_error = some force_failed_message;
  claim_token = none;
  deadline = none;
}

unfoldable pub force_fail_job : ℕ → Call (Unit {0})
force_fail_job job_id = exec (λ d. (
  update_jobs (is_failable job_id) force_fail d,
  affected (count_where (is_failable job_id) d.jobs),
))

-- `fatalf` ends the process with status 1.
pub data Exit : Type 0 where
  printed fatal : Exit

abbrev pub exit_of : Result (Unit {0}) × World → Exit × World
exit_of (ok _, w) = (printed, w)
exit_of (err e, w) = (fatal, w)

abbrev pub replay_found : ℕ → Result Job × World → Exit × World
replay_found job_id (err e, w) = (fatal, w)
replay_found job_id (ok j, w) =
    if state_eq j.state dead
    then exit_of ((reset_job job_id >> enqueue j.tenant_id job_id j.priority) w)
    else (fatal, w)

-- The argument, where there is one and `uuid.Parse` reads it.
unfoldable pub cmd_replay : Option ℕ → World → Exit × World
cmd_replay none w = (fatal, w)
cmd_replay (some job_id) w = replay_found job_id (get_job job_id w)

unfoldable pub cmd_force_fail : Option ℕ → World → Exit × World
cmd_force_fail none w = (fatal, w)
cmd_force_fail (some job_id) w = exit_of (force_fail_job job_id w)

-- ===== src/Lifecycle.antt =====
-- Every call that changes the table `jobs`, as one type of operations: the functions of
-- internal/storage/storage.go and the two statements of cmd/sluice-cli/main.go. The processes
-- interleave such operations; a trace is a list of them.
pub mod Delivery
pub mod Moves
pub mod Change
pub mod Statements
pub mod Transactions
pub mod Sound
pub mod Automaton
pub mod Budget
pub mod Reach
pub mod System
use jobit.Prelude.{ℕ, String, Option, List, [], ◌∷◌}
use jobit.Prelude.Int.{ℤ, pos, ◌+ℤ◌}
use jobit.Job.{Job, Time}
use jobit.World.{World, Call}
use jobit.Storage.Jobs.{insert_job, cancel_job, replay_job}
use jobit.Storage.Claims.{
  try_claim, mark_running, extend_deadline, complete_job, fail_job, requeue_stale_job,
  move_to_dead_letter,
}
use jobit.Storage.Promote.{promote_scheduled_to_pending, promote_failed_to_pending}
use jobit.Cli.{reset_job, force_fail_job}

pub data Op : Type 0 where
  insert : Job → Op
  cancel replay : ℕ → ℕ → Op
  claim : (job_id worker_id token : ℕ) (deadline : Time) (run_id : ℕ) → Op
  mark : (job_id token : ℕ) → Op
  extend : (job_id token : ℕ) (deadline : Time) → Op
  complete : (job_id run_id token : ℕ) → Op
  fail : (job_id run_id token : ℕ) (message : String) (next_run_at : Option Time) → Op
  requeue bury promote_scheduled promote_failed cli_reset cli_fail : ℕ → Op
  wait : ℕ → Op

abbrev pub effect : {A : Type 0} → Call A → World → World
effect m w = (m w).1

unfoldable pub step : Op → World → World
step (insert j) = effect (insert_job j)
step (cancel id tenant) = effect (cancel_job id tenant)
step (replay id tenant) = effect (replay_job id tenant)
step (claim id worker token deadline run) = effect (try_claim id worker token deadline run)
step (mark id token) = effect (mark_running id token)
step (extend id token deadline) = effect (extend_deadline id token deadline)
step (complete id run token) = effect (complete_job id run token)
step (fail id run token message next) = effect (fail_job id run token message next)
step (requeue id) = effect (requeue_stale_job id)
step (bury id) = effect (move_to_dead_letter id)
step (promote_scheduled id) = effect (promote_scheduled_to_pending id)
step (promote_failed id) = effect (promote_failed_to_pending id)
step (cli_reset id) = effect (reset_job id)
step (cli_fail id) = effect (force_fail_job id)
step (wait n) = λ w. record w { clock = w.clock +ℤ pos n }

unfoldable pub run : List Op → World → World
run [] w = w
run (op ∷ ops) w = run ops (step op w)

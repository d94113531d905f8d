-- ===== src/Lifecycle/Statements.antt =====
-- What each call of single statements does to the table `jobs`.
use jobit.Prelude.{ℕ, ◌≡◌, refl, Option, none, some, List, [], ◌∷◌, arith, zero, suc}
use jobit.Job.{Job, Time}
use jobit.World.{World, exec, find}
use jobit.World.TableLaws.{by_key}
use jobit.Storage.Jobs.{
  select_job, replay_statement, insert_row, insert_job, conflicts, cancel_job, replay_job, get_job,
  is_cancellable, is_replayable, reset,
}
use jobit.Storage.Claims.{
  mark_running, extend_deadline, complete_job, close_run, succeed_statement, succeed_run_statement,
}
use jobit.Storage.Promote.{promote_scheduled_to_pending, promote_failed_to_pending}
use jobit.Storage.Sound.{IsNew}
use jobit.Cli.{reset_job, force_fail_job}
use jobit.Lifecycle.Moves.{
  start-RowStep, beat-RowStep, succeed-RowStep, promote-RowStep, promote_at-RowStep, reset-RowStep,
  force_fail-RowStep,
}
use jobit.Lifecycle.Change.{
  job_id_of, Change, Changes, Leaves, exec-Changes, exec-Leaves, bind-Changes,
}

-- A row that meets no conflict has a fresh id.
fresh_id :
    (j : Job) (xs : List Job) → find (conflicts j) xs ≡ none → by_key job_id_of j.id xs ≡ none
fresh_id j [] h = refl
fresh_id j (x ∷ xs) h = ground (arith, fresh_id j xs)

pub insert_job-Changes :
    {New : Job → Type 0} (j : Job) → New j → IsNew j → (w : World) → Changes New (insert_job j) w
unfolding insert_job insert_row
insert_job-Changes {New} j n new w =
    exec-Changes (insert_row j) w (go (find (conflicts j) w.db.jobs) refl)
  where
    go :
        (o : Option Job)
        → find (conflicts j) w.db.jobs ≡ o
        → Change New w.db.jobs (insert_row j w.db).0.jobs
    go none e = rw (e, insert_row) (Change.added j n new (fresh_id j w.db.jobs e) refl)
    go (some k) e = rw (e, insert_row) (Change.same refl)

pub cancel_job-Changes :
    {New : Job → Type 0} (id tenant : ℕ) (w : World) → Changes New (cancel_job id tenant) w
unfolding cancel_job
cancel_job-Changes {New} id tenant w =
    exec-Changes _ w (Change.removed (is_cancellable id tenant) (λ x p. ground arith) refl)

pub replay_job-Changes :
    {New : Job → Type 0} (id tenant : ℕ) (w : World) → Changes New (replay_job id tenant) w
unfolding replay_job get_job
replay_job-Changes {New} id tenant w =
    bind-Changes (exec (replay_statement id tenant)) (λ _. exec (select_job id)) w
      (exec-Changes (replay_statement id tenant) w (
        Change.updated (is_replayable id tenant) reset (λ x p. reset-RowStep x id (ground arith))
          refl))
      (λ _. exec-Leaves (select_job id) (λ d. refl))

pub mark_running-Changes :
    {New : Job → Type 0} (id token : ℕ) (w : World) → Changes New (mark_running id token) w
unfolding mark_running
mark_running-Changes {New} id token w =
    exec-Changes _ w (Change.updated _ _ (λ x p. start-RowStep x id token p) refl)

pub extend_deadline-Changes :
    {New : Job → Type 0} (id token : ℕ) (deadline : Time) (w : World)
    → Changes New (extend_deadline id token deadline) w
unfolding extend_deadline
extend_deadline-Changes {New} id token deadline w =
    exec-Changes _ w (Change.updated _ _ (λ x p. beat-RowStep x id token deadline p) refl)

close_run-Leaves : (t : Time) (run n : ℕ) → Leaves (close_run t run n)
close_run-Leaves t run zero w = refl
close_run-Leaves t run (suc n) w = exec-Leaves (succeed_run_statement t run) (λ d. refl) w

pub complete_job-Changes :
    {New : Job → Type 0} (id run token : ℕ) (w : World) → Changes New (complete_job id run token) w
unfolding complete_job
complete_job-Changes {New} id run token w =
    bind-Changes (exec (succeed_statement w.clock id token)) (close_run w.clock run) w
      (exec-Changes (succeed_statement w.clock id token) w
        (Change.updated _ _ (λ x p. succeed-RowStep x id token w.clock p) refl))
      (close_run-Leaves w.clock run)

pub promote_scheduled-Changes :
    {New : Job → Type 0} (id : ℕ) (w : World) → Changes New (promote_scheduled_to_pending id) w
unfolding promote_scheduled_to_pending
promote_scheduled-Changes {New} id w =
    exec-Changes _ w (Change.updated _ _ (λ x p. promote-RowStep x id p) refl)

pub promote_failed-Changes :
    {New : Job → Type 0} (id : ℕ) (w : World) → Changes New (promote_failed_to_pending id) w
unfolding promote_failed_to_pending
promote_failed-Changes {New} id w =
    exec-Changes _ w (Change.updated _ _ (λ x p. promote_at-RowStep x id w.clock p) refl)

pub reset_job-Changes : {New : Job → Type 0} (id : ℕ) (w : World) → Changes New (reset_job id) w
unfolding reset_job
reset_job-Changes {New} id w =
    exec-Changes _ w (Change.updated _ _ (λ x p. reset-RowStep x id p) refl)

pub force_fail_job-Changes :
    {New : Job → Type 0} (id : ℕ) (w : World) → Changes New (force_fail_job id) w
unfolding force_fail_job
force_fail_job-Changes {New} id w =
    exec-Changes _ w (Change.updated _ _ (λ x p. force_fail-RowStep x id p) refl)

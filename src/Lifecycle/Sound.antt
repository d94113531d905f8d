-- ===== src/Lifecycle/Sound.antt =====
-- The invariant of the table `jobs`, kept by every operation and so by every trace.
use jobit.Prelude.{◌≡◌, refl, List, [], ◌∷◌, All, All-append}
use jobit.Job.{Job}
use jobit.World.{World}
use jobit.World.TableLaws.{
  update_where-All, delete_where-All, UniqueKeys-update, UniqueKeys-delete, UniqueKeys-append,
}
use jobit.Storage.Jobs.{inserted_row}
use jobit.Storage.Sound.{IsSound, IsNew, inserted_row-IsSound}
use jobit.Lifecycle.{Op, step, run}
use jobit.Lifecycle.Change.{job_id_of, UniqueIds, Change}
use jobit.Lifecycle.Statements.{
  insert_job-Changes, cancel_job-Changes, replay_job-Changes, mark_running-Changes,
  extend_deadline-Changes, complete_job-Changes, promote_scheduled-Changes, promote_failed-Changes,
  reset_job-Changes, force_fail_job-Changes,
}
use jobit.Lifecycle.Transactions.{
  try_claim-Changes, fail_job-Changes, requeue_stale_job-Changes, move_to_dead_letter-Changes,
}

-- The processes insert new jobs only.
abbrev pub IsAllowed : Op → Type 0
IsAllowed (Op.insert j) = IsNew j
IsAllowed _ = Unit

-- Job ids are unique, and every row is sound.
pub record IsSoundTable (xs : List Job) : Type 0 where
  pub unique : UniqueIds xs
  pub rows : All IsSound xs

-- The row that an operation may add.
abbrev pub IsInserted : Op → Job → Type 0
IsInserted (Op.insert k) j = j ≡ k
IsInserted _ j = ⊥

-- Where job ids are unique, and however the servers answer, an allowed operation leaves the table
-- `jobs` as it is, or makes moves of the automaton on the rows that it selects, or adds a new row,
-- or removes rows that are pending or scheduled.
pub step-Change :
    (op : Op) (w : World)
    → IsAllowed op
    → UniqueIds w.db.jobs
    → Change (IsInserted op) w.db.jobs (step op w).db.jobs
unfolding step
step-Change (Op.insert j) w a u = insert_job-Changes j refl a w
step-Change (Op.cancel id tenant) w a u = cancel_job-Changes id tenant w
step-Change (Op.replay id tenant) w a u = replay_job-Changes id tenant w
step-Change (Op.claim id worker token deadline r) w a u =
    try_claim-Changes id worker token deadline r w u
step-Change (Op.mark id token) w a u = mark_running-Changes id token w
step-Change (Op.extend id token deadline) w a u = extend_deadline-Changes id token deadline w
step-Change (Op.complete id r token) w a u = complete_job-Changes id r token w
step-Change (Op.fail id r token message next) w a u = fail_job-Changes id r token message next w u
step-Change (Op.requeue id) w a u = requeue_stale_job-Changes id w
step-Change (Op.bury id) w a u = move_to_dead_letter-Changes id w
step-Change (Op.promote_scheduled id) w a u = promote_scheduled-Changes id w
step-Change (Op.promote_failed id) w a u = promote_failed-Changes id w
step-Change (Op.cli_reset id) w a u = reset_job-Changes id w
step-Change (Op.cli_fail id) w a u = force_fail_job-Changes id w
step-Change (Op.wait n) w a u = Change.same refl

Change-IsSoundTable :
    {New : Job → Type 0} {xs ys : List Job} → Change New xs ys → IsSoundTable xs → IsSoundTable ys
Change-IsSoundTable (Change.same e) h = rw e h
Change-IsSoundTable {xs = xs} (Change.updated p f steps e) h = rw e (record {
  unique = UniqueKeys-update job_id_of p f (λ x s. (steps x s).same_id) xs h.unique;
  rows = update_where-All IsSound p f (λ x s. (steps x s).sound) xs h.rows;
})
Change-IsSoundTable {xs = xs} (Change.added j _ new fresh e) h = rw e (record {
  unique = UniqueKeys-append job_id_of (inserted_row j) xs fresh h.unique;
  rows = All-append IsSound xs (inserted_row j ∷ []) h.rows (inserted_row-IsSound j new, tt);
})
Change-IsSoundTable {xs = xs} (Change.removed p _ e) h = rw e (record {
  unique = UniqueKeys-delete job_id_of p xs h.unique;
  rows = delete_where-All IsSound p xs h.rows;
})

pub step-IsSoundTable :
    (op : Op) (w : World) → IsAllowed op → IsSoundTable w.db.jobs → IsSoundTable (step op w).db.jobs
step-IsSoundTable op w a h = Change-IsSoundTable (step-Change op w a h.unique) h

-- From a table with unique ids and sound rows, over every trace of allowed operations, by any
-- processes and however the servers answer, job ids stay unique and every row stays sound.
pub run-IsSoundTable :
    (ops : List Op) (w : World)
    → All IsAllowed ops
    → IsSoundTable w.db.jobs
    → IsSoundTable (run ops w).db.jobs
unfolding run
run-IsSoundTable [] w a h = h
run-IsSoundTable (op ∷ ops) w a h =
    run-IsSoundTable ops (step op w) a.1 (step-IsSoundTable op w a.0 h)

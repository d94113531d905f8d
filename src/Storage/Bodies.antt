-- ===== src/Storage/Bodies.antt =====
-- internal/storage/storage.go: what TryClaim, FailJob, RequeueStaleJob and MoveToDeadLetter do
-- between db.Begin and tx.Commit.
use jobit.Prelude.{
  ℕ, suc, ◌+◌, ◌*◌, ◌/◌, String, Bool, true, false, ◌&&◌, ◌||◌, Option, none, some, List, [], ◌∷◌,
  ◌++◌, map, filter, get_or, is_some, holds, ◌==◌, if◌then◌else◌,
}
use jobit.Prelude.Int.{ℤ, pos, negsuc, ◌-ℤ◌, ltb_ℤ, leb_ℤ, sub_ℕ}
use jobit.Job.{Job, State, state_eq, pending, claimed, running, failed, dead, Time}
use jobit.World.{Db, JobRun, DeadLetterEntry, Result, ok, find, update_where}
use jobit.World.Tx.{Tx, tx_exec, tx_skip_locked, ◌>>=◌, ◌>>◌, pure, leave_with}

-- state IN ('claimed', 'running')
abbrev pub is_in_flight : State → Bool
is_in_flight s = state_eq s claimed || state_eq s running

-- The WHERE clause that fences off a worker whose claim was taken away.
abbrev pub holds_claim : ℕ → ℕ → Job → Bool
holds_claim job_id token j = j.id == job_id && (holds token j.claim_token && is_in_flight j.state)

abbrev pub has_id : ℕ → Job → Bool
has_id job_id j = j.id == job_id

abbrev pub update_jobs : (Job → Bool) → (Job → Job) → Db → Db
update_jobs p f d = record d { jobs = update_where p f d.jobs }

abbrev pub update_runs : (JobRun → Bool) → (JobRun → JobRun) → Db → Db
update_runs p f d = record d { runs = update_where p f d.runs }

-- EXTRACT(EPOCH FROM (now - started_at))::INT * 1000: the seconds are rounded, half away from 0.
unfoldable pub duration_ms_of : Time → Time → ℤ
duration_ms_of now started_at = elim (now -ℤ started_at) [
  | pos n ↦ pos ((n + 500000000) / 1000000000 * 1000)
  | negsuc n ↦ sub_ℕ 0 ((suc n + 500000000) / 1000000000 * 1000)
]

-- TryClaim

abbrev pub is_claimable : ℕ → Job → Bool
is_claimable job_id j = j.id == job_id && state_eq j.state pending

abbrev pub claim : Time → ℕ → ℕ → Time → Job → Job
claim now worker_id token deadline j = record j {
  state = claimed;
  claimed_at = some now;
  claimed_by = some worker_id;
  claim_token = some token;
  deadline = some deadline;
}

abbrev pub claimed_run : Time → ℕ → Job → JobRun
claimed_run now run_id j = record {
  run_id = run_id;
  job_id = j.id;
  tenant_id = j.tenant_id;
  attempt = j.attempt;
  started_at = now;
  finished_at = none;
  state = claimed;
  error = none;
  duration_ms = none;
}

-- INSERT INTO job_runs … SELECT … FROM jobs j WHERE j.id = job_id
abbrev pub insert_run : Time → ℕ → ℕ → Db → Db
insert_run now run_id job_id d = record d {
  runs = d.runs ++ map (claimed_run now run_id) (filter (has_id job_id) d.jobs);
}

unfoldable pub try_claim_body : Time → ℕ → ℕ → ℕ → Time → ℕ → Tx (Result (Bool × ℕ)) (Bool × ℕ)
try_claim_body now job_id worker_id token deadline run_id = do
  row ← tx_skip_locked (λ d. find (is_claimable job_id) d.jobs)
  elim row [
    | none ↦ leave_with (ok (false, 0))
    | some _ ↦ do
      tx_exec (λ d. (update_jobs (has_id job_id) (claim now worker_id token deadline) d, tt))
      tx_exec (λ d. (insert_run now run_id job_id d, tt))
      pure (true, run_id)
  ]

-- FailJob

abbrev pub failed_state : ℕ → ℤ → State
failed_state new_attempt max_retries = if leb_ℤ max_retries (pos new_attempt) then dead else failed

-- `runAt` stays nil where the job is dead.
abbrev pub failed_run_at : ℕ → ℤ → Option Time → Option Time
failed_run_at new_attempt max_retries next_run_at =
    if leb_ℤ max_retries (pos new_attempt) then none else next_run_at

abbrev pub record_failure : State → ℕ → String → Option Time → Job → Job
record_failure new_state new_attempt message run_at j = record j {
  state = new_state;
  attempt = new_attempt;
  last_error = some message;
  run_at = get_or run_at j.run_at;
  claim_token = none;
  deadline = none;
}

abbrev pub finish_run : State → Time → String → JobRun → JobRun
finish_run new_state now message r = record r {
  state = new_state;
  finished_at = some now;
  error = some message;
  duration_ms = some (duration_ms_of now r.started_at);
}

abbrev pub is_run : ℕ → JobRun → Bool
is_run run_id r = r.run_id == run_id

unfoldable pub fail_job_body :
    Time → ℕ → ℕ → ℕ → String → Option Time → Tx (Result (Unit {0})) (Unit {0})
fail_job_body now job_id run_id token message next_run_at = do
  row ← tx_exec (λ d. (d, find (holds_claim job_id token) d.jobs))
  elim row [
    | none ↦ leave_with (ok tt)
    | some j ↦ do
      let new_attempt = j.attempt + 1
      let new_state = failed_state new_attempt j.max_retries
      let run_at = failed_run_at new_attempt j.max_retries next_run_at
      tx_exec (λ d.
          (update_jobs (has_id job_id) (record_failure new_state new_attempt message run_at) d, tt))
      tx_exec (λ d. (update_runs (is_run run_id) (finish_run new_state now message) d, tt))
  ]

-- RequeueStaleJob

abbrev pub expired_message : String
expired_message = "worker heartbeat expired"

abbrev pub is_open_run : ℕ → JobRun → Bool
is_open_run job_id r = r.job_id == job_id && (elim r.finished_at [ none ↦ true | some _ ↦ false ])

abbrev pub is_past : Time → Option Time → Bool
is_past now none = false
is_past now (some t) = ltb_ℤ t now

abbrev pub is_stale : Time → Job → Bool
is_stale now j = is_in_flight j.state && is_past now j.deadline

abbrev pub requeue : Job → Job
requeue j = record j {
  state = if leb_ℤ j.max_retries (pos (j.attempt + 1)) then dead else pending;
  attempt = j.attempt + 1;
  claim_token = none;
  claimed_at = none;
  claimed_by = none;
  deadline = none;
  last_error = some expired_message;
}

abbrev pub close_runs : Time → ℕ → Db → Db
close_runs now job_id = update_runs (is_open_run job_id) (finish_run failed now expired_message)

abbrev pub is_stale_row : Time → ℕ → Job → Bool
is_stale_row now job_id j = j.id == job_id && is_stale now j

-- Whether the row that RETURNING gives is dead; no row is not an error.
abbrev pub returned_dead : Option Job → Bool
returned_dead none = false
returned_dead (some j) = state_eq (requeue j).state dead

unfoldable pub requeue_body : Time → ℕ → Tx (Result Bool) Bool
requeue_body now job_id = do
  tx_exec (λ d. (close_runs now job_id d, tt))
  row ← tx_exec (λ d.
      (update_jobs (is_stale_row now job_id) requeue d, find (is_stale_row now job_id) d.jobs))
  pure (returned_dead row)

-- MoveToDeadLetter

abbrev pub dead_entry : Time → Job → DeadLetterEntry
dead_entry now j = record {
  job_id = j.id;
  tenant_id = j.tenant_id;
  attempt_count = j.attempt;
  final_error = j.last_error;
  moved_at = now;
  original_job = j;
}

abbrev pub has_entry : ℕ → List DeadLetterEntry → Bool
has_entry job_id entries = is_some (find (λ e. e.job_id == job_id) entries)

-- ON CONFLICT (job_id) DO NOTHING
unfoldable pub insert_dead_letter : Time → ℕ → Db → Db
insert_dead_letter now job_id d =
    elim (find (λ j. j.id == job_id && state_eq j.state dead) d.jobs) [
      | none ↦ d
      | some j ↦
          if has_entry job_id d.dead_letter
          then d
          else record d { dead_letter = d.dead_letter ++ dead_entry now j ∷ [] }
    ]

unfoldable pub dead_letter_body : Time → ℕ → Tx (Result (Unit {0})) (Unit {0})
dead_letter_body now job_id = tx_exec (λ d. (insert_dead_letter now job_id d, tt))

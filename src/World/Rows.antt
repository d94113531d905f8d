-- ===== src/World/Rows.antt =====
-- The rows of the tables (migrations/*.up.sql) with the structs of internal/storage/storage.go.
use jobit.Prelude.{ℕ, String, Bool, Option, List}
use jobit.Prelude.Int.{ℤ}
use jobit.Job.{Job, State, Time}

-- A row of `job_runs`; internal/storage/storage.go's `JobRun` adds the job's type.
pub record JobRun : Type 0 where
  pub run_id : ℕ
  pub job_id : ℕ
  pub tenant_id : ℕ
  pub attempt : ℕ
  pub started_at : Time
  pub finished_at : Option Time
  pub state : State
  pub error : Option String
  pub duration_ms : Option ℤ

-- A row of `dead_letter`.
pub record DeadLetterEntry : Type 0 where
  pub job_id : ℕ
  pub tenant_id : ℕ
  pub attempt_count : ℕ
  pub final_error : Option String
  pub moved_at : Time
  pub original_job : Job

pub record Schedule : Type 0 where
  pub id : ℕ
  pub tenant_id : ℕ
  pub name : String
  pub cron : String
  pub timezone : String
  pub job_template : String
  pub enabled : Bool
  pub last_run_at : Option Time
  pub next_run_at : Time

pub record Tenant : Type 0 where
  pub id : ℕ
  pub name : String
  pub api_key : String
  pub rate_limit : ℤ
  pub weight : ℤ
  pub status : String

pub record Db : Type 0 where
  pub jobs : List Job
  pub runs : List JobRun
  pub dead_letter : List DeadLetterEntry
  pub schedules : List Schedule
  pub tenants : List Tenant

-- ===== src/Job.antt =====
-- internal/job/job.go: the job record, its states, and the two methods that read it.
-- UUIDs are the 128-bit numbers that they stand for, with `uuid.Nil` = 0; worker ids are UUIDs too.
-- A time is a signed number of nanoseconds since the Unix epoch. A payload is the JSON text.
pub mod Retry
pub mod RetryWindow
use jobit.Prelude.{ℕ, String, Bool, true, false, Option, ◌||◌}
use jobit.Prelude.Int.{ℤ, pos, ltb_ℤ}

pub data State : Type 0 where
  pending scheduled claimed running succeeded failed dead : State

abbrev pub state_eq : State → State → Bool
state_eq pending pending = true
state_eq scheduled scheduled = true
state_eq claimed claimed = true
state_eq running running = true
state_eq succeeded succeeded = true
state_eq failed failed = true
state_eq dead dead = true
state_eq _ _ = false

-- A lower number is a higher priority.
abbrev pub priority_high : ℤ
priority_high = pos 1

abbrev pub priority_normal : ℤ
priority_normal = pos 5

abbrev pub priority_low : ℤ
priority_low = pos 10

abbrev pub Time : Type 0
Time = ℤ

-- `time.Second`, in nanoseconds.
abbrev pub second : ℕ
second = 1000000000

pub record Job : Type 0 where
  pub id : ℕ
  pub tenant_id : ℕ
  pub kind : String  -- the field `Type`
  pub payload : String
  pub priority : ℤ
  pub state : State
  pub run_at : Time
  pub claimed_at : Option Time
  pub claimed_by : Option ℕ
  pub claim_token : Option ℕ
  pub deadline : Option Time
  pub attempt : ℕ
  pub max_retries : ℤ
  pub backoff_seconds : ℤ
  pub idempotency_key : Option String
  pub last_error : Option String
  pub created_at : Time
  pub completed_at : Option Time

unfoldable pub is_terminal : Job → Bool
is_terminal j = state_eq j.state succeeded || state_eq j.state dead

unfoldable pub should_retry : Job → Bool
should_retry j = ltb_ℤ (pos j.attempt) j.max_retries

-- ===== src/Tests/Data.antt =====
-- The inputs of the tests: a table of three jobs, a tenant, and the worlds that hold them.
use jobit.Api.{SubmitJobRequest}
use jobit.Prelude.{refl, inr, none, some, List, [], ◌∷◌, arith}
use jobit.Prelude.Int.{pos}
use jobit.Job.{Job, claimed, pending, running, succeeded}
use jobit.World.{World, Db, Redis, Tenant, done, refused, lost}
use jobit.Storage.Sound.{IsSound}
use jobit.Lifecycle.{Op}
use jobit.Lifecycle.Sound.{IsSoundTable}

abbrev pub waiting_job : Job
waiting_job = record {
  id = 1;
  tenant_id = 7;
  kind = "webhook";
  payload = "{}";
  priority = pos 5;
  state = pending;
  run_at = pos 0;
  claimed_at = none;
  claimed_by = none;
  claim_token = none;
  deadline = none;
  attempt = 0;
  max_retries = pos 2;
  backoff_seconds = pos 30;
  idempotency_key = some "key-1";
  last_error = none;
  created_at = pos 0;
  completed_at = none;
}

abbrev pub running_job : Job
running_job = record waiting_job {
  id = 2;
  state = running;
  claimed_at = some (pos 3);
  claimed_by = some 5;
  claim_token = some 11;
  deadline = some (pos 60);
  idempotency_key = none;
}

abbrev pub finished_job : Job
finished_job = record waiting_job {
  id = 3;
  state = succeeded;
  idempotency_key = none;
  completed_at = some (pos 9);
}

abbrev pub new_job : Job
new_job = record waiting_job { id = 4; idempotency_key = none }

abbrev pub tenant_7 : Tenant
tenant_7 = record {
  id = 7;
  name = "seven";
  api_key = "secret";
  rate_limit = pos 2;
  weight = pos 0;
  status = "active";
}

abbrev pub small_db : Db
small_db = record {
  jobs = waiting_job ∷ running_job ∷ finished_job ∷ [];
  runs = [];
  dead_letter = [];
  schedules = [];
  tenants = tenant_7 ∷ [];
}

abbrev pub empty_redis : Redis
empty_redis = record {
  queues = λ b t. [];
  processing = λ w. [];
  heartbeats = λ j. none;
  counter = λ t s. 0;
}

-- A world whose second statement is refused and whose fifth loses its answer.
abbrev pub rough_world : World
rough_world = record {
  db = small_db;
  redis = empty_redis;
  clock = pos 100000000000;
  script = done ∷ refused ∷ done ∷ done ∷ lost ∷ [];
}

abbrev pub trace : List Op
trace =
    Op.claim 1 5 21 (pos 200000000000) 31
    ∷ Op.fail 1 31 21 "boom" (some (pos 130000000000))
    ∷ Op.insert new_job
    ∷ Op.promote_failed 1
    ∷ Op.claim 1 6 22 (pos 300000000000) 32
    ∷ Op.requeue 1
    ∷ Op.cancel 4 7
    ∷ []

pub waiting_job-IsSound : IsSound waiting_job
waiting_job-IsSound = record {
  claimed_in_flight = refl;
  deadline_in_flight = refl;
  completed_succeeded = refl;
  within_budget = omega arith;
  tries_left = inr (omega arith);
}

pub running_job-IsSound : IsSound running_job
running_job-IsSound = record {
  claimed_in_flight = refl;
  deadline_in_flight = refl;
  completed_succeeded = refl;
  within_budget = omega arith;
  tries_left = inr (omega arith);
}

pub finished_job-IsSound : IsSound finished_job
finished_job-IsSound = record {
  claimed_in_flight = refl;
  deadline_in_flight = refl;
  completed_succeeded = refl;
  within_budget = omega arith;
  tries_left = inr (omega arith);
}

pub small_db-IsSoundTable : IsSoundTable small_db.jobs
small_db-IsSoundTable = record {
  unique = (
    ((λ e. omega (arith, e)), ((λ e. omega (arith, e)), tt)),
    (((λ e. omega (arith, e)), tt), (tt, tt)),
  );
  rows = (waiting_job-IsSound, (running_job-IsSound, (finished_job-IsSound, tt)));
}

-- A worker is busy with job 2, whose deadline lies ahead.
abbrev pub busy_world : World
busy_world = record rough_world {
  clock = pos 50;
  db = record small_db {
    runs =
        record {
          run_id = 30;
          job_id = 2;
          tenant_id = 7;
          attempt = 0;
          started_at = pos 3;
          finished_at = none;
          state = claimed;
          error = none;
          duration_ms = none;
        }
        ∷ [];
  };
}

abbrev pub same_request : SubmitJobRequest
same_request = record {
  kind = "report";
  payload = "[]";
  priority = some (pos 1);
  run_at = none;
  max_retries = none;
  backoff_seconds = none;
  idempotency_key = some "key-1";
}

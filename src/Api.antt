-- ===== src/Api.antt =====
-- internal/api/handler.go: the handlers of the jobs' endpoints, behind the tenant's authentication.
pub mod Bearer
pub mod Submit
pub mod Isolation
pub mod Schedules
pub mod Stats
pub mod Socket
pub mod Server
pub mod Context
use text.Mathlib.Text.{◌==◌ as str_eq}
use jobit.Prelude.{
  ℕ, String, Bool, true, false, not, ◌&&◌, ◌||◌, Option, none, some, List, get_or, if◌then◌else◌,
  ◌==◌, leb,
}
use jobit.Prelude.Int.{ℤ, pos, ltb_ℤ}
use jobit.Job.{Job, State, state_eq, pending, scheduled, Time, priority_normal}
use jobit.World.{
  Schedule, DeadLetterEntry, Bucket, World, Tenant, Result, ok, err, fault, not_found, duplicate,
  Call, exec,
}
use jobit.Storage.Jobs.{
  insert_job, get_job_by_idempotency_key, get_job_for_tenant, list_jobs, cancel_job, replay_job,
}
use jobit.Storage.Schedules.{RunView}
use jobit.Queue.{enqueue}
use jobit.RateLimit.{allow}

pub record SubmitJobRequest : Type 0 where
  pub kind : String
  pub payload : String
  pub priority : Option ℤ
  pub run_at : Option Time
  pub max_retries : Option ℤ
  pub backoff_seconds : Option ℤ
  pub idempotency_key : Option String

-- One entry of the queue depths: internal/api/ws_handler.go, queueDepths.
pub record QueueDepth : Type 0 where
  pub tenant_id : ℕ
  pub tenant : String
  pub priority : Bucket
  pub depth : ℕ

-- The statuses of the answers, with what their bodies hold; the errors carry a message each.
pub data Response : Type 0 where
  created : Job → Response
  created_schedule : Schedule → Response
  ok_empty : Response
  ok_job : Job → Response
  ok_jobs : List Job → Response
  ok_schedule : Schedule → Response
  ok_schedules : List Schedule → Response
  ok_stats : List QueueDepth → List (State × ℕ) → Response
  ok_runs : List RunView → Response
  ok_entries : List DeadLetterEntry → Response
  no_content bad_request unauthorized not_found_404 conflict too_many_requests : Response
  internal_error : Response

-- A time that the request asks for counts only if it lies ahead.
abbrev pub later_than : Time → Option Time → Option Time
later_than now none = none
later_than now (some t) = if ltb_ℤ now t then some t else none

abbrev pub state_for : Option Time → State
state_for none = pending
state_for (some _) = scheduled

-- `id` is the `uuid.New()` of the call.
unfoldable pub job_of_request : Tenant → SubmitJobRequest → ℕ → Time → Job
job_of_request t q id now = record {
  id = id;
  tenant_id = t.id;
  kind = q.kind;
  payload = q.payload;
  priority = get_or q.priority priority_normal;
  state = state_for (later_than now q.run_at);
  run_at = get_or (later_than now q.run_at) now;
  claimed_at = none;
  claimed_by = none;
  claim_token = none;
  deadline = none;
  attempt = 0;
  max_retries = get_or q.max_retries (pos 3);
  backoff_seconds = get_or q.backoff_seconds (pos 30);
  idempotency_key = q.idempotency_key;
  last_error = none;
  created_at = now;
  completed_at = none;
}

-- `errors.Is(err, ErrDuplicate)`: the original job, where the key finds it.
abbrev pub original_or_conflict : Result Job × World → Response × World
original_or_conflict (ok j, w) = (ok_job j, w)
original_or_conflict (err e, w) = (conflict, w)

unfoldable pub answer_duplicate : Tenant → Option String → World → Response × World
answer_duplicate t none w = (conflict, w)
answer_duplicate t (some key) w = original_or_conflict (get_job_by_idempotency_key t.id key w)

abbrev pub enqueue_if_pending : Job → World → World
enqueue_if_pending j w =
    if state_eq j.state pending then (enqueue j.tenant_id j.id j.priority w).1 else w

abbrev pub answer_insert : Tenant → Job → Result (Unit {0}) × World → Response × World
answer_insert t j (ok _, w) = (created j, enqueue_if_pending j w)
answer_insert t j (err duplicate, w) = answer_duplicate t j.idempotency_key w
answer_insert t j (err e, w) = (internal_error, w)

unfoldable pub create : Tenant → SubmitJobRequest → ℕ → World → Response × World
create t q id w = let j = job_of_request t q id w.clock in answer_insert t j (insert_job j w)

-- An error of the limiter lets the request pass.
abbrev pub limited : (World → Response × World) → Result Bool × World → Response × World
limited next (ok false, w) = (too_many_requests, w)
limited next (ok true, w) = next w
limited next (err e, w) = next w

-- `has_limiter` is `s.limiter != nil`; `none` is a body that json.Decode refuses.
unfoldable pub handle_submit_job :
    Bool → Tenant → Option SubmitJobRequest → ℕ → World → Response × World
handle_submit_job has_limiter t none id w = (bad_request, w)
handle_submit_job has_limiter t (some q) id w =
    if str_eq q.kind "" || str_eq q.payload ""
    then (bad_request, w)
    else if has_limiter
    then limited (create t q id) (allow t.id t.rate_limit w)
    else create t q id w

abbrev pub answer_job : Result Job × World → Response × World
answer_job (ok j, w) = (ok_job j, w)
answer_job (err not_found, w) = (not_found_404, w)
answer_job (err e, w) = (internal_error, w)

-- The path's id, where `uuid.Parse` reads one.
unfoldable pub handle_get_job : Tenant → Option ℕ → World → Response × World
handle_get_job t none w = (bad_request, w)
handle_get_job t (some id) w = answer_job (get_job_for_tenant id t.id w)

-- `strconv.Atoi` of the parameter, where it is given and reads as a number.
abbrev pub limit_of : Option ℤ → ℕ
limit_of none = 50
limit_of (some (pos n)) = if not (n == 0) && leb n 500 then n else 50
limit_of (some _) = 50

abbrev pub offset_of : Option ℤ → ℕ
offset_of none = 0
offset_of (some (pos n)) = n
offset_of (some _) = 0

abbrev pub answer_list : Result (List Job) × World → Response × World
answer_list (ok js, w) = (ok_jobs js, w)
answer_list (err e, w) = (internal_error, w)

-- The parameter `state`: not given or empty, one of the states, or another text.
pub data StateParam : Type 0 where
  any_state no_state : StateParam
  of_state : State → StateParam

-- A text that is no value of the type `job_state` makes Postgres refuse the query.
abbrev pub list_in_state : Tenant → StateParam → ℕ → ℕ → Call (List Job)
list_in_state t any_state limit offset =
    list_jobs (record { tenant_id = some t.id; state = none; limit = limit; offset = offset })
list_in_state t no_state limit offset = exec (λ d. (d, err fault))
list_in_state t (of_state s) limit offset =
    list_jobs (record { tenant_id = some t.id; state = some s; limit = limit; offset = offset })

unfoldable pub handle_list_jobs :
    Tenant → StateParam → Option ℤ → Option ℤ → World → Response × World
handle_list_jobs t state limit offset w =
    answer_list (list_in_state t state (limit_of limit) (offset_of offset) w)

abbrev pub answer_cancel : Result (Unit {0}) × World → Response × World
answer_cancel (ok _, w) = (no_content, w)
answer_cancel (err not_found, w) = (not_found_404, w)
answer_cancel (err e, w) = (internal_error, w)

unfoldable pub handle_cancel_job : Tenant → Option ℕ → World → Response × World
handle_cancel_job t none w = (bad_request, w)
handle_cancel_job t (some id) w = answer_cancel (cancel_job id t.id w)

abbrev pub answer_replay : Tenant → ℕ → Result Job × World → Response × World
answer_replay t id (ok j, w) = (ok_job j, (enqueue t.id id j.priority w).1)
answer_replay t id (err not_found, w) = (not_found_404, w)
answer_replay t id (err e, w) = (internal_error, w)

unfoldable pub handle_replay_job : Tenant → Option ℕ → World → Response × World
handle_replay_job t none w = (bad_request, w)
handle_replay_job t (some id) w = answer_replay t id (replay_job id t.id w)

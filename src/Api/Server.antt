-- ===== src/Api/Server.antt =====
-- internal/api/server.go and internal/api/middleware.go: a request from the middleware to its handler.
pub mod Guard
use jobit.Prelude.{ℕ, String, Bool, true, false, Option, if◌then◌else◌}
use jobit.Prelude.Int.{ℤ}
use jobit.Job.{Time}
use jobit.World.{World, Tenant, Result, ok, err}
use jobit.Storage.Schedules.{get_tenant_by_api_key}
use jobit.Api.{
  SubmitJobRequest, StateParam, Response, ok_empty, no_content, unauthorized, handle_submit_job,
  handle_get_job, handle_list_jobs, handle_cancel_job, handle_replay_job,
}
use jobit.Api.Bearer.{extract_bearer_token, is_empty_text}
use jobit.Api.Schedules.{
  CreateScheduleRequest, handle_create_schedule, handle_list_schedules, handle_get_schedule,
  handle_delete_schedule,
}
use jobit.Api.Stats.{handle_stats, handle_recent_runs, handle_dead_letter}

-- The routes under /v1, with what chi and the handlers' decoding give them.
pub data Route : Type 0 where
  post_jobs : Option SubmitJobRequest → Route
  get_jobs : StateParam → (limit offset : Option ℤ) → Route
  get_job_at post_cancel post_replay get_schedule_at delete_schedule_at : Option ℕ → Route
  post_schedules : Option CreateScheduleRequest → Route
  get_schedules get_stats : Route
  get_runs get_dead_letter : Option ℤ → Route

-- A request: to /healthz, or with its Authorization header to a route.
pub data Target : Type 0 where
  healthz : Target
  v1 : String → Route → Target

module _ {Location : Type 0} (load_location : String → Option Location)
    (parse : String → Option (Location → Time → Time)) (by_name : String → String → Bool)
    (has_limiter : Bool) (new_id : ℕ) where
  unfoldable pub handle : Tenant → Route → World → Response × World
  handle t (post_jobs q) = handle_submit_job has_limiter t q new_id
  handle t (get_jobs state limit offset) = handle_list_jobs t state limit offset
  handle t (get_job_at id) = handle_get_job t id
  handle t (post_cancel id) = handle_cancel_job t id
  handle t (post_replay id) = handle_replay_job t id
  handle t (post_schedules q) = handle_create_schedule load_location parse t q new_id
  handle t get_schedules = handle_list_schedules by_name t
  handle t (get_schedule_at id) = handle_get_schedule id
  handle t (delete_schedule_at id) = handle_delete_schedule t id
  handle t get_stats = handle_stats
  handle t (get_runs limit) = handle_recent_runs limit
  handle t (get_dead_letter limit) = handle_dead_letter limit

  abbrev pub admit : Route → Result Tenant × World → Response × World
  admit r (ok t, w) = handle t r w
  admit r (err e, w) = (unauthorized, w)

  unfoldable pub auth_middleware : String → Route → World → Response × World
  auth_middleware header r w =
      let key = extract_bearer_token header in
      if is_empty_text key then (unauthorized, w) else admit r (get_tenant_by_api_key key w)

  -- corsMiddleware stands before the routes and answers every OPTIONS; the ids of a request
  -- change no answer.
  unfoldable pub serve : (is_options : Bool) → Target → World → Response × World
  serve true target w = (no_content, w)
  serve false healthz w = (ok_empty, w)
  serve false (v1 header r) w = auth_middleware header r w

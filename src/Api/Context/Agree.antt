-- ===== src/Api/Context/Agree.antt =====
-- internal/api/server.go, New, with internal/tenant/tenant.go: a handler gets from its context the tenant
-- that the middleware has let in.
use jobit.Prelude.{ℕ, ◌≡◌, refl, ap, String, Bool, true, false, Option, none, some, if◌then◌else◌}
use jobit.Job.{Time}
use jobit.World.{World, Tenant, Result, ok, err}
use jobit.Storage.Schedules.{get_tenant_by_api_key}
use jobit.Api.{unauthorized}
use jobit.Api.Bearer.{extract_bearer_token, is_empty_text}
use jobit.Api.Server.{
  Route, post_jobs, get_jobs, get_job_at, post_cancel, post_replay, get_schedule_at,
  delete_schedule_at, post_schedules, get_schedules, get_stats, get_runs, get_dead_letter, Target,
  healthz, v1, handle, admit, auth_middleware, serve,
}
use jobit.Api.Context.{
  Context, value_at, with_tenant, from_context, with_correlation_id, id_of_request,
  correlation_middleware, handle_in_context, admit_in_context, auth_in_context, route_in_context,
  serve_in_context,
}

module _ {Location : Type 0} (load_location : String → Option Location)
    (parse : String → Option (Location → Time → Time)) (by_name : String → String → Bool)
    (has_limiter : Bool) (new_id : ℕ) where
  handle_agrees :
      (t : Tenant) (r : Route) (ctx : Context) (w : World)
      → handle_in_context load_location parse by_name has_limiter new_id r
          (with_tenant (some t) ctx)
          w
        ≡ handle load_location parse by_name has_limiter new_id t r w
  unfolding handle_in_context from_context with_tenant value_at handle
  handle_agrees t (post_jobs q) ctx w = refl
  handle_agrees t (get_jobs state limit offset) ctx w = refl
  handle_agrees t (get_job_at id) ctx w = refl
  handle_agrees t (post_cancel id) ctx w = refl
  handle_agrees t (post_replay id) ctx w = refl
  handle_agrees t (post_schedules q) ctx w = refl
  handle_agrees t get_schedules ctx w = refl
  handle_agrees t (get_schedule_at id) ctx w = refl
  handle_agrees t (delete_schedule_at id) ctx w = refl
  handle_agrees t get_stats ctx w = refl
  handle_agrees t (get_runs limit) ctx w = refl
  handle_agrees t (get_dead_letter limit) ctx w = refl

  admit_agrees :
      (r : Route) (ctx : Context) (p : Result Tenant × World)
      → admit_in_context load_location parse by_name has_limiter new_id
          (handle_in_context load_location parse by_name has_limiter new_id r)
          ctx
          p
        ≡ admit load_location parse by_name has_limiter new_id r p
  admit_agrees r ctx (ok t, w) = handle_agrees t r ctx w
  admit_agrees r ctx (err e, w) = refl

  route_agrees :
      (target : Target) (ctx : Context) (w : World)
      → route_in_context load_location parse by_name has_limiter new_id target ctx w
        ≡ serve load_location parse by_name has_limiter new_id false target w
  unfolding auth_in_context serve auth_middleware
  route_agrees healthz ctx w = refl
  route_agrees (v1 header r) ctx w =
      let key = extract_bearer_token header in
      ap (λ p. if is_empty_text key then (unauthorized, w) else p)
        (admit_agrees r ctx (get_tenant_by_api_key key w))

  -- A request is answered, and changes the stores, as the handlers do that are given their tenant
  -- outright, whatever else its context holds; and unless it is OPTIONS, the answer bears the request's
  -- own X-Request-ID, or a fresh one where it has none.
  pub serve_in_context-serve :
      (is_options : Bool) (target : Target) (x_request_id fresh : String) (ctx : Context)
      (w : World)
      → serve_in_context load_location parse by_name has_limiter new_id is_options target
          x_request_id fresh ctx w
        ≡ (
          (if is_options then none else some (id_of_request x_request_id fresh)),
          serve load_location parse by_name has_limiter new_id is_options target w,
        )
  unfolding serve_in_context correlation_middleware serve
  serve_in_context-serve true target x_request_id fresh ctx w = refl
  serve_in_context-serve false target x_request_id fresh ctx w =
      let id = id_of_request x_request_id fresh in
      ap (λ p. (some id, p)) (route_agrees target (with_correlation_id ctx id) w)

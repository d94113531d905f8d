-- ===== src/Api/Context.antt =====
-- internal/tenant/tenant.go, internal/telemetry/telemetry.go and internal/api/middleware.go: what travels
-- with a request in its context, from the middleware to the handlers.
pub mod Agree
use text.Mathlib.Text.{◌==◌ as str_eq}
use jobit.Prelude.{
  ℕ, ◌≡◌, refl, ◌∙◌, ap, String, Bool, true, false, Option, none, some, List, [], ◌∷◌, ◌++◌,
  if◌then◌else◌, Bool-cases, inl, inr,
}
use jobit.Job.{Time}
use jobit.World.{World, Tenant, Result, ok, err}
use jobit.Storage.Schedules.{get_tenant_by_api_key}
use jobit.Api.{
  Response, ok_empty, no_content, unauthorized, internal_error, handle_submit_job, handle_get_job,
  handle_list_jobs, handle_cancel_job, handle_replay_job,
}
use jobit.Api.Bearer.{extract_bearer_token, is_empty_text}
use jobit.Api.Schedules.{
  handle_create_schedule, handle_list_schedules, handle_get_schedule, handle_delete_schedule,
}
use jobit.Api.Stats.{handle_stats, handle_recent_runs, handle_dead_letter}
use jobit.Api.Server.{
  Route, post_jobs, get_jobs, get_job_at, post_cancel, post_replay, get_schedule_at,
  delete_schedule_at, post_schedules, get_schedules, get_stats, get_runs, get_dead_letter, Target,
  healthz, v1, handle, admit, auth_middleware, serve,
}

-- The two packages' key types, with the values under them; a pointer to a tenant may be nil.
pub data Key : Type 0 where
  tenant_key correlation_id_key : Key

pub data Value : Type 0 where
  tenant_value : Option Tenant → Value
  text_value : String → Value

-- What context.WithValue has put around a context, the newest first.
abbrev pub Context : Type 0
Context = List (Key × Value)

abbrev pub same_key_type : Key → Key → Bool
same_key_type tenant_key tenant_key = true
same_key_type correlation_id_key correlation_id_key = true
same_key_type _ _ = false

abbrev pub with_value : Key → Value → Context → Context
with_value k v ctx = (k, v) ∷ ctx

-- ctx.Value
unfoldable pub value_at : Key → Context → Option Value
value_at k [] = none
value_at k ((l, v) ∷ ctx) = if same_key_type l k then some v else value_at k ctx

unfoldable pub with_tenant : Option Tenant → Context → Context
with_tenant t ctx = with_value tenant_key (tenant_value t) ctx

-- `t, ok := v.(*Tenant)`, and `ok && t != nil`.
abbrev pub as_tenant : Option Value → Option Tenant × Bool
as_tenant (some (tenant_value (some t))) = (some t, true)
as_tenant _ = (none, false)

unfoldable pub from_context : Context → Option Tenant × Bool
from_context ctx = as_tenant (value_at tenant_key ctx)

-- 00000000-0000-0000-0000-000000000001
abbrev pub system_id : ℕ
system_id = 1

abbrev pub id_or_system : Option Tenant × Bool → ℕ
id_or_system (some t, true) = t.id
id_or_system _ = system_id

unfoldable pub id_from_context : Context → ℕ
id_from_context ctx = id_or_system (from_context ctx)

unfoldable pub with_correlation_id : Context → String → Context
with_correlation_id ctx id = with_value correlation_id_key (text_value id) ctx

abbrev pub as_text : Option Value → String
as_text (some (text_value s)) = s
as_text _ = ""

unfoldable pub correlation_id : Context → String
correlation_id ctx = as_text (value_at correlation_id_key ctx)

abbrev pub span_ids : Option (String × String) → List (String × String)
span_ids none = []
span_ids (some (trace, span)) = ("trace_id", trace) ∷ ("span_id", span) ∷ []

-- What L adds to each line; `span` is the valid span context of `ctx`, where there is one.
unfoldable pub log_ids : Context → (span : Option (String × String)) → List (String × String)
log_ids ctx span =
    let id = correlation_id ctx in
    (if str_eq id "" then [] else ("correlation_id", id) ∷ []) ++ span_ids span

abbrev pub Handler : Type 0
Handler = Context → World → Response × World

abbrev pub id_of_request : (x_request_id fresh : String) → String
id_of_request x_request_id fresh = if str_eq x_request_id "" then fresh else x_request_id

-- The X-Request-ID of the answer, and the answer; `fresh` is the `uuid.NewString()` of the call.
unfoldable pub correlation_middleware :
    (x_request_id fresh : String) → Handler → Context → World → Option String × (Response × World)
correlation_middleware x_request_id fresh next ctx w =
    let id = id_of_request x_request_id fresh in (some id, next (with_correlation_id ctx id) w)

-- What a handler does without a tenant: it panics on the nil pointer, and middleware.Recoverer answers.
abbrev pub for_tenant :
    Option Tenant → (Tenant → World → Response × World) → World → Response × World
for_tenant (some t) h w = h t w
for_tenant none h w = (internal_error, w)

module _ {Location : Type 0} (load_location : String → Option Location)
    (parse : String → Option (Location → Time → Time)) (by_name : String → String → Bool)
    (has_limiter : Bool) (new_id : ℕ) where
  -- The handlers as they are: each takes the tenant from the context of its request.
  unfoldable pub handle_in_context : Route → Handler
  handle_in_context (post_jobs q) ctx =
      for_tenant (from_context ctx).0 (λ t. handle_submit_job has_limiter t q new_id)
  handle_in_context (get_jobs state limit offset) ctx =
      for_tenant (from_context ctx).0 (λ t. handle_list_jobs t state limit offset)
  handle_in_context (get_job_at id) ctx = for_tenant (from_context ctx).0 (λ t. handle_get_job t id)
  handle_in_context (post_cancel id) ctx =
      for_tenant (from_context ctx).0 (λ t. handle_cancel_job t id)
  handle_in_context (post_replay id) ctx =
      for_tenant (from_context ctx).0 (λ t. handle_replay_job t id)
  handle_in_context (post_schedules q) ctx =
      for_tenant (from_context ctx).0 (λ t. handle_create_schedule load_location parse t q new_id)
  handle_in_context get_schedules ctx =
      for_tenant (from_context ctx).0 (λ t. handle_list_schedules by_name t)
  handle_in_context (get_schedule_at id) ctx = handle_get_schedule id
  handle_in_context (delete_schedule_at id) ctx =
      for_tenant (from_context ctx).0 (λ t. handle_delete_schedule t id)
  handle_in_context get_stats ctx = handle_stats
  handle_in_context (get_runs limit) ctx = handle_recent_runs limit
  handle_in_context (get_dead_letter limit) ctx = handle_dead_letter limit

  abbrev pub admit_in_context : Handler → Context → Result Tenant × World → Response × World
  admit_in_context next ctx (ok t, w) = next (with_tenant (some t) ctx) w
  admit_in_context next ctx (err e, w) = (unauthorized, w)

  unfoldable pub auth_in_context : String → Handler → Handler
  auth_in_context header next ctx w =
      let key = extract_bearer_token header in
      if is_empty_text key
      then (unauthorized, w)
      else admit_in_context next ctx (get_tenant_by_api_key key w)

  abbrev pub route_in_context : Target → Handler
  route_in_context healthz ctx w = (ok_empty, w)
  route_in_context (v1 header r) ctx w = auth_in_context header (handle_in_context r) ctx w

  -- The middleware in the order of New: CORS, the correlation id, then the routes.
  unfoldable pub serve_in_context :
      (is_options : Bool)
      → Target
      → (x_request_id fresh : String) → Context
      → World
      → Option String × (Response × World)
  serve_in_context true target x_request_id fresh ctx w = (none, (no_content, w))
  serve_in_context false target x_request_id fresh ctx w =
      correlation_middleware x_request_id fresh (route_in_context target) ctx w

-- ===== src/Api/Schedules.antt =====
-- internal/api/schedule_handler.go: the handlers of the schedules' endpoints.
pub mod RoundTrip
use text.Mathlib.Text.{◌==◌ as str_eq}
use jobit.Prelude.{ℕ, String, Bool, true, ◌||◌, Option, none, some, List, if◌then◌else◌}
use jobit.Job.{Time}
use jobit.World.{World, Tenant, Schedule, Result, ok, err, duplicate, not_found}
use jobit.Storage.Schedules.{insert_schedule, get_schedule, list_schedules, delete_schedule}
use jobit.Api.{
  Response, created_schedule, ok_schedule, ok_schedules, no_content, bad_request, not_found_404,
  conflict, internal_error,
}

-- `stored_template` is no field of the body: it is the text that Postgres gives back of a column JSONB into
-- which `job_template` has been written.
pub record CreateScheduleRequest : Type 0 where
  pub name : String
  pub cron : String
  pub timezone : String
  pub job_template : String
  pub stored_template : String

abbrev pub or_utc : String → String
or_utc tz = if str_eq tz "" then "UTC" else tz

unfoldable pub schedule_of_request : Tenant → CreateScheduleRequest → ℕ → Time → Schedule
schedule_of_request t q id next_run_at = record {
  id = id;
  tenant_id = t.id;
  name = q.name;
  cron = q.cron;
  timezone = or_utc q.timezone;
  job_template = q.job_template;
  enabled = true;
  last_run_at = none;
  next_run_at = next_run_at;
}

abbrev pub answer_insert_schedule : Schedule → Result (Unit {0}) × World → Response × World
answer_insert_schedule s (ok _, w) = (created_schedule s, w)
answer_insert_schedule s (err duplicate, w) = (conflict, w)
answer_insert_schedule s (err e, w) = (internal_error, w)

-- `load_location` is time.LoadLocation; `parse` is cron.Parser.Parse, and what it gives is Next at a time
-- that is shown in a zone. `none` is their error.
module _ {Location : Type 0} (load_location : String → Option Location)
    (parse : String → Option (Location → Time → Time)) where
  -- `id` is the `uuid.New()` of the call.
  unfoldable pub schedule_request : Tenant → CreateScheduleRequest → ℕ → World → Response × World
  schedule_request t q id w = elim (load_location (or_utc q.timezone)) [
    | none ↦ (bad_request, w)
    | some loc ↦ elim (parse q.cron) [
      | none ↦ (bad_request, w)
      | some next ↦
          let s = schedule_of_request t q id (next loc w.clock) in
          answer_insert_schedule s (insert_schedule q.stored_template s w)
    ]
  ]

  -- `none` is a body that json.Decode refuses.
  unfoldable pub handle_create_schedule :
      Tenant → Option CreateScheduleRequest → ℕ → World → Response × World
  handle_create_schedule t none id w = (bad_request, w)
  handle_create_schedule t (some q) id w =
      if str_eq q.name "" || str_eq q.cron "" || str_eq q.job_template ""
      then (bad_request, w)
      else schedule_request t q id w

abbrev pub answer_schedules : Result (List Schedule) × World → Response × World
answer_schedules (ok ss, w) = (ok_schedules ss, w)
answer_schedules (err e, w) = (internal_error, w)

-- `by_name` is the order of the database's collation on names.
unfoldable pub handle_list_schedules :
    (by_name : String → String → Bool) → Tenant → World → Response × World
handle_list_schedules by_name t w = answer_schedules (list_schedules by_name t.id w)

abbrev pub answer_schedule : Result Schedule × World → Response × World
answer_schedule (ok s, w) = (ok_schedule s, w)
answer_schedule (err not_found, w) = (not_found_404, w)
answer_schedule (err e, w) = (internal_error, w)

-- No tenant is asked for.
unfoldable pub handle_get_schedule : Option ℕ → World → Response × World
handle_get_schedule none w = (bad_request, w)
handle_get_schedule (some id) w = answer_schedule (get_schedule id w)

abbrev pub answer_delete : Result (Unit {0}) × World → Response × World
answer_delete (ok _, w) = (no_content, w)
answer_delete (err not_found, w) = (not_found_404, w)
answer_delete (err e, w) = (internal_error, w)

unfoldable pub handle_delete_schedule : Tenant → Option ℕ → World → Response × World
handle_delete_schedule t none w = (bad_request, w)
handle_delete_schedule t (some id) w = answer_delete (delete_schedule id t.id w)

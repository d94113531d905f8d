-- ===== src/Lifecycle/Reach/Serve.antt =====
-- internal/api/server.go: any request at all acts on the table `jobs` by operations only.
use jobit.Prelude.{ℕ, refl, String, Bool, true, false, Option, none, some, if◌then◌else◌, ◌||◌}
use text.Mathlib.Text.{◌==◌ as str_eq}
use jobit.Job.{Time}
use jobit.World.{World, Tenant, Result, ok, err}
use jobit.Storage.Jobs.{get_job_for_tenant}
use jobit.Storage.Schedules.{
  insert_schedule, get_schedule, list_schedules, delete_schedule, list_recent_runs,
  list_dead_letter, get_tenant_by_api_key,
}
use jobit.Lifecycle.Change.{exec-Leaves}
use jobit.Lifecycle.Reach.{Reach}
use jobit.Lifecycle.Reach.Requests.{requests-Reach}
use jobit.Api.{
  Response, bad_request, unauthorized, answer_job, answer_list, handle_get_job, list_in_state,
  limit_of, offset_of, handle_list_jobs,
}
use jobit.Api.Bearer.{extract_bearer_token, is_empty_text}
use jobit.Api.Schedules.{
  answer_insert_schedule, schedule_request, schedule_of_request, handle_create_schedule,
  answer_schedules, handle_list_schedules, answer_schedule, handle_get_schedule, answer_delete,
  handle_delete_schedule, CreateScheduleRequest, or_utc,
}
use jobit.Api.Stats.{answer_runs, handle_recent_runs, answer_entries, handle_dead_letter}
use jobit.Api.Server.{
  Route, post_jobs, get_jobs, get_job_at, post_cancel, post_replay, get_schedule_at,
  delete_schedule_at, post_schedules, get_schedules, get_stats, get_runs, get_dead_letter, Target,
  healthz, v1, handle, admit, auth_middleware, serve,
}
use jobit.Lifecycle.Reach.Reads.{
  answers-Reach, answer_job-world, answer_list-world, answer_insert_schedule-world,
  answer_schedules-world, answer_schedule-world, answer_delete-world, answer_runs-world,
  answer_entries-world, get_job_for_tenant-Leaves, list_in_state-Leaves, insert_schedule-Leaves,
  get_schedule-Leaves, list_schedules-Leaves, delete_schedule-Leaves, list_recent_runs-Leaves,
  list_dead_letter-Leaves, handle_stats-Reach,
}

module _ {Location : Type 0} (load_location : String → Option Location)
    (parse : String → Option (Location → Time → Time)) where
  schedule_request-Reach :
      (t : Tenant) (q : CreateScheduleRequest) (id : ℕ) (w : World)
      → Reach w (schedule_request load_location parse t q id w).1
  unfolding schedule_request
  schedule_request-Reach t q id w = go (load_location (or_utc q.timezone)) (parse q.cron)
    where
      go :
          (l : Option Location) (n : Option (Location → Time → Time))
          → Reach w
              (let p : Response × World = elim l [
                | none ↦ (bad_request, w)
                | some loc ↦ elim n [
                  | none ↦ (bad_request, w)
                  | some next ↦
                      let s = schedule_of_request t q id (next loc w.clock) in
                      answer_insert_schedule s (insert_schedule q.stored_template s w)
                ]
              ] in
                p).1
      go none n = Reach.idle refl
      go (some loc) none = Reach.idle refl
      go (some loc) (some next) =
          let s = schedule_of_request t q id (next loc w.clock) in
          answers-Reach (answer_insert_schedule s) (insert_schedule q.stored_template s) w
            (insert_schedule-Leaves q.stored_template s) (answer_insert_schedule-world s)

  create_schedule-Reach :
      (t : Tenant) (q : Option CreateScheduleRequest) (id : ℕ) (w : World)
      → Reach w (handle_create_schedule load_location parse t q id w).1
  unfolding handle_create_schedule
  create_schedule-Reach t none id w = Reach.idle refl
  create_schedule-Reach t (some q) id w =
      go (str_eq q.name "" || str_eq q.cron "" || str_eq q.job_template "")
    where
      go :
          (refuse : Bool)
          → Reach w
              (if refuse then (bad_request, w) else schedule_request load_location parse t q id w).1
      go true = Reach.idle refl
      go false = schedule_request-Reach t q id w

  module _ (by_name : String → String → Bool) (has_limiter : Bool) (new_id : ℕ) where
    handle-Reach :
        (t : Tenant) (r : Route) (w : World)
        → Reach w (handle load_location parse by_name has_limiter new_id t r w).1
    unfolding handle handle_get_job handle_list_jobs handle_list_schedules handle_get_schedule
        handle_delete_schedule handle_recent_runs handle_dead_letter
    handle-Reach t (post_jobs q) w = (requests-Reach has_limiter t q new_id none w).0
    handle-Reach t (get_jobs state limit offset) w =
        answers-Reach answer_list (list_in_state t state (limit_of limit) (offset_of offset)) w
          (list_in_state-Leaves t state (limit_of limit) (offset_of offset)) answer_list-world
    handle-Reach t (get_job_at none) w = Reach.idle refl
    handle-Reach t (get_job_at (some id)) w =
        answers-Reach answer_job (get_job_for_tenant id t.id) w (get_job_for_tenant-Leaves id t.id)
          answer_job-world
    handle-Reach t (post_cancel id) w = (requests-Reach has_limiter t none new_id id w).1
    handle-Reach t (post_replay id) w = (requests-Reach has_limiter t none new_id id w).2
    handle-Reach t (post_schedules q) w = create_schedule-Reach t q new_id w
    handle-Reach t get_schedules w =
        answers-Reach answer_schedules (list_schedules by_name t.id) w
          (list_schedules-Leaves by_name t.id) answer_schedules-world
    handle-Reach t (get_schedule_at none) w = Reach.idle refl
    handle-Reach t (get_schedule_at (some id)) w =
        answers-Reach answer_schedule (get_schedule id) w (get_schedule-Leaves id)
          answer_schedule-world
    handle-Reach t (delete_schedule_at none) w = Reach.idle refl
    handle-Reach t (delete_schedule_at (some id)) w =
        answers-Reach answer_delete (delete_schedule id t.id) w (delete_schedule-Leaves id t.id)
          answer_delete-world
    handle-Reach t get_stats w = handle_stats-Reach w
    handle-Reach t (get_runs limit) w =
        answers-Reach answer_runs (list_recent_runs _) w (list_recent_runs-Leaves _)
          answer_runs-world
    handle-Reach t (get_dead_letter limit) w =
        answers-Reach answer_entries (list_dead_letter _) w (list_dead_letter-Leaves _)
          answer_entries-world

    admit-Reach :
        (r : Route) (p : Result Tenant × World)
        → Reach p.1 (admit load_location parse by_name has_limiter new_id r p).1
    admit-Reach r (ok t, w) = handle-Reach t r w
    admit-Reach r (err e, w) = Reach.idle refl

    -- Any request, to any route and with any credentials, acts on the table `jobs` as a sequence of
    -- allowed operations, however the servers answer.
    pub serve-Reach :
        (is_options : Bool) (target : Target) (w : World)
        → Reach w (serve load_location parse by_name has_limiter new_id is_options target w).1
    unfolding serve auth_middleware get_tenant_by_api_key
    serve-Reach true target w = Reach.idle refl
    serve-Reach false healthz w = Reach.idle refl
    serve-Reach false (v1 header r) w = go (is_empty_text (extract_bearer_token header))
      where
        go :
            (refuse : Bool)
            → Reach w
                (if refuse
                  then (unauthorized, w)
                  else admit load_location parse by_name has_limiter new_id r
                      (get_tenant_by_api_key (extract_bearer_token header) w)).1
        go true = Reach.idle refl
        go false =
            Reach.also (Reach.idle (exec-Leaves _ (λ d. refl) w))
              (admit-Reach r (get_tenant_by_api_key (extract_bearer_token header) w))

-- ===== src/Storage/Schedules.antt =====
-- internal/storage/storage.go: the schedules, the tenants, and the counts for the dashboard.
use text.Mathlib.Text.{◌==◌ as str_eq}
use jobit.Prelude.{
  ℕ, String, Bool, ◌&&◌, ◌||◌, Option, none, some, if◌then◌else◌, List, [], ◌∷◌, ◌++◌, filter, take,
  ◌==◌,
}
use jobit.Prelude.Int.{ltb_ℤ, leb_ℤ}
use jobit.Job.{
  Job, State, state_eq, Time, pending, scheduled, claimed, running, succeeded, failed, dead,
}
use jobit.World.{
  Db, JobRun, Schedule, Tenant, DeadLetterEntry, Result, ok, err, duplicate, Call, ◌>>=◌, exec, now,
  find, count_where, delete_where, update_where, order_by,
}
use jobit.Storage.Jobs.{query, or_not_found, affected}

-- The primary key, and UNIQUE (tenant_id, name).
abbrev pub schedule_conflicts : Schedule → Schedule → Bool
schedule_conflicts s t = t.id == s.id || (t.tenant_id == s.tenant_id && str_eq t.name s.name)

-- The row that the INSERT makes. `stored` is what the column JSONB keeps of the template: Postgres drops
-- white space and repeated keys and orders the rest.
abbrev pub stored_schedule : String → Schedule → Schedule
stored_schedule stored s = record s { job_template = stored; last_run_at = none }

unfoldable pub insert_schedule_row : (stored : String) → Schedule → Db → Db × Result (Unit {0})
insert_schedule_row stored s d = elim (find (schedule_conflicts s) d.schedules) [
  | none ↦ (record d { schedules = d.schedules ++ stored_schedule stored s ∷ [] }, ok tt)
  | some _ ↦ (d, err duplicate)
]

unfoldable pub insert_schedule : (stored : String) → Schedule → Call (Unit {0})
insert_schedule stored s = exec (insert_schedule_row stored s)

unfoldable pub get_schedule : ℕ → Call Schedule
get_schedule id = exec (λ d. (d, or_not_found (find (λ s. s.id == id) d.schedules)))

-- `by_name` is the order of the database's collation on names.
unfoldable pub list_schedules : (by_name : String → String → Bool) → ℕ → Call (List Schedule)
list_schedules by_name tenant_id = exec (
    query (λ d.
      order_by (λ s t. by_name s.name t.name) (filter (λ s. s.tenant_id == tenant_id) d.schedules)))

abbrev pub is_schedule_of : ℕ → ℕ → Schedule → Bool
is_schedule_of id tenant_id s = s.id == id && s.tenant_id == tenant_id

unfoldable pub delete_schedule : ℕ → ℕ → Call (Unit {0})
delete_schedule id tenant_id = exec (λ d. (
  record d { schedules = delete_where (is_schedule_of id tenant_id) d.schedules },
  affected (count_where (is_schedule_of id tenant_id) d.schedules),
))

unfoldable pub due_schedules : Time → ℕ → List Schedule → List Schedule
due_schedules t limit schedules = take limit (
    order_by (λ r s. ltb_ℤ r.next_run_at s.next_run_at)
      (filter (λ s. s.enabled && leb_ℤ s.next_run_at t) schedules))

unfoldable pub get_due_schedules : ℕ → Call (List Schedule)
get_due_schedules limit = do t ← now; exec (query (λ d. due_schedules t limit d.schedules))

abbrev pub mark_fired : Time → Time → Schedule → Schedule
mark_fired last_run_at next_run_at s = record s {
  last_run_at = some last_run_at;
  next_run_at = next_run_at;
}

unfoldable pub update_schedule_after_run : ℕ → Time → Time → Call (Unit {0})
update_schedule_after_run id last_run_at next_run_at = exec (λ d. (
  record d {
    schedules = update_where (λ s. s.id == id) (mark_fired last_run_at next_run_at) d.schedules;
  },
  ok tt,
))

-- status = 'active'
abbrev pub is_active : Tenant → Bool
is_active t = str_eq t.status "active"

unfoldable pub get_tenant_by_api_key : String → Call Tenant
get_tenant_by_api_key key =
    exec (λ d. (d, or_not_found (find (λ t. str_eq t.api_key key && is_active t) d.tenants)))

unfoldable pub get_tenants : Call (List Tenant)
get_tenants = exec (query (λ d. filter is_active d.tenants))

abbrev pub states : List State
states = pending ∷ scheduled ∷ claimed ∷ running ∷ succeeded ∷ failed ∷ dead ∷ []

abbrev pub in_state : State → Job → Bool
in_state s j = state_eq j.state s

-- GROUP BY state gives no row for a state that no job is in; the order of the groups is not fixed.
unfoldable pub group_by_state : List State → List Job → List (State × ℕ)
group_by_state [] jobs = []
group_by_state (s ∷ ss) jobs =
    let n = count_where (in_state s) jobs in
    let rest = group_by_state ss jobs in if n == 0 then rest else (s, n) ∷ rest

unfoldable pub count_jobs_by_state : Call (List (State × ℕ))
count_jobs_by_state = exec (query (λ d. group_by_state states d.jobs))

-- The fields that the join adds to a run.
pub record RunView : Type 0 where
  pub run : JobRun
  pub kind : String

abbrev pub view_of : JobRun → Option Job → List RunView
view_of r none = []
view_of r (some j) = record { run = r; kind = j.kind } ∷ []

-- FROM job_runs jr JOIN jobs j ON j.id = jr.job_id: ids are unique.
unfoldable pub join_runs : List JobRun → List Job → List RunView
join_runs [] jobs = []
join_runs (r ∷ rs) jobs = view_of r (find (λ j. j.id == r.job_id) jobs) ++ join_runs rs jobs

-- ORDER BY jr.started_at DESC
abbrev pub started_later : RunView → RunView → Bool
started_later a b = ltb_ℤ b.run.started_at a.run.started_at

unfoldable pub list_recent_runs : ℕ → Call (List RunView)
list_recent_runs limit =
    exec (query (λ d. take limit (order_by started_later (join_runs d.runs d.jobs))))

unfoldable pub list_dead_letter : ℕ → Call (List DeadLetterEntry)
list_dead_letter limit =
    exec (query (λ d. take limit (order_by (λ e f. ltb_ℤ f.moved_at e.moved_at) d.dead_letter)))

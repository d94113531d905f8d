-- ===== src/Tests/Refinement.antt =====
-- The theorems on handlers, ticks and the worker, at concrete inputs.
use jobit.Prelude.{◌≡◌, refl, Option, none, some, String, arith}
use jobit.Prelude.Int.{pos, ◌+ℤ◌}
use jobit.Job.{Time}
use jobit.World.{Tenant}
use jobit.World.TableLaws.{by_key}
use jobit.Storage.Fencing.{id_of}
use jobit.Scheduler.{Template}
use jobit.Api.{any_state, handle_get_job, handle_list_jobs, handle_cancel_job, handle_replay_job}
use jobit.Api.Isolation.{ShowsOwn, reads-ShowsOwn, writes_isolated}
use jobit.Tests.Data.{waiting_job, small_db-IsSoundTable, rough_world, tenant_7}

abbrev tenant_8 : Tenant
tenant_8 = record tenant_7 { id = 8; name = "eight"; api_key = "other" }

reads-ShowsOwn_example :
    ShowsOwn 7 (handle_get_job tenant_7 (some 1) rough_world).0
    × ShowsOwn 7 (handle_list_jobs tenant_7 any_state (some (pos 2)) none rough_world).0
reads-ShowsOwn_example = reads-ShowsOwn tenant_7 (some 1) any_state (some (pos 2)) none rough_world

writes_isolated_example :
    (by_key id_of 1 (handle_cancel_job tenant_8 (some 1) rough_world).1.db.jobs ≡ some waiting_job)
    × (by_key id_of 1 (handle_replay_job tenant_8 (some 1) rough_world).1.db.jobs
        ≡ some waiting_job)
writes_isolated_example =
    writes_isolated tenant_8 (some 1) rough_world small_db-IsSoundTable.unique 1 waiting_job refl
      (λ e. omega (arith, e))

abbrev pub next_hour : String → Option (Time → Time)
next_hour cron = some (λ t. t +ℤ pos 3600000000000)

abbrev pub template : String → Option Template
template text = some (record {
  kind = "webhook";
  payload = text;
  priority = none;
  max_retries = none;
  backoff_seconds = none;
})

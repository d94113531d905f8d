-- ===== src/Api/Schedules/RoundTrip.antt =====
-- internal/api/schedule_handler.go: a schedule that was created is fetched as it was answered.
use text.Mathlib.Text.{◌==◌ as str_eq}
use jobit.Prelude.{◌≡◌, String, some, ◌==◌}
use jobit.World.{World, Schedule}
use jobit.Api.{Response, created_schedule, ok_schedule}
use jobit.Api.Schedules.{handle_get_schedule}

-- What a creation answers, and what a fetch by the new id then gives.
abbrev IsFetched : String → Response × World → Type 0
IsFetched stored (r, w) =
    (s : Schedule)
    → r ≡ created_schedule s
    → handle_get_schedule (some s.id) w ≡ (ok_schedule (record s { job_template = stored }), w)

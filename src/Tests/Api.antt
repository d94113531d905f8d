-- ===== src/Tests/Api.antt =====
-- internal/api and the partitions of internal/storage at concrete inputs.
use jobit.Prelude.{ℕ, ◌≡◌, refl, String, true, false, Option, some, [], arith}
use jobit.Prelude.Int.{pos, ◌+ℤ◌}
use jobit.Job.{Time}
use jobit.World.{Schedule, done, lost}
use jobit.Storage.Partitions.{utc, month_of, plus_months, ensure_partitions}
use jobit.Storage.Partitions.Cover.{has, ensure_partitions-has, ensure_partitions_skips}
use jobit.Api.Bearer.{equal_fold, is_space, extract_bearer_token}
use jobit.Api.Bearer.RoundTrip.{append, blank, extract_bearer_token-append}
use jobit.Api.Schedules.{CreateScheduleRequest, schedule_of_request}
use jobit.Tests.Data.{tenant_7}

extract_bearer_token-append_example :
    extract_bearer_token (append "BeaReR" (blank (append "  " (append "secret" " ")))) ≡ "secret"
unfolding equal_fold is_space
extract_bearer_token-append_example =
    extract_bearer_token-append "BeaReR" "  " "secret" " " refl refl refl refl

-- Every zone is known, and every expression fires a minute later.
abbrev zones : String → Option ℕ
zones name = some 0

abbrev each_minute : String → Option (ℕ → Time → Time)
each_minute expression = some (λ zone t. t +ℤ pos 60000000000)

abbrev hourly : CreateScheduleRequest
hourly = record {
  name = "hourly";
  cron = "0 * * * *";
  timezone = "";
  job_template = "{ }";
  stored_template = "{}";
}

abbrev hourly_schedule : Schedule
hourly_schedule = schedule_of_request tenant_7 hourly 9 (pos 160000000000)

-- The 25th of November 2025 and the 30th of January 2026, UTC.
abbrev november : Time
november = pos 1764115000000000000

abbrev january : Time
january = pos 1769731200000000000

calendar :
    (utc november ≡ record { year = 2025; month = 11; day = 25 })
    × (utc january ≡ record { year = 2026; month = 1; day = 30 })
    × (utc (pos 1709164800000000000) ≡ record { year = 2024; month = 2; day = 29 })
    × (utc (pos 0) ≡ record { year = 1970; month = 1; day = 1 })
unfolding utc
calendar = (refl, refl, refl, refl)

ensure_partitions-has_example :
    has (plus_months (month_of (utc november)) 2) (ensure_partitions (λ i. done) november []) ≡ true
unfolding utc
ensure_partitions-has_example =
    ensure_partitions-has november [] 2 (omega arith) (omega arith) (omega arith)

ensure_partitions_skips_example :
    has (record { year = (utc january).year; month = 2 }) (ensure_partitions (λ i. lost) january [])
    ≡ false
unfolding utc
ensure_partitions_skips_example =
    ensure_partitions_skips (λ i. lost) january [] refl (omega arith) refl

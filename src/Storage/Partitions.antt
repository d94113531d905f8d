-- ===== src/Storage/Partitions.antt =====
-- internal/storage/storage.go, EnsureJobRunsPartition, and internal/scheduler/scheduler.go,
-- ensurePartitions, with what they use of Go's package `time`: AddDate and Date with their carries.
pub mod Cover
use jobit.Prelude.{
  ℕ, zero, suc, ◌+◌, ◌-◌, ◌*◌, ◌/◌, ◌%◌, Bool, ◌&&◌, ◌||◌, not, none, some, List, [], ◌∷◌, ◌++◌,
  ◌==◌, leb, ltb, if◌then◌else◌,
}
use jobit.Prelude.Int.{pos, negsuc}
use jobit.Job.{Time}
use jobit.World.{Outcome, done, refused, lost, skipped, find}

-- A month counts from 1.
pub record Date : Type 0 where
  pub year : ℕ
  pub month : ℕ
  pub day : ℕ

pub record Month : Type 0 where
  pub year : ℕ
  pub month : ℕ

abbrev pub is_leap : ℕ → Bool
is_leap y = y % 4 == 0 && (not (y % 100 == 0) || y % 400 == 0)

unfoldable pub days_in_month : ℕ → ℕ → ℕ
days_in_month y m =
    if m == 2
    then if is_leap y then 29 else 28
    else if m == 4 || m == 6 || m == 9 || m == 11
    then 30
    else 31

-- The days from the first of March of the year 0 to the day of a time.
abbrev pub day_number : Time → ℕ
day_number (pos n) = 719468 + n / 86400000000000
day_number (negsuc n) = 719468 - (n / 86400000000000 + 1)

-- t.UTC(), in the proleptic Gregorian calendar, whose years are counted from March here.
unfoldable pub utc : Time → Date
utc t =
    let z = day_number t in
    let era = z / 146097 in
    let doe = z % 146097 in
    let yoe = (doe - doe / 1460 + doe / 36524 - doe / 146096) / 365 in
    let doy = doe - (365 * yoe + yoe / 4 - yoe / 100) in
    let mp = (5 * doy + 2) / 153 in
    let month = if ltb mp 10 then mp + 3 else mp - 9 in
    record {
      year = yoe + era * 400 + (if leb month 2 then 1 else 0);
      month = month;
      day = doy - (153 * mp + 2) / 5 + 1;
    }

-- The month that comes `n` months after another: a month beyond 12 is carried to the year.
unfoldable pub plus_months : Month → ℕ → Month
plus_months m n = record {
  year = m.year + (m.month + n - 1) / 12;
  month = (m.month + n - 1) % 12 + 1;
}

abbrev pub month_of : Date → Month
month_of d = record { year = d.year; month = d.month }

-- The year and the month of `t.AddDate(0, n, 0)`: a day that the month does not have is carried into
-- the next one.
unfoldable pub add_months : Date → ℕ → Month
add_months d n =
    let m = plus_months (month_of d) n in
    if leb d.day (days_in_month m.year m.month) then m else plus_months m 1

-- A partition of `job_runs`: the month in its name, and the months whose first days bound it.
pub record Partition : Type 0 where
  pub name : Month
  pub from : Month
  pub to : Month

abbrev pub month_eq : Month → Month → Bool
month_eq a b = a.year == b.year && a.month == b.month

abbrev pub is_named : Month → Partition → Bool
is_named m p = month_eq p.name m

abbrev pub partition_of : Month → Partition
partition_of m = record { name = m; from = m; to = plus_months m 1 }

-- CREATE TABLE IF NOT EXISTS … PARTITION OF job_runs
unfoldable pub create_partition : Month → List Partition → List Partition
create_partition m ps = elim (find (is_named m) ps) [
  | none ↦ ps ++ partition_of m ∷ []
  | some _ ↦ ps
]

-- Postgres may refuse it, as it does where the default partition holds rows of the month.
unfoldable pub ensure_job_runs_partition : Outcome → Month → List Partition → List Partition
ensure_job_runs_partition refused m ps = ps
ensure_job_runs_partition done m ps = create_partition m ps
ensure_job_runs_partition lost m ps = create_partition m ps
ensure_job_runs_partition skipped m ps = create_partition m ps

-- partitionLookaheadMonths
abbrev pub lookahead_months : ℕ
lookahead_months = 3

-- `for i := 1; i <= lookahead; i++`, by the rounds left; an error is logged and passed over.
unfoldable pub ensure_from :
    (outcome : ℕ → Outcome) → ℕ → ℕ → Date → List Partition → List Partition
ensure_from outcome zero i today ps = ps
ensure_from outcome (suc rounds) i today ps =
    ensure_from outcome rounds (i + 1) today
      (ensure_job_runs_partition (outcome i) (add_months today i) ps)

-- `outcome i` answers the i-th statement.
unfoldable pub ensure_partitions : (outcome : ℕ → Outcome) → Time → List Partition → List Partition
ensure_partitions outcome now ps = ensure_from outcome lookahead_months 1 (utc now) ps

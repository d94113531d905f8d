-- ===== src/Storage/Partitions/Cover.antt =====
-- internal/scheduler/scheduler.go, ensurePartitions: which months have a partition afterwards.
use jobit.Prelude.{
  ℕ, zero, suc, ◌≤◌, ◌≡◌, refl, sym, ◌∙◌, ap, inl, inr, Bool, true, false, is_some, List, [], ◌∷◌,
  ◌++◌, ==_refl, arith, Option-cases,
}
use jobit.Job.{Time}
use jobit.World.{Outcome, done, refused, lost, skipped, find}
use jobit.World.TableLaws.{find-append}
use jobit.Storage.Partitions.{
  Date, Month, Partition, month_of, plus_months, add_months, days_in_month, utc, month_eq, is_named,
  partition_of, create_partition, ensure_job_runs_partition, ensure_from, ensure_partitions,
}

-- Whether a month has a partition of its own.
abbrev pub has : Month → List Partition → Bool
has m ps = is_some (find (is_named m) ps)

month_eq_refl : (m : Month) → month_eq m m ≡ true
month_eq_refl m = rw (==_refl m.year, ==_refl m.month) refl

has-append :
    (m : Month) (ps : List Partition) (p : Partition)
    → has m ps ≡ true
    → has m (ps ++ p ∷ []) ≡ true
has-append m [] p h = cc
has-append m (q ∷ ps) p h = ground (arith, has-append m ps p)

-- A test that neither the rows nor the new row passes.
lacks-append :
    (m : Month) (ps : List Partition) (p : Partition)
    → has m ps ≡ false
    → is_named m p ≡ false
    → has m (ps ++ p ∷ []) ≡ false
lacks-append m [] p h e = rw e refl
lacks-append m (q ∷ ps) p h e = ground (arith, lacks-append m ps p)

has-create : (m : Month) (ps : List Partition) → has m (create_partition m ps) ≡ true
unfolding create_partition
has-create m ps = elim (Option-cases (find (is_named m) ps)) [
  | inl e ↦ ground (arith, e, find-append (is_named m) ps (partition_of m) e (month_eq_refl m))
  | inr (p, e) ↦ ground (arith, e)
]

has-create_other :
    (m k : Month) (ps : List Partition) → has k ps ≡ true → has k (create_partition m ps) ≡ true
unfolding create_partition
has-create_other m k ps h = ground (arith, has-append k ps (partition_of m))

lacks-create :
    (m k : Month) (ps : List Partition)
    → has k ps ≡ false
    → month_eq m k ≡ false
    → has k (create_partition m ps) ≡ false
unfolding create_partition
lacks-create m k ps h e = ground (arith, lacks-append k ps (partition_of m))

short_day : (d : Date) (n : ℕ) → d.day ≤ 28 → add_months d n ≡ plus_months (month_of d) n
unfolding add_months days_in_month
short_day d n h = ground arith

-- A tick in which every statement is done makes the partitions of three targets.
ensured :
    (today : Date) (ps : List Partition)
    → ensure_from (λ i. done) 3 1 today ps
      ≡ create_partition
          (add_months today 3)
          (create_partition (add_months today 2) (create_partition (add_months today 1) ps))
unfolding ensure_from ensure_job_runs_partition
ensured today ps = refl

has_target :
    (today : Date) (ps : List Partition) (n : ℕ)
    → 1 ≤ n
    → n ≤ 3
    → has (add_months today n) (ensure_from (λ i. done) 3 1 today ps) ≡ true
has_target today ps zero lo hi = absurd (omega (arith, lo))
has_target today ps (suc zero) lo hi =
    ap (has (add_months today 1)) (ensured today ps)
    ∙ has-create_other (add_months today 3) (add_months today 1) _ (
        has-create_other (add_months today 2) (add_months today 1) _
          (has-create (add_months today 1) ps))
has_target today ps (suc (suc zero)) lo hi =
    ap (has (add_months today 2)) (ensured today ps)
    ∙ has-create_other (add_months today 3) (add_months today 2) _
        (has-create (add_months today 2) _)
has_target today ps (suc (suc (suc zero))) lo hi =
    ap (has (add_months today 3)) (ensured today ps) ∙ has-create (add_months today 3) _
has_target today ps (suc (suc (suc (suc n)))) lo hi = absurd (omega (arith, hi))

-- Where Postgres answers and the day is at most the 28th, each of the three months after the current
-- one has a partition after a tick, with the year carried.
pub ensure_partitions-has :
    (now : Time) (ps : List Partition) (n : ℕ)
    → (utc now).day ≤ 28
    → 1 ≤ n
    → n ≤ 3
    → has (plus_months (month_of (utc now)) n) (ensure_partitions (λ i. done) now ps) ≡ true
unfolding ensure_partitions
ensure_partitions-has now ps n short lo hi =
    ap (λ m. has m (ensure_from (λ i. done) 3 1 (utc now) ps)) (sym (short_day (utc now) n short))
    ∙ has_target (utc now) ps n lo hi

lacks-ensure :
    (o : Outcome) (m k : Month) (ps : List Partition)
    → has k ps ≡ false
    → month_eq m k ≡ false
    → has k (ensure_job_runs_partition o m ps) ≡ false
unfolding ensure_job_runs_partition
lacks-ensure refused m k ps h e = h
lacks-ensure done m k ps h e = lacks-create m k ps h e
lacks-ensure lost m k ps h e = lacks-create m k ps h e
lacks-ensure skipped m k ps h e = lacks-create m k ps h e

-- At the end of January no target is the month that follows it.
january_targets :
    (today : Date) (n : ℕ)
    → today.month ≡ 1
    → 30 ≤ today.day
    → 1 ≤ n
    → n ≤ 3
    → month_eq (add_months today n) (record { year = today.year; month = 2 }) ≡ false
unfolding add_months plus_months days_in_month
january_targets today n m lo a b = ground arith

-- On the last two days of January a tick makes no partition for February, however Postgres answers.
pub ensure_partitions_skips :
    (outcome : ℕ → Outcome) (now : Time) (ps : List Partition)
    → (utc now).month ≡ 1
    → 30 ≤ (utc now).day
    → has (record { year = (utc now).year; month = 2 }) ps ≡ false
    → has (record { year = (utc now).year; month = 2 }) (ensure_partitions outcome now ps) ≡ false
unfolding ensure_partitions ensure_from
ensure_partitions_skips outcome now ps m day h =
    let february : Month = record { year = (utc now).year; month = 2 } in
    let target = add_months (utc now) in
    let first =
      lacks-ensure (outcome 1) (target 1) february ps h
        (january_targets (utc now) 1 m day (omega arith) (omega arith)) in
    let second =
      lacks-ensure (outcome 2) (target 2) february _ first
        (january_targets (utc now) 2 m day (omega arith) (omega arith)) in
    lacks-ensure (outcome 3) (target 3) february _ second
      (january_targets (utc now) 3 m day (omega arith) (omega arith))

-- ===== src/Cli/Reports.antt =====
-- cmd/sluice-cli/main.go, cmdListDead and cmdDumpScheduler: what they read and print, apart from the
-- layout.
pub mod Depths
use jobit.Prelude.{
  ℕ, zero, suc, Bool, true, false, Option, none, some, List, [], ◌∷◌, ◌++◌, take, filter,
}
use jobit.Prelude.Int.{ltb_ℤ}
use jobit.Job.{Job, State, Time, pending, scheduled, claimed, running, succeeded, failed, dead}
use jobit.World.{World, Schedule, DeadLetterEntry, Result, ok, err, Call, exec, order_by, llen}
use jobit.Storage.Jobs.{query}
use jobit.Storage.Bodies.{is_in_flight}
use jobit.Storage.Schedules.{group_by_state}
use jobit.Cli.Drain.{QueueKey}

-- ORDER BY moved_at DESC LIMIT 50
unfoldable pub select_dead : Call (List DeadLetterEntry)
select_dead =
    exec (query (λ d. take 50 (order_by (λ e f. ltb_ℤ f.moved_at e.moved_at) d.dead_letter)))

-- `none` is `fatalf`.
abbrev pub or_fatal : {A : Type 0} → Result A × World → Option A × World
or_fatal (ok a, w) = (some a, w)
or_fatal (err e, w) = (none, w)

unfoldable pub cmd_list_dead : World → Option (List DeadLetterEntry) × World
cmd_list_dead w = or_fatal (select_dead w)

-- ORDER BY state is by the text that the query shows.
abbrev pub states_by_text : List State
states_by_text = claimed ∷ dead ∷ failed ∷ pending ∷ running ∷ scheduled ∷ succeeded ∷ []

unfoldable pub select_counts : Call (List (State × ℕ))
select_counts = exec (query (λ d. group_by_state states_by_text d.jobs))

-- ORDER BY claimed_at: NULL comes last.
abbrev pub sooner_or_null : Option Time → Option Time → Bool
sooner_or_null (some s) (some t) = ltb_ℤ s t
sooner_or_null (some s) none = true
sooner_or_null none _ = false

unfoldable pub select_active : Call (List Job)
select_active = exec (
    query (λ d.
      order_by (λ j k. sooner_or_null j.claimed_at k.claimed_at)
        (filter (λ j. is_in_flight j.state) d.jobs)))

unfoldable pub select_upcoming : Call (List Schedule)
select_upcoming = exec (
    query (λ d.
      take 10 (
        order_by (λ s t. ltb_ℤ s.next_run_at t.next_run_at) (filter (λ s. s.enabled) d.schedules))))

-- A list that is not empty, with its length.
abbrev pub Depth : Type 0
Depth = QueueKey × ℕ

-- After LLEN: `if err != nil || n == 0 { continue }`.
abbrev pub noted : QueueKey → Result ℕ → List Depth → List Depth
noted k (ok zero) ds = ds
noted k (ok (suc n)) ds = (k, suc n) ∷ ds
noted k (err e) ds = ds

unfoldable pub depths_in : List QueueKey → World → List Depth × World
depths_in [] w = ([], w)
depths_in ((b, t) ∷ ks) w =
    let (r, w') = llen b t w in let (ds, w'') = depths_in ks w' in (noted (b, t) r ds, w'')

-- The pages of SCAN until its cursor is 0; an error of SCAN ends the loop with what there is.
unfoldable pub dump_depths : List (Option (List QueueKey)) → World → List Depth × World
dump_depths [] w = ([], w)
dump_depths (none ∷ pages) w = ([], w)
dump_depths (some ks ∷ pages) w =
    let (ds, w') = depths_in ks w in let (es, w'') = dump_depths pages w' in (ds ++ es, w'')

pub record Dump : Type 0 where
  pub counts : List (State × ℕ)
  pub active : List Job
  pub upcoming : List Schedule
  pub depths : List Depth

abbrev pub then_depths :
    List (Option (List QueueKey))
    → List (State × ℕ)
    → List Job
    → Option (List Schedule) × World
    → Option Dump × World
then_depths pages cs js (none, w) = (none, w)
then_depths pages cs js (some ss, w) =
    let (ds, w') = dump_depths pages w in
    (some (record { counts = cs; active = js; upcoming = ss; depths = ds }), w')

abbrev pub then_upcoming :
    List (Option (List QueueKey))
    → List (State × ℕ)
    → Option (List Job) × World
    → Option Dump × World
then_upcoming pages cs (none, w) = (none, w)
then_upcoming pages cs (some js, w) = then_depths pages cs js (or_fatal (select_upcoming w))

abbrev pub then_active :
    List (Option (List QueueKey)) → Option (List (State × ℕ)) × World → Option Dump × World
then_active pages (none, w) = (none, w)
then_active pages (some cs, w) = then_upcoming pages cs (or_fatal (select_active w))

-- What a fatal error has printed by then is not kept.
unfoldable pub cmd_dump_scheduler : List (Option (List QueueKey)) → World → Option Dump × World
cmd_dump_scheduler pages w = then_active pages (or_fatal (select_counts w))

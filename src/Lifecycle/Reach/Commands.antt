-- ===== src/Lifecycle/Reach/Commands.antt =====
-- cmd/sluice-cli/main.go, main: no command does more to the table `jobs` than allowed operations.
use text.Mathlib.Text.{◌==◌ as str_eq}
use jobit.Prelude.{
  ℕ, ◌≡◌, refl, ◌∙◌, ap, String, Bool, true, false, Option, none, some, List, [], ◌∷◌,
  if◌then◌else◌,
}
use jobit.World.{World, Bucket, Schedule, Result, ok, err}
use jobit.Job.{Job, State}
use jobit.Lifecycle.Change.{exec-Leaves}
use jobit.Lifecycle.Reach.{Reach, redis_exec-db}
use jobit.Lifecycle.Reach.Operator.{cmd_replay-Reach, cmd_force_fail-Reach, cmd_drain-Reach}
use jobit.Cli.Drain.{QueueKey}
use jobit.Cli.Reports.{
  or_fatal, select_dead, cmd_list_dead, select_counts, select_active, select_upcoming, depths_in,
  dump_depths, then_depths, then_upcoming, then_active, cmd_dump_scheduler,
}
use jobit.Cli.Command.{Shown, showing, bare_llen, bare_depths, cmd_queue_depth, dispatch}
use jobit.Cli.Command

abbrev jobs_of : World → List Job
jobs_of w = w.db.jobs

or_fatal-jobs : {A : Type 0} (p : Result A × World) → jobs_of (or_fatal p).1 ≡ jobs_of p.1
or_fatal-jobs (ok a, w) = refl
or_fatal-jobs (err e, w) = refl

cmd_list_dead-jobs : (w : World) → jobs_of (cmd_list_dead w).1 ≡ jobs_of w
unfolding cmd_list_dead select_dead
cmd_list_dead-jobs w = or_fatal-jobs (select_dead w) ∙ exec-Leaves _ (λ d. refl) w

depths_in-jobs : (ks : List QueueKey) (w : World) → jobs_of (depths_in ks w).1 ≡ jobs_of w
unfolding depths_in
depths_in-jobs [] w = refl
depths_in-jobs ((b, t) ∷ ks) w = depths_in-jobs ks _ ∙ ap (λ d. d.jobs) (redis_exec-db _ w)

dump_depths-jobs :
    (pages : List (Option (List QueueKey))) (w : World)
    → jobs_of (dump_depths pages w).1 ≡ jobs_of w
unfolding dump_depths
dump_depths-jobs [] w = refl
dump_depths-jobs (none ∷ pages) w = refl
dump_depths-jobs (some ks ∷ pages) w =
    dump_depths-jobs pages (depths_in ks w).1 ∙ depths_in-jobs ks w

module _ (pages : List (Option (List QueueKey))) where
  then_depths-jobs :
      (cs : List (State × ℕ)) (js : List Job) (p : Option (List Schedule) × World)
      → jobs_of (then_depths pages cs js p).1 ≡ jobs_of p.1
  then_depths-jobs cs js (none, w) = refl
  then_depths-jobs cs js (some ss, w) = dump_depths-jobs pages w

  then_upcoming-jobs :
      (cs : List (State × ℕ)) (p : Option (List Job) × World)
      → jobs_of (then_upcoming pages cs p).1 ≡ jobs_of p.1
  unfolding select_upcoming
  then_upcoming-jobs cs (none, w) = refl
  then_upcoming-jobs cs (some js, w) =
      then_depths-jobs cs js (or_fatal (select_upcoming w))
      ∙ or_fatal-jobs (select_upcoming w)
      ∙ exec-Leaves _ (λ d. refl) w

  then_active-jobs :
      (p : Option (List (State × ℕ)) × World) → jobs_of (then_active pages p).1 ≡ jobs_of p.1
  unfolding select_active
  then_active-jobs (none, w) = refl
  then_active-jobs (some cs, w) =
      then_upcoming-jobs cs (or_fatal (select_active w))
      ∙ or_fatal-jobs (select_active w)
      ∙ exec-Leaves _ (λ d. refl) w

  cmd_dump_scheduler-jobs : (w : World) → jobs_of (cmd_dump_scheduler pages w).1 ≡ jobs_of w
  unfolding cmd_dump_scheduler select_counts
  cmd_dump_scheduler-jobs w =
      then_active-jobs (or_fatal (select_counts w))
      ∙ or_fatal-jobs (select_counts w)
      ∙ exec-Leaves _ (λ d. refl) w

bare_depths-jobs :
    (bare : Bucket → Option ℕ) (bs : List Bucket) (w : World)
    → jobs_of (bare_depths bare bs w).1 ≡ jobs_of w
unfolding bare_depths bare_llen
bare_depths-jobs bare [] w = refl
bare_depths-jobs bare (b ∷ bs) w = bare_depths-jobs bare bs _ ∙ ap (λ d. d.jobs) (redis_exec-db _ w)

if-Reach :
    (b : Bool) (w : World) (p q : Shown × World)
    → Reach w p.1
    → Reach w q.1
    → Reach w (if b then p else q).1
if-Reach true w p q h k = h
if-Reach false w p q h k = k

module _ (parse_uuid : String → Option ℕ) (pages : List (Option (List QueueKey)))
    (bare : Bucket → Option ℕ) where
  dispatch-Reach :
      (name : String) (args : List String) (w : World)
      → Reach w (dispatch parse_uuid pages bare name args w).1
  unfolding dispatch cmd_queue_depth
  dispatch-Reach name args w = if-Reach (str_eq name "replay") w _ _ (cmd_replay-Reach _ w) (
      if-Reach (str_eq name "force-fail") w _ _ (cmd_force_fail-Reach _ w) (
        if-Reach (str_eq name "drain") w _ _ (cmd_drain-Reach pages w) (
          if-Reach (str_eq name "dump-scheduler") w _ _
            (Reach.idle (cmd_dump_scheduler-jobs pages w))
            (if-Reach (str_eq name "list-dead") w _ _ (Reach.idle (cmd_list_dead-jobs w)) (
              if-Reach (str_eq name "queue-depth") w _ _ (Reach.idle (bare_depths-jobs bare _ w))
                (Reach.idle refl))))))

  -- Whatever the operator's command and its arguments, and however the servers answer, the command acts
  -- on the table `jobs` as a sequence of allowed operations.
  pub command-Reach :
      (connects : Bool) (args : List String) (w : World)
      → Reach w (Command.main parse_uuid pages bare connects args w).1
  unfolding Command.main
  command-Reach connects [] w = Reach.idle refl
  command-Reach connects (name ∷ args) w =
      if-Reach connects w _ _ (dispatch-Reach name args w) (Reach.idle refl)

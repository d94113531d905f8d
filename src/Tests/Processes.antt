-- ===== src/Tests/Processes.antt =====
-- The worker's loop and the operator's commands at concrete inputs.
use jobit.Prelude.{
  ◌+◌, ◌≡◌, ◌⊎◌, refl, true, false, none, some, List, [], ◌∷◌, leb, ◌==◌, map, String, Option, ℕ,
}
use jobit.Job.{Job, state_eq, dead, Time}
use jobit.World.{World, Redis, uuid_text, queue_1, queue_5, set_queue, healthy}
use jobit.Storage.Jobs.{reset}
use jobit.Worker.Run.{Course, run}
use jobit.Worker.Run.Ends.{IsOrderly, run-IsOrderly}
use jobit.Api.{ok_job, not_found_404, handle_replay_job}
use jobit.Cli.{printed, fatal, cmd_replay}
use jobit.Cli.Replay.{with_reset, replay_agrees}
use jobit.Cli.Drain.{QueueKey, cmd_drain}
use jobit.Cli.Drain.Empty.{queue_of}
use jobit.Cli.Drain.Count.{total, waiting, cmd_drain_empties}
use jobit.Prelude.Int.{pos, ◌+ℤ◌}
use jobit.Scheduler.Run.{due_poll, stale_reaper, cron_expander}
use jobit.Lifecycle.Sound.{IsSoundTable}
use jobit.Lifecycle.System.{Deed, serves, ticks, commands, passes, outcome_of, system-IsSoundTable}
use jobit.Api.Server.{v1, post_replay}
use jobit.Tests.Refinement.{next_hour, template}
use jobit.Tests.Data.{
  small_db-IsSoundTable, waiting_job, running_job, tenant_7, small_db, empty_redis, rough_world,
}

-- The worker is told to stop in the third round.
abbrev course : Course
course = record {
  is_shutdown = λ n. leb 2 n;
  is_done = λ t. false;
  reloads = λ n. n == 1;
  between = λ n w. w;
  draws = λ n k m i. 0;
  token = λ n. n + 21;
  run_id = λ n. n + 31;
  backoff = λ n m. 0;
  meanwhile = λ n k w. w;
  ticks = λ n. 1;
}

-- Jobs wait in two queues of tenant 7.
abbrev queued_redis : Redis
queued_redis =
    set_queue queue_1 7 (uuid_text 2 ∷ [])
      (set_queue queue_5 7 (uuid_text 3 ∷ uuid_text 1 ∷ []) empty_redis)

abbrev queued_world : World
queued_world = record rough_world { redis = queued_redis }

run-IsOrderly_example :
    IsOrderly course 5 0 (run (λ j. none) (λ e. "failed") 5 course 5 queued_world)
run-IsOrderly_example =
    run-IsOrderly (λ j. none) (λ e. "failed") 5 course 5 queued_world (λ n k m i h. h)

abbrev dead_job : Job
dead_job = record waiting_job { state = dead }

abbrev dead_world : World
dead_world = record queued_world { db = record small_db { jobs = running_job ∷ dead_job ∷ [] } }

replay_agrees_example :
    let (r, after_api) = handle_replay_job tenant_7 (some 1) (healthy dead_world) in
    let (x, after_cli) = cmd_replay (some 1) (healthy dead_world) in
    (after_api ≡ after_cli)
    × ((state_eq dead dead ≡ true)
          × (r ≡ ok_job (reset dead_job))
          × (x ≡ printed)
          × (after_cli ≡ with_reset 1 dead_job dead_world)
        ⊎ (state_eq dead dead ≡ false)
          × (r ≡ not_found_404)
          × (x ≡ fatal)
          × (after_cli ≡ healthy dead_world))
replay_agrees_example =
    replay_agrees tenant_7 1 dead_job dead_world (((λ e. cc), tt), (tt, tt)) refl refl

-- SCAN shows one key twice.
abbrev pages : List (List QueueKey)
pages = ((queue_1, 7) ∷ []) ∷ ((queue_5, 7) ∷ (queue_1, 7) ∷ []) ∷ []

cmd_drain_empties_example :
    let (r, w') = cmd_drain (map some pages) (healthy queued_world) in
    (queue_of (queue_5, 7) w'.redis ≡ [])
    × (total r + waiting ((queue_1, 7) ∷ (queue_5, 7) ∷ []) w'.redis ≡ 3)
cmd_drain_empties_example =
    cmd_drain_empties pages ((queue_1, 7) ∷ (queue_5, 7) ∷ []) (queue_5, 7) queued_world
      ((refl, tt), (tt, tt)) (refl, (refl, (refl, tt)))

abbrev two_pages : List (List QueueKey)
two_pages = ((queue_1, 7) ∷ []) ∷ ((queue_5, 7) ∷ []) ∷ []

abbrev zones : String → Option ℕ
zones name = some 0

abbrev each_minute : String → Option (ℕ → Time → Time)
each_minute expression = some (λ zone t. t +ℤ pos 60000000000)

-- Before each round a loop ticks and time passes.
abbrev outside : ℕ → List Deed
outside n = ticks due_poll ∷ passes 5 ∷ ticks (cron_expander (λ k. k + 50)) ∷ []

-- While a job executes the operator fails it, the reaper ticks, and a tenant asks for a replay.
abbrev inside : ℕ → ℕ → List Deed
inside n k =
    commands (λ s. some 1) [] (λ b. none) true ("force-fail" ∷ "job-1" ∷ [])
    ∷ ticks stale_reaper
    ∷ serves 60 false (v1 "Bearer secret" (post_replay (some 3)))
    ∷ []

system-IsSoundTable_example :
    IsSoundTable
      (outcome_of zones each_minute
        (λ a b. true)
        true
        next_hour
        template
        (λ j. none)
        (λ e. "failed")
        5
        course
        outside
        inside
        5
        queued_world).db.jobs
system-IsSoundTable_example =
    system-IsSoundTable zones each_minute (λ a b. true) true next_hour template (λ j. none)
      (λ e. "failed") 5 course outside inside 5 queued_world (λ n k m i h. h) small_db-IsSoundTable

-- ===== src/Lifecycle/System.antt =====
-- The processes together: a worker (internal/worker), any number of instances of the scheduler
-- (internal/scheduler), the API server (internal/api) and the operator (cmd/sluice-cli), in any order of
-- their calls.
use jobit.Prelude.{ℕ, ◌≡◌, refl, String, Bool, Option, some, List, [], ◌∷◌}
use jobit.Job.{Job, Time, succeeded}
use jobit.World.{World, Bucket}
use jobit.Worker.{ExecError}
use jobit.Worker.Run.{Course}
use jobit.Worker.Run
use jobit.Worker.Run.Ends.{AreFair}
use jobit.Scheduler.{Template}
use jobit.Scheduler.Run.{Tick, tick}
use jobit.Api.Socket.{handle_web_socket}
use jobit.Api.Server.{Target, serve}
use jobit.Cli.Command
use jobit.Cli.Drain.{QueueKey}
use jobit.Lifecycle.{Op, step}
use jobit.Lifecycle.Sound.{IsSoundTable}
use jobit.Lifecycle.Automaton.{row_of, step-Fate, Fate-succeeded}
use jobit.Lifecycle.Reach.{Reach, Reach-IsSoundTable}
use jobit.Lifecycle.Reach.Serve.{serve-Reach}
use jobit.Lifecycle.Reach.Leader.{tick-Reach}
use jobit.Lifecycle.Reach.Commands.{command-Reach}
use jobit.Lifecycle.Reach.Socket.{handle_web_socket-Reach}
use jobit.Lifecycle.Reach.Run.{run-Reach}

-- What another process does between two calls of a worker: the API serves a request, whose new id is
-- given, or a dashboard's connection; a loop of some instance of the scheduler ticks; the operator gives a command; another worker
-- makes one of its calls; or time passes.
pub data Deed : Type 0 where
  serves : (new_id : ℕ) (is_options : Bool) → Target → Deed
  ticks : Tick → Deed
  commands :
      (parse_uuid : String → Option ℕ) (pages : List (Option (List QueueKey)))
      (bare : Bucket → Option ℕ) (connects : Bool)
      → List String
      → Deed
  streams : (is_done writes : ℕ → Bool) (upgrades : Bool) (seconds : ℕ) → Deed
  claims : (job_id worker_id token : ℕ) (deadline : Time) (run_id : ℕ) → Deed
  marks : (job_id token : ℕ) → Deed
  extends : (job_id token : ℕ) (deadline : Time) → Deed
  completes : (job_id run_id token : ℕ) → Deed
  gives_up : (job_id run_id token : ℕ) (message : String) (next_run_at : Option Time) → Deed
  passes : ℕ → Deed

-- Where a job that has succeeded has its row, it keeps that.
pub Reach-succeeded :
    {w w' : World} (id : ℕ) (x : Job)
    → Reach w w'
    → IsSoundTable w.db.jobs
    → row_of id w ≡ some x
    → x.state ≡ succeeded
    → row_of id w' ≡ some x
Reach-succeeded id x (Reach.idle e) h found s = rw e found
Reach-succeeded id x (Reach.does {w} op a) h found s =
    Fate-succeeded (step-Fate op w a h.unique id x found) s
Reach-succeeded id x (Reach.also {w} {v} r q) h found s =
    Reach-succeeded id x q (Reach-IsSoundTable r h) (Reach-succeeded id x r h found s) s

module _ {Location : Type 0} (load_location : String → Option Location)
    (parse : String → Option (Location → Time → Time)) (by_name : String → String → Bool)
    (has_limiter : Bool) (next_run : String → Option (Time → Time))
    (unmarshal : String → Option Template) where
  unfoldable pub perform : Deed → World → World
  perform (serves new_id is_options target) w =
      (serve load_location parse by_name has_limiter new_id is_options target w).1
  -- The partitions of `job_runs` are beside the world.
  perform (ticks t) w = (tick next_run unmarshal t ([], w)).1
  perform (commands parse_uuid pages bare connects args) w =
      (Command.main parse_uuid pages bare connects args w).1
  perform (streams is_done writes upgrades seconds) w =
      (handle_web_socket is_done writes (λ n v. v) upgrades seconds w).1
  perform (claims job_id worker_id token deadline run_id) w =
      step (Op.claim job_id worker_id token deadline run_id) w
  perform (marks job_id token) w = step (Op.mark job_id token) w
  perform (extends job_id token deadline) w = step (Op.extend job_id token deadline) w
  perform (completes job_id run_id token) w = step (Op.complete job_id run_id token) w
  perform (gives_up job_id run_id token message next_run_at) w =
      step (Op.fail job_id run_id token message next_run_at) w
  perform (passes n) w = step (Op.wait n) w

  unfoldable pub perform_all : List Deed → World → World
  perform_all [] w = w
  perform_all (d ∷ ds) w = perform_all ds (perform d w)

  perform-Reach : (d : Deed) (w : World) → Reach w (perform d w)
  unfolding perform
  perform-Reach (serves new_id is_options target) w =
      serve-Reach load_location parse by_name has_limiter new_id is_options target w
  perform-Reach (ticks t) w = tick-Reach next_run unmarshal t ([], w)
  perform-Reach (commands parse_uuid pages bare connects args) w =
      command-Reach parse_uuid pages bare connects args w
  perform-Reach (streams is_done writes upgrades seconds) w =
      handle_web_socket-Reach is_done writes (λ n v. v) (λ n v. Reach.idle refl) upgrades seconds w
  perform-Reach (claims job_id worker_id token deadline run_id) w =
      Reach.does (Op.claim job_id worker_id token deadline run_id) tt
  perform-Reach (marks job_id token) w = Reach.does (Op.mark job_id token) tt
  perform-Reach (extends job_id token deadline) w = Reach.does (Op.extend job_id token deadline) tt
  perform-Reach (completes job_id run_id token) w = Reach.does (Op.complete job_id run_id token) tt
  perform-Reach (gives_up job_id run_id token message next_run_at) w =
      Reach.does (Op.fail job_id run_id token message next_run_at) tt
  perform-Reach (passes n) w = Reach.does (Op.wait n) tt

  perform_all-Reach : (ds : List Deed) (w : World) → Reach w (perform_all ds w)
  unfolding perform_all
  perform_all-Reach [] w = Reach.idle refl
  perform_all-Reach (d ∷ ds) w = Reach.also (perform-Reach d w) (perform_all-Reach ds (perform d w))

  -- The course of a worker's rounds among the deeds of the others.
  abbrev pub amid : (ℕ → List Deed) → (ℕ → ℕ → List Deed) → Course → Course
  amid outside inside c = record c {
    between = λ n. perform_all (outside n);
    meanwhile = λ n k. perform_all (inside n k);
  }

  module _ (execute : Job → Option ExecError) (message : ExecError → String) (worker_id : ℕ)
      (c : Course) (outside : ℕ → List Deed) (inside : ℕ → ℕ → List Deed) (rounds : ℕ)
      (w : World) where
    -- The world after the worker's rounds.
    abbrev pub outcome_of : World
    outcome_of = (Run.run execute message worker_id (amid outside inside c) rounds w).1

    system-Reach : AreFair c → Reach w outcome_of
    system-Reach fair =
        run-Reach execute message worker_id (amid outside inside c)
          (λ n v. perform_all-Reach (outside n) v) (λ n k v. perform_all-Reach (inside n k) v)
          rounds w fair

    -- From a table `jobs` with unique ids and sound rows, any number of rounds of a worker, with legal
    -- draws, among any deeds of the other processes, before its rounds and while it executes a job,
    -- leads to such a table, however the servers answer.
    pub system-IsSoundTable : AreFair c → IsSoundTable w.db.jobs → IsSoundTable outcome_of.db.jobs
    system-IsSoundTable fair = Reach-IsSoundTable (system-Reach fair)

    -- From such a table, a job that has succeeded has its row, column for column, after any number of
    -- rounds of a worker, with legal draws, among any deeds of the other processes.
    system_succeeded :
        (id : ℕ) (x : Job)
        → AreFair c
        → IsSoundTable w.db.jobs
        → row_of id w ≡ some x
        → x.state ≡ succeeded
        → row_of id outcome_of ≡ some x
    system_succeeded id x fair = Reach-succeeded id x (system-Reach fair)

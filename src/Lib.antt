-- ===== src/Lib.antt =====
-- A model of the Sluice job scheduler: a durable job queue on Postgres, with Redis for delivery.
--
-- The program's parts. The API server inserts jobs into Postgres and pushes their ids on Redis lists;
-- workers pop an id, claim the job's row under a fresh token, run it, and record how it ended; the
-- leader's loops promote jobs that are due, take back claims whose deadline has passed, and push
-- pending jobs again that Redis has lost. All of them meet in the table `jobs` only, through
-- single statements and short transactions.
--
-- The files and what they model:
--   Prelude      shared names, Boolean tests, lists, signed integers
--   Job          internal/job/job.go: Job, State, IsTerminal, ShouldRetry; Job/Retry is NextRetryAt
--   World        the servers: Rows are the tables (migrations/), Table the SQL statements on them, Keys
--                the Redis keys, Exec a call by one process, Tx the statements inside a transaction
--   Storage      internal/storage/storage.go: Jobs, Claims (with Bodies, what stands between Begin and
--                Commit), Promote and Schedules are its functions under their own names, and
--                Partitions its statement on partitions, with the dates; the other modules are proofs
--   Lifecycle    every function that changes `jobs` as one type of operations, with traces of them
--                Lifecycle/Reach ties the worker, the loops, the handlers and the operator's commands
--                to them, and Lifecycle/System lets the processes run together
--   Queue        internal/queue/queue.go: Enqueue, Dequeue, Heartbeat, RemoveFromProcessing; Queue/Shuffle
--                is weightedShuffle
--   RateLimit    internal/ratelimit/ratelimit.go: Allow
--   Worker       internal/worker/worker.go: loadTenants, process, heartbeat, execute, executeWebhook;
--                Worker/Run is the loop Run, Worker/Shutdown is Shutdown, and what is left of a job
--                when its context ends
--   Scheduler    internal/scheduler/scheduler.go: one tick of each loop, fireSchedule; Scheduler/Run is
--                Run, with its elections; the tick ensurePartitions stands in Storage/Partitions,
--                with what it calls; Scheduler/Polling, Reaping, Burial and Delivery
--                show what whole ticks do
--   Api          internal/api: handler.go; Bearer and Server are middleware.go and the routes of
--                server.go, Schedules is schedule_handler.go, Stats is stats_handler.go with what
--                ws_handler.go reads, and Socket the connection of ws_handler.go
--                Api/Context has the request contexts of internal/tenant/tenant.go and
--                internal/telemetry/telemetry.go
--   Leader       internal/leader/leader.go: Campaign, over an interface of etcd
--   Sluice       cmd/sluice/main.go: the settings, main, and what the roles run
--   Cli          cmd/sluice-cli/main.go: replay and force-fail; Cli/Drain is drain, and Cli/Reports what
--                dump-scheduler and list-dead read; Cli/Command is main, with queue-depth
--   Tests        the theorems at concrete inputs
--
-- How the state corresponds. A World holds the rows of the tables as lists, the Redis keys as
-- functions, the clock, and a script of outcomes: each statement in turn is done, or refused, or done
-- with its answer lost, or done while other transactions hold its rows, which SKIP LOCKED in TryClaim
-- passes over; where the script has ended it is done. A call takes the world and gives a
-- result or an error value with the next world. A transaction acts at once or not at all: its rows are
-- locked or its statements guarded, so other processes act between calls, not within. A trace of
-- Lifecycle is such a sequence of calls by any processes. UUIDs and tokens are natural numbers, a
-- `uuid.New()` is an argument, and so are random draws, the HTTP client, JSON, the form
-- that JSONB gives to a text, and the cron parser. Times are instants, without the zone that shows them. A
-- context is the set of the times at which it is done: process hands its own to each call that takes one.
--
-- Bounds and fuel. `int` is a 64-bit word with its wrap-around in NextRetryAt; elsewhere counts are
-- unbounded. weightedShuffle runs on one unit of fuel for each tenant, since each round takes one out.
-- Dequeue runs on a unit for each poll interval of its timeout and one more, since each round sleeps
-- that long. The worker's loop has no end of its own: it is run for any number of rounds, and each
-- round is shown to end; the scheduler's is run for any number of elections. The loop of ensurePartitions
-- runs for its three months.
--
-- Not modelled: the counters of internal/metrics and the set-up of tracing in
-- internal/telemetry/telemetry.go, which only call third-party code; NewPool and the scanning of
-- rows into structs; the HTTP server itself and the page /metrics; and the layout of the CLI's
-- reports. None of them writes to a table or a queue of jobs. The scheduler's Run takes the
-- answers of Campaign as a parameter, so no theorem on the tables rests on there being one leader
-- only.
pub mod Prelude
pub mod Job
pub mod World
pub mod Storage
pub mod Cli
pub mod Lifecycle
pub mod Queue
pub mod RateLimit
pub mod Worker
pub mod Scheduler
pub mod Leader
pub mod Sluice
pub mod Api
pub mod Tests

-- ===== src/Worker/Run.antt =====
-- internal/worker/worker.go, Run: the loop that fetches and processes jobs until the worker is told to
-- stop, with the goroutine that loads the tenants' weights again.
pub mod Ends
use jobit.Prelude.{ℕ, zero, suc, ◌*◌, String, Bool, true, false, Option, none, some, List, []}
use jobit.Job.{Job, Time, second}
use jobit.World.{World, Result, ok, err, panicked, out_of_fuel}
use jobit.Queue.{dequeue}
use jobit.Queue.Shuffle.{TenantWeight}
use jobit.Worker.{ExecError, process, load_tenants}

-- How far the loop has come: it has returned; it goes on; a panic has ended the process; or, which the
-- program has no name for, Dequeue's rounds did not suffice.
pub data Exit : Type 0 where
  returned going crashed unfinished : Exit

abbrev pub dequeue_timeout : ℕ
dequeue_timeout = 5 * second

-- What the rounds of a worker meet. In round `n`: `is_shutdown n` says that Shutdown has closed the
-- channel, `reloads n` that the goroutine loads the tenants, on its ticker or after Reload, since the
-- round before; `between n` is what the other processes do in that time; `draws n` are the numbers of
-- rand.Intn in Dequeue, by its poll; `token n` and `run_id n` are the `uuid.New()` of process, `backoff n`
-- its rand.Intn, `meanwhile n` and `ticks n` its time with the job. `is_done` says when the context is
-- done.
pub record Course : Type 0 where
  pub is_shutdown : ℕ → Bool
  pub is_done : Time → Bool
  pub reloads : ℕ → Bool
  pub between : ℕ → World → World
  pub draws : ℕ → ℕ → ℕ → ℕ → ℕ
  pub token : ℕ → ℕ
  pub run_id : ℕ → ℕ
  pub backoff : ℕ → ℕ → ℕ
  pub meanwhile : ℕ → ℕ → World → World
  pub ticks : ℕ → ℕ

abbrev pub reloaded : Bool → List TenantWeight → World → List TenantWeight × World
reloaded true tenants w = load_tenants tenants w
reloaded false tenants w = (tenants, w)

module _ (execute : Job → Option ExecError) (message : ExecError → String) (worker_id : ℕ)
    (c : Course) where
  unfoldable pub process_at : ℕ → ℕ → World → World
  process_at n job_id w =
      process execute message (c.backoff n) c.is_done (c.meanwhile n) (c.ticks n) worker_id
        (c.token n) (c.run_id n) job_id w

  -- After an error of Dequeue: `if ctx.Err() != nil { return }`, else the next round.
  abbrev pub stop_or_go : Bool → World → (World → Exit × World) → Exit × World
  stop_or_go true w rest = (returned, w)
  stop_or_go false w rest = rest w

  -- What a round makes of Dequeue's answer; `rest` are the rounds that follow it.
  abbrev pub after_dequeue : ℕ → Result (Option ℕ) × World → (World → Exit × World) → Exit × World
  after_dequeue n (ok none, w) rest = rest w
  after_dequeue n (ok (some job_id), w) rest = rest (process_at n job_id w)
  after_dequeue n (err panicked, w) rest = (crashed, w)
  after_dequeue n (err out_of_fuel, w) rest = (unfinished, w)
  after_dequeue n (err e, w) rest = stop_or_go (c.is_done w.clock) w rest

  -- `rounds` rounds from the n-th on.
  unfoldable pub run_rounds : ℕ → ℕ → List TenantWeight → World → Exit × World
  run_rounds zero n tenants w = (going, w)
  run_rounds (suc rounds) n tenants w = elim (c.is_shutdown n) [
    | true ↦ (returned, w)
    | false ↦ elim (c.is_done w.clock) [
      | true ↦ (returned, w)
      | false ↦
          let (ts, v) = reloaded (c.reloads n) tenants (c.between n w) in
          after_dequeue n (dequeue c.is_done (c.draws n) worker_id ts dequeue_timeout v)
            (run_rounds rounds (suc n) ts)
    ]
  ]

  -- A worker starts with no tenants.
  unfoldable pub run : ℕ → World → Exit × World
  run rounds w = let (ts, v) = load_tenants [] w in run_rounds rounds 0 ts v

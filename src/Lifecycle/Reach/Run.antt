-- ===== src/Lifecycle/Reach/Run.antt =====
-- internal/worker/worker.go, Run: all that a worker does in its life is operations on the table `jobs`.
use jobit.Prelude.{
  ℕ, zero, suc, ◌≡◌, refl, ◌∙◌, ap, String, Bool, true, false, Option, none, some, List, [], All,
}
use jobit.Job.{Job}
use jobit.World.{
  World, Tenant, Result, ok, err, panicked, out_of_fuel, not_found, duplicate, claim_conflict,
  fault, cancelled,
}
use jobit.Storage.Schedules.{get_tenants}
use jobit.Queue.{dequeue}
use jobit.Queue.Shuffle.{TenantWeight}
use jobit.Queue.Fair.{IsPositive}
use jobit.Queue.Ends.{dequeue-Ended}
use jobit.Lifecycle.Change.{exec-Leaves}
use jobit.Lifecycle.Reach.{Reach}
use jobit.Lifecycle.Reach.Worker.{process-Reach}
use jobit.Worker.{ExecError, held, load_tenants, load_tenants-IsPositive}
use jobit.Worker.Run.{
  Exit, returned, Course, dequeue_timeout, reloaded, process_at, stop_or_go, after_dequeue,
  run_rounds, run,
}
use jobit.Worker.Run.Ends.{AreFair, reloaded-IsPositive}

held-world : (ts : List TenantWeight) (p : Result (List Tenant) × World) → (held ts p).1 ≡ p.1
held-world ts (ok us, w) = refl
held-world ts (err e, w) = refl

load_tenants-Reach : (ts : List TenantWeight) (w : World) → Reach w (load_tenants ts w).1
unfolding load_tenants get_tenants
load_tenants-Reach ts w =
    Reach.idle (ap (λ v. v.db.jobs) (held-world ts (get_tenants w)) ∙ exec-Leaves _ (λ d. refl) w)

reloaded-Reach : (b : Bool) (ts : List TenantWeight) (w : World) → Reach w (reloaded b ts w).1
reloaded-Reach true ts w = load_tenants-Reach ts w
reloaded-Reach false ts w = Reach.idle refl

module _ (execute : Job → Option ExecError) (message : ExecError → String) (worker_id : ℕ)
    (c : Course) (others : (n : ℕ) (v : World) → Reach v (c.between n v))
    (meanwhile : (n k : ℕ) (v : World) → Reach v (c.meanwhile n k v)) where
  process_at-Reach :
      (n job_id : ℕ) (w : World) → Reach w (process_at execute message worker_id c n job_id w)
  unfolding process_at
  process_at-Reach n job_id w =
      process-Reach execute message (c.backoff n) c.is_done (c.meanwhile n) (c.ticks n)
        (meanwhile n) worker_id (c.token n) (c.run_id n) job_id w

  stop_or_go-Reach :
      (b : Bool) (w : World) (rest : World → Exit × World)
      → ((v : World) → Reach v (rest v).1)
      → Reach w (stop_or_go execute message worker_id c b w rest).1
  stop_or_go-Reach true w rest h = Reach.idle refl
  stop_or_go-Reach false w rest h = h w

  after-Reach :
      (n : ℕ) (p : Result (Option ℕ) × World) (rest : World → Exit × World)
      → ((v : World) → Reach v (rest v).1)
      → Reach p.1 (after_dequeue execute message worker_id c n p rest).1
  after-Reach n (ok none, w) rest h = h w
  after-Reach n (ok (some job_id), w) rest h =
      Reach.also (process_at-Reach n job_id w)
        (h (process_at execute message worker_id c n job_id w))
  after-Reach n (err panicked, w) rest h = Reach.idle refl
  after-Reach n (err out_of_fuel, w) rest h = Reach.idle refl
  after-Reach n (err not_found, w) rest h = stop_or_go-Reach (c.is_done w.clock) w rest h
  after-Reach n (err duplicate, w) rest h = stop_or_go-Reach (c.is_done w.clock) w rest h
  after-Reach n (err claim_conflict, w) rest h = stop_or_go-Reach (c.is_done w.clock) w rest h
  after-Reach n (err fault, w) rest h = stop_or_go-Reach (c.is_done w.clock) w rest h
  after-Reach n (err cancelled, w) rest h = stop_or_go-Reach (c.is_done w.clock) w rest h

  tested-Reach :
      (w : World) (is_shutdown is_done : Bool) (p : Exit × World)
      → Reach w p.1
      → Reach w
          (let q : Exit × World = elim is_shutdown [
            | true ↦ (returned, w)
            | false ↦ elim is_done [ true ↦ (returned, w) | false ↦ p ]
          ] in
            q).1
  tested-Reach w true d p h = Reach.idle refl
  tested-Reach w false true p h = Reach.idle refl
  tested-Reach w false false p h = h

  rounds-Reach :
      (rounds n : ℕ) (ts : List TenantWeight) (w : World)
      → AreFair c
      → All IsPositive ts
      → Reach w (run_rounds execute message worker_id c rounds n ts w).1
  unfolding run_rounds
  rounds-Reach zero n ts w fair a = Reach.idle refl
  rounds-Reach (suc rounds) n ts w fair a =
      let (us, v) = reloaded (c.reloads n) ts (c.between n w) in
      let positive = reloaded-IsPositive (c.reloads n) ts (c.between n w) a in
      let p = dequeue c.is_done (c.draws n) worker_id us dequeue_timeout v in
      let (usual, kept) =
        dequeue-Ended c.is_done (c.draws n) worker_id us (fair n) positive dequeue_timeout v in
      tested-Reach w (c.is_shutdown n) (c.is_done w.clock)
        (after_dequeue execute message worker_id c n p
          (run_rounds execute message worker_id c rounds (suc n) us))
        (Reach.also (others n w) (
          Reach.also (reloaded-Reach (c.reloads n) ts (c.between n w)) (
            Reach.also (Reach.idle (ap (λ d. d.jobs) kept)) (
              after-Reach n p (run_rounds execute message worker_id c rounds (suc n) us)
                (λ v'. rounds-Reach rounds (suc n) us v' fair positive)))))

  -- With legal draws, any number of rounds of the worker's loop acts on the table `jobs` as a sequence of
  -- allowed operations, whatever it fetches and however the servers answer, as long as what the other
  -- processes do between its calls does.
  pub run-Reach :
      (rounds : ℕ) (w : World) → AreFair c → Reach w (run execute message worker_id c rounds w).1
  unfolding run
  run-Reach rounds w fair =
      let (ts, v) = load_tenants [] w in
      Reach.also (load_tenants-Reach [] w)
        (rounds-Reach rounds 0 ts v fair (load_tenants-IsPositive [] w tt))

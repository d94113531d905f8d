-- ===== src/Worker/Run/Ends.antt =====
-- internal/worker/worker.go, Run: the loop never crashes, and returns when it is told to.
use jobit.Prelude.{
  ℕ, zero, suc, ◌≡◌, refl, String, Bool, true, false, Option, none, some, List, [], All, ◌||◌,
}
use jobit.Job.{Job}
use jobit.World.{
  World, Result, ok, err, panicked, out_of_fuel, not_found, duplicate, claim_conflict, fault,
  cancelled,
}
use jobit.Queue.{dequeue}
use jobit.Queue.Shuffle.{TenantWeight}
use jobit.Queue.Fair.{AreDraws, IsPositive}
use jobit.Queue.Ends.{IsUsual, dequeue-Ended}
use jobit.Worker.{ExecError, load_tenants, load_tenants-IsPositive}
use jobit.Worker.Run.{
  Exit, returned, going, Course, dequeue_timeout, reloaded, process_at, stop_or_go, after_dequeue,
  run_rounds, run,
}

-- rand.Intn keeps its contract in every round.
abbrev pub AreFair : Course → Type 0
AreFair c = (n k : ℕ) → AreDraws (c.draws n k)

-- Whether Shutdown was called by one of `rounds` rounds from the n-th on.
abbrev pub is_told : (ℕ → Bool) → ℕ → ℕ → Bool
is_told is_shutdown zero n = false
is_told is_shutdown (suc rounds) n = is_shutdown n || is_told is_shutdown rounds (suc n)

-- What rounds of the loop end in: they all took place and none found the channel closed; or the loop has
-- returned, as one of them found it closed or as the context is done.
pub data IsOrderly (c : Course) (rounds n : ℕ) (p : Exit × World) : Type 0 where
  goes_on : p.0 ≡ going → is_told c.is_shutdown rounds n ≡ false → IsOrderly c rounds n p
  was_told : p.0 ≡ returned → is_told c.is_shutdown rounds n ≡ true → IsOrderly c rounds n p
  is_over : p.0 ≡ returned → c.is_done p.1.clock ≡ true → IsOrderly c rounds n p

one_more :
    (c : Course) (rounds n : ℕ) (p : Exit × World)
    → c.is_shutdown n ≡ false
    → IsOrderly c rounds (suc n) p
    → IsOrderly c (suc rounds) n p
one_more c rounds n p e (IsOrderly.goes_on r h) = IsOrderly.goes_on r (rw (e, h) refl)
one_more c rounds n p e (IsOrderly.was_told r h) = IsOrderly.was_told r (rw (e, h) refl)
one_more c rounds n p e (IsOrderly.is_over r h) = IsOrderly.is_over r h

tested-IsOrderly :
    (c : Course) (rounds n : ℕ) (w : World) (is_shutdown is_done : Bool) (p : Exit × World)
    → c.is_shutdown n ≡ is_shutdown
    → c.is_done w.clock ≡ is_done
    → IsOrderly c rounds (suc n) p
    → IsOrderly c (suc rounds) n (elim is_shutdown [
      | true ↦ (returned, w)
      | false ↦ elim is_done [ true ↦ (returned, w) | false ↦ p ]
    ])
tested-IsOrderly c rounds n w true d p e f h = IsOrderly.was_told refl (rw e refl)
tested-IsOrderly c rounds n w false true p e f h = IsOrderly.is_over refl f
tested-IsOrderly c rounds n w false false p e f h = one_more c rounds n p e h

pub reloaded-IsPositive :
    (b : Bool) (ts : List TenantWeight) (w : World)
    → All IsPositive ts
    → All IsPositive (reloaded b ts w).0
reloaded-IsPositive true ts w a = load_tenants-IsPositive ts w a
reloaded-IsPositive false ts w a = a

module _ (execute : Job → Option ExecError) (message : ExecError → String) (worker_id : ℕ)
    (c : Course) where
  stop_or_go-IsOrderly :
      (rounds n : ℕ) (b : Bool) (w : World) (rest : World → Exit × World)
      → c.is_done w.clock ≡ b
      → ((v : World) → IsOrderly c rounds n (rest v))
      → IsOrderly c rounds n (stop_or_go execute message worker_id c b w rest)
  stop_or_go-IsOrderly rounds n true w rest e h = IsOrderly.is_over refl e
  stop_or_go-IsOrderly rounds n false w rest e h = h w

  after-IsOrderly :
      (rounds n k : ℕ) (p : Result (Option ℕ) × World) (rest : World → Exit × World)
      → IsUsual p.0
      → ((v : World) → IsOrderly c rounds n (rest v))
      → IsOrderly c rounds n (after_dequeue execute message worker_id c k p rest)
  after-IsOrderly rounds n k (ok none, w) rest u h = h w
  after-IsOrderly rounds n k (ok (some job_id), w) rest u h =
      h (process_at execute message worker_id c k job_id w)
  after-IsOrderly rounds n k (err panicked, w) rest u h = absurd (u.1 refl)
  after-IsOrderly rounds n k (err out_of_fuel, w) rest u h = absurd (u.0 refl)
  after-IsOrderly rounds n k (err not_found, w) rest u h =
      stop_or_go-IsOrderly rounds n (c.is_done w.clock) w rest refl h
  after-IsOrderly rounds n k (err duplicate, w) rest u h =
      stop_or_go-IsOrderly rounds n (c.is_done w.clock) w rest refl h
  after-IsOrderly rounds n k (err claim_conflict, w) rest u h =
      stop_or_go-IsOrderly rounds n (c.is_done w.clock) w rest refl h
  after-IsOrderly rounds n k (err fault, w) rest u h =
      stop_or_go-IsOrderly rounds n (c.is_done w.clock) w rest refl h
  after-IsOrderly rounds n k (err cancelled, w) rest u h =
      stop_or_go-IsOrderly rounds n (c.is_done w.clock) w rest refl h

  rounds-IsOrderly :
      (rounds n : ℕ) (ts : List TenantWeight) (w : World)
      → AreFair c
      → All IsPositive ts
      → IsOrderly c rounds n (run_rounds execute message worker_id c rounds n ts w)
  unfolding run_rounds
  rounds-IsOrderly zero n ts w fair a = IsOrderly.goes_on refl refl
  rounds-IsOrderly (suc rounds) n ts w fair a =
      let (us, v) = reloaded (c.reloads n) ts (c.between n w) in
      let positive = reloaded-IsPositive (c.reloads n) ts (c.between n w) a in
      tested-IsOrderly c rounds n w (c.is_shutdown n) (c.is_done w.clock)
        (after_dequeue execute message worker_id c n
          (dequeue c.is_done (c.draws n) worker_id us dequeue_timeout v)
          (run_rounds execute message worker_id c rounds (suc n) us))
        refl refl
        (after-IsOrderly rounds (suc n) n
          (dequeue c.is_done (c.draws n) worker_id us dequeue_timeout v)
          (run_rounds execute message worker_id c rounds (suc n) us)
          (dequeue-Ended c.is_done (c.draws n) worker_id us (fair n) positive dequeue_timeout v).0
          (λ v'. rounds-IsOrderly rounds (suc n) us v' fair positive))

  -- With legal draws, the worker's loop never crashes, whatever the servers answer, the jobs do and the
  -- tenants' weights are: it goes on for as long as no round finds the shutdown channel closed, and
  -- otherwise it has returned; it returns for no other reason than that and the end of the context.
  pub run-IsOrderly :
      (rounds : ℕ) (w : World)
      → AreFair c
      → IsOrderly c rounds 0 (run execute message worker_id c rounds w)
  unfolding run
  run-IsOrderly rounds w fair =
      let (ts, v) = load_tenants [] w in
      rounds-IsOrderly rounds 0 ts v fair (load_tenants-IsPositive [] w tt)

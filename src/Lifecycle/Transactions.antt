-- ===== src/Lifecycle/Transactions.antt =====
-- What each transaction does to the table `jobs`.
use jobit.Prelude.{
  ℕ, ◌≡◌, refl, inl, inr, String, Bool, Option, some, arith, ◌∙◌, ap, ◌&&◌, holds, ◌+◌,
}
use jobit.Job.{Job, state_eq, pending, Time}
use jobit.World.{World, later, Db, Result, err, fault, find}
use jobit.World.TableLaws.{guarded_update}
use jobit.World.TxRules.{Settled, transaction-Settled, transaction-Settled_at}
use jobit.Storage.Bodies
use jobit.Storage.Endings.{
  Claims, Declines, Fails, Discards, Requeues, claim_db, fail_db, try_claim_body-Ensures,
  fail_job_body-Ensures, requeue_body-Ensures, dead_letter_body-Ensures,
}
use jobit.Storage.Claims.{try_claim, fail_job, requeue_stale_job, move_to_dead_letter}
use jobit.Lifecycle.Moves.{failed_row, claim-RowStep, failed_row-RowStep, requeue-RowStep}
use jobit.Lifecycle.Change.{job_id_of, UniqueIds, Change, Changes}

-- The row that TryClaim has found is the only one that its UPDATE selects.
claim_db-Change :
    {New : Job → Type 0} (t : Time) (id worker token : ℕ) (deadline : Time) (run : ℕ) (d : Db)
    {d' : Db} {j : Job}
    → UniqueIds d.jobs
    → find (Bodies.is_claimable id) d.jobs ≡ some j
    → d' ≡ claim_db t id worker token deadline run d
    → Change New d.jobs d'.jobs
claim_db-Change t id worker token deadline run d {d'} {j} u found e =
    Change.updated (Bodies.is_claimable id) (Bodies.claim t worker token deadline)
      (λ x p. claim-RowStep x id t worker token deadline p)
      (ap (λ (e : Db). e.jobs) e
        ∙ guarded_update job_id_of id (λ x. state_eq x.state pending)
            (λ _ x. Bodies.claim t worker token deadline x) d.jobs {j = j} u found)

pub try_claim-Changes :
    {New : Job → Type 0} (id worker token : ℕ) (deadline : Time) (run : ℕ) (w : World)
    → UniqueIds w.db.jobs
    → Changes New (try_claim id worker token deadline run) w
unfolding try_claim
try_claim-Changes {New} id worker token deadline run w u = go (
    transaction-Settled_at (Claims t id worker token deadline run w.db)
      (Declines t id worker token deadline run w.db (later w.script))
      (Bodies.try_claim_body t id worker token deadline run) w
      (try_claim_body-Ensures t id worker token deadline run w.db (later w.script)))
  where
    t : Time
    t = w.clock

    go :
        {r : Result (Bool × ℕ)} {d : Db}
        → Settled
            (Claims t id worker token deadline run w.db)
            (Declines t id worker token deadline run w.db (later w.script))
            w.db
            r
            d
        → Change New w.db.jobs d.jobs
    go (inl (a, (_, e, (j, found)), _)) =
        claim_db-Change t id worker token deadline run w.db u found e
    go (inr (e, _)) = rw e (Change.same refl)

-- The row that FailJob has locked is the only one that its UPDATE selects.
fail_db-Change :
    {New : Job → Type 0} (t : Time) (id run token : ℕ) (message : String)
    (next_run_at : Option Time) (d : Db) {d' : Db} (j : Job)
    → UniqueIds d.jobs
    → find (Bodies.holds_claim id token) d.jobs ≡ some j
    → d' ≡ fail_db t id run token message next_run_at j d
    → Change New d.jobs d'.jobs
fail_db-Change t id run token message next_run_at d j u found e =
    Change.updated (Bodies.holds_claim id token) (failed_row message next_run_at)
      (λ x p. failed_row-RowStep x id token message next_run_at p)
      (ap (λ (e : Db). e.jobs) e
        ∙ guarded_update job_id_of id
            (λ x. holds token x.claim_token && Bodies.is_in_flight x.state)
            (λ i x.
              let n = i.attempt + 1 in
              Bodies.record_failure (Bodies.failed_state n i.max_retries) n message
                (Bodies.failed_run_at n i.max_retries next_run_at) x)
            d.jobs {j = j} u found)

pub fail_job-Changes :
    {New : Job → Type 0} (id run token : ℕ) (message : String) (next_run_at : Option Time)
    (w : World)
    → UniqueIds w.db.jobs
    → Changes New (fail_job id run token message next_run_at) w
unfolding fail_job
fail_job-Changes {New} id run token message next_run_at w u = go (
    transaction-Settled (Fails t id run token message next_run_at w.db)
      (Discards t id run token message next_run_at w.db)
      (Bodies.fail_job_body t id run token message next_run_at) w
      (fail_job_body-Ensures t id run token message next_run_at w.db))
  where
    t : Time
    t = w.clock

    go :
        {r : Result (Unit {0})} {d : Db}
        → Settled
            (Fails t id run token message next_run_at w.db)
            (Discards t id run token message next_run_at w.db)
            w.db
            r
            d
        → Change New w.db.jobs d.jobs
    go (inl (_, (j, found, e), _)) =
        fail_db-Change t id run token message next_run_at w.db j u found e
    go (inr (e, _)) = rw e (Change.same refl)

pub requeue_stale_job-Changes :
    {New : Job → Type 0} (id : ℕ) (w : World) → Changes New (requeue_stale_job id) w
unfolding requeue_stale_job
requeue_stale_job-Changes {New} id w = go (
    transaction-Settled (Requeues t id w.db) (λ r. r ≡ err fault) (Bodies.requeue_body t id) w
      (requeue_body-Ensures t id w.db))
  where
    t : Time
    t = w.clock

    go :
        {r : Result Bool} {d : Db}
        → Settled (Requeues t id w.db) (λ r. r ≡ err fault) w.db r d
        → Change New w.db.jobs d.jobs
    go (inl (_, (_, e), _)) =
        Change.updated (Bodies.is_stale_row t id) Bodies.requeue (λ x p. requeue-RowStep x t id p)
          (ap (λ (e : Db). e.jobs) e)
    go (inr (e, _)) = rw e (Change.same refl)

insert_dead_letter-jobs :
    (t : Time) (id : ℕ) (d : Db) → (Bodies.insert_dead_letter t id d).jobs ≡ d.jobs
unfolding Bodies.insert_dead_letter
insert_dead_letter-jobs t id d = ground arith

pub move_to_dead_letter-Changes :
    {New : Job → Type 0} (id : ℕ) (w : World) → Changes New (move_to_dead_letter id) w
unfolding move_to_dead_letter
move_to_dead_letter-Changes {New} id w = go (
    transaction-Settled (λ _ d. d ≡ Bodies.insert_dead_letter t id w.db) (λ r. r ≡ err fault)
      (Bodies.dead_letter_body t id) w (dead_letter_body-Ensures t id w.db))
  where
    t : Time
    t = w.clock

    go :
        {r : Result (Unit {0})} {d : Db}
        → Settled (λ _ d. d ≡ Bodies.insert_dead_letter t id w.db) (λ r. r ≡ err fault) w.db r d
        → Change New w.db.jobs d.jobs
    go (inl (_, e, _)) = Change.same (ap (λ (e : Db). e.jobs) e ∙ insert_dead_letter-jobs t id w.db)
    go (inr (e, _)) = rw e (Change.same refl)

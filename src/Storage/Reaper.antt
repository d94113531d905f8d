-- ===== src/Storage/Reaper.antt =====
-- internal/storage/storage.go, RequeueStaleJob: what the reaper does to a job, stale or not.
use jobit.Prelude.{
  ◌+◌, List, [], ◌∷◌, ◌==◌, if◌then◌else◌, ℕ, ◌≡◌, ◌≢◌, refl, ◌∙◌, Bool, true, false, Option, none,
  some, arith, ◌⊎◌, inl, inr, Bool-cases,
}
use jobit.Prelude.Int.{pos, ◌≤ℤ◌, leb_ℤ}
use jobit.Job.{Job, Time, pending, failed, dead}
use jobit.World.{World, JobRun, ok, healthy, transaction, find, update_where}
use jobit.World.TableLaws.{
  UniqueKeys, by_key, by_key-update, find-by_key, find-holds, update_where-none,
}
use jobit.World.Tx.{tx_exec}
use jobit.Storage.Bodies.{
  is_open_run, finish_run, expired_message, is_stale, is_stale_row, requeue, requeue_body,
  returned_dead,
}
use jobit.Storage.Claims.{requeue_stale_job}
use jobit.Storage.Fencing.{id_of}

-- A run before and after: an open run of the job is closed as failed, with the message of an expired
-- heartbeat; every other run is as it was.
pub record IsClosed (now : Time) (id : ℕ) (r r' : JobRun) : Type 0 where
  pub same_run : (r'.run_id ≡ r.run_id) × (r'.job_id ≡ r.job_id) × (r'.attempt ≡ r.attempt)
  pub closed :
      r.job_id ≡ id
      → r.finished_at ≡ none
      → (r'.state ≡ failed)
        × (r'.finished_at ≡ some now)
        × (r'.error ≡ some "worker heartbeat expired")
  pub of_others : r.job_id ≢ id → r' ≡ r
  pub over : (t : Time) → r.finished_at ≡ some t → r' ≡ r

-- Row by row.
abbrev pub Rowwise : {A : Type 0} → (A → A → Type 0) → List A → List A → Type 0
Rowwise P [] [] = Unit
Rowwise P [] (y ∷ ys) = ⊥
Rowwise P (x ∷ xs) [] = ⊥
Rowwise P (x ∷ xs) (y ∷ ys) = P x y × Rowwise P xs ys

finish-IsClosed :
    (now : Time) (id : ℕ) (r : JobRun)
    → (is_open_run id r ≡ true) ⊎ (is_open_run id r ≡ false)
    → IsClosed now id r (if is_open_run id r then finish_run failed now expired_message r else r)
finish-IsClosed now id r (inl e) = rw e (record {
  same_run = (refl, refl, refl);
  closed = λ same open_run. (refl, refl, refl);
  of_others = λ other. absurd (ground (arith, e, other));
  over = λ t h. absurd (ground (arith, e, h));
})
finish-IsClosed now id r (inr e) = rw e (record {
  same_run = (refl, refl, refl);
  closed = λ same open_run. absurd (ground (arith, e, same, open_run));
  of_others = λ other. refl;
  over = λ t h. refl;
})

runs-IsClosed :
    (now : Time) (id : ℕ) (rs : List JobRun)
    → Rowwise
        (IsClosed now id)
        rs
        (update_where (is_open_run id) (finish_run failed now expired_message) rs)
runs-IsClosed now id [] = tt
runs-IsClosed now id (r ∷ rs) =
    (finish-IsClosed now id r (Bool-cases (is_open_run id r)), runs-IsClosed now id rs)

-- The effect of RequeueStaleJob on a job that is not stale.
pub record IsSpared (id : ℕ) (w w' : World) : Type 0 where
  pub jobs : w'.db.jobs ≡ w.db.jobs
  pub runs : Rowwise (IsClosed w.clock id) w.db.runs w'.db.runs
  pub dead_letter : w'.db.dead_letter ≡ w.db.dead_letter
  pub redis : w'.redis ≡ w.redis

-- Where job ids are unique and Postgres answers, RequeueStaleJob on a job that is not stale, one that a
-- healthy worker runs included, leaves the table `jobs` and Redis alone and says that the job is not
-- dead, but it closes every open run of the job: each is then failed, finished at the time of the
-- call, with the message of an expired heartbeat. Runs that are finished or of other jobs stay as
-- they were.
pub requeue_stale_job-fresh :
    (id : ℕ) (w : World) (j : Job)
    → UniqueKeys id_of w.db.jobs
    → by_key id_of id w.db.jobs ≡ some j
    → is_stale w.clock j ≡ false
    → ((requeue_stale_job id (healthy w)).0 ≡ ok false)
      × IsSpared id w (requeue_stale_job id (healthy w)).1
unfolding requeue_stale_job transaction requeue_body tx_exec
requeue_stale_job-fresh id w j u found fresh =
    let unselected : find (is_stale_row w.clock id) w.db.jobs ≡ none =
      find-by_key id_of id (is_stale w.clock) w.db.jobs u ∙ rw (found, fresh) refl in
    (
      rw unselected refl,
      record {
        jobs = update_where-none (is_stale_row w.clock id) requeue w.db.jobs unselected;
        runs = runs-IsClosed w.clock id w.db.runs;
        dead_letter = refl;
        redis = refl;
      },
    )

-- The row of a stale job afterwards: dead when its tries are used up, else pending, and fenced off
-- from the worker that held it.
pub record IsReaped (j : Job) (dead_now : Bool) (o : Option Job) : Type 0 where
  pub row : o ≡ some (requeue j)
  pub counted : (requeue j).attempt ≡ j.attempt + 1
  pub fenced : (requeue j).claim_token ≡ none
  pub decided :
      ((dead_now ≡ true) × ((requeue j).state ≡ dead) × (j.max_retries ≤ℤ pos (j.attempt + 1)))
      ⊎ ((dead_now ≡ false)
          × ((requeue j).state ≡ pending)
          × (¬ (j.max_retries ≤ℤ pos (j.attempt + 1))))

decide_reaped :
    (j : Job)
    → ((returned_dead (some j) ≡ true)
        × ((requeue j).state ≡ dead)
        × (j.max_retries ≤ℤ pos (j.attempt + 1)))
      ⊎ ((returned_dead (some j) ≡ false)
          × ((requeue j).state ≡ pending)
          × (¬ (j.max_retries ≤ℤ pos (j.attempt + 1))))
decide_reaped j = elim (Bool-cases (leb_ℤ j.max_retries (pos (j.attempt + 1)))) [
  | inl e ↦ inl (ground (arith, e), ground (arith, e), ground (arith, e))
  | inr e ↦ inr (ground (arith, e), ground (arith, e), ground (arith, e))
]

-- Where job ids are unique and Postgres answers, RequeueStaleJob on a stale job counts the try,
-- takes the claim away, and makes the job dead exactly when its tries are used up, which is what it
-- answers; else it is pending.
pub requeue_stale_job-stale :
    (id : ℕ) (w : World) (j : Job)
    → UniqueKeys id_of w.db.jobs
    → by_key id_of id w.db.jobs ≡ some j
    → is_stale w.clock j ≡ true
    → (dead_now : Bool) × ((requeue_stale_job id (healthy w)).0 ≡ ok dead_now)
      × IsReaped j dead_now (by_key id_of id (requeue_stale_job id (healthy w)).1.db.jobs)
unfolding requeue_stale_job transaction requeue_body tx_exec
requeue_stale_job-stale id w j u found stale =
    let selected : find (is_stale_row w.clock id) w.db.jobs ≡ some j =
      find-by_key id_of id (is_stale w.clock) w.db.jobs u ∙ rw (found, stale) refl in
    let same_id = find-holds (λ x. x.id == id) w.db.jobs found in
    (
      returned_dead (some j),
      rw selected refl,
      record {
        row =
            by_key-update id_of (is_stale_row w.clock id) requeue (λ x e. refl) id w.db.jobs
            ∙ rw (found, same_id, stale) refl;
        counted = refl;
        fenced = refl;
        decided = decide_reaped j;
      },
    )

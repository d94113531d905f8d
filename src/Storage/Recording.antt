-- ===== src/Storage/Recording.antt =====
-- internal/storage/storage.go, CompleteJob and FailJob: what the worker that holds the claim records.
use jobit.Prelude.{
  ℕ, ◌+◌, ◌≡◌, refl, ◌∙◌, ap, String, true, holds, Option, none, some, [], get_or, arith, ◌⊎◌, inl,
  inr, ◌==◌, Bool-cases,
}
use jobit.Prelude.Int.{pos, ◌≤ℤ◌, leb_ℤ}
use jobit.Job.{Job, Time, failed, dead}
use jobit.World.{World, ok, healthy, transaction, find}
use jobit.World.TableLaws.{UniqueKeys, by_key, by_key-update, find-holds}
use jobit.World.Tx.{tx_exec}
use jobit.Storage.Bodies.{
  holds_claim, has_id, is_in_flight, failed_state, failed_run_at, record_failure, fail_job_body,
}
use jobit.Storage.Endings.{fail_db}
use jobit.Storage.Claims.{fail_job}
use jobit.Storage.Completion.{held_row}
use jobit.Storage.Fencing.{id_of}

-- The row of a job whose run has failed: dead when its tries are used up, else failed and due again at
-- the time that the worker asks for.
pub record IsFailed (j : Job) (next_run_at : Option Time) (k : Job) : Type 0 where
  pub counted : k.attempt ≡ j.attempt + 1
  pub fenced : k.claim_token ≡ none
  pub decided :
      ((k.state ≡ dead) × (k.run_at ≡ j.run_at) × (j.max_retries ≤ℤ pos (j.attempt + 1)))
      ⊎ ((k.state ≡ failed)
          × (k.run_at ≡ get_or next_run_at j.run_at)
          × (¬ (j.max_retries ≤ℤ pos (j.attempt + 1))))

abbrev recorded : String → Option Time → Job → Job
recorded message next_run_at j =
    let n = j.attempt + 1 in
    record_failure (failed_state n j.max_retries) n message
      (failed_run_at n j.max_retries next_run_at) j

recorded-IsFailed :
    (message : String) (next_run_at : Option Time) (j : Job)
    → IsFailed j next_run_at (recorded message next_run_at j)
recorded-IsFailed message next_run_at j = record {
  counted = refl;
  fenced = refl;
  decided = elim (Bool-cases (leb_ℤ j.max_retries (pos (j.attempt + 1)))) [
    | inl e ↦ inl (ground (arith, e), ground (arith, e), ground (arith, e))
    | inr e ↦ inr (ground (arith, e), ground (arith, e), ground (arith, e))
  ];
}

pub fail_job-held :
    (id token run : ℕ) (message : String) (next_run_at : Option Time) (w : World) (j : Job)
    → find (holds_claim id token) w.db.jobs ≡ some j
    → fail_job id run token message next_run_at (healthy w) ≡ (
      ok tt,
      record w { db = fail_db w.clock id run token message next_run_at j w.db; script = [] },
    )
unfolding fail_job transaction fail_job_body tx_exec
fail_job-held id token run message next_run_at w j h = ground arith

module _ (id token run : ℕ) (w : World) (j : Job) (u : UniqueKeys id_of w.db.jobs)
    (found : by_key id_of id w.db.jobs ≡ some j) (held : holds token j.claim_token ≡ true)
    (in_flight : is_in_flight j.state ≡ true) where
  -- Where job ids are unique and Postgres answers, FailJob by the worker that holds the claim counts
  -- the try, takes the claim away, and makes the job dead exactly when its tries are used up; else the
  -- job is failed and due at the time given.
  pub fail_job-IsFailed :
      (message : String) (next_run_at : Option Time)
      → (k : Job) × ((fail_job id run token message next_run_at (healthy w)).0 ≡ ok tt)
        × (by_key id_of id (fail_job id run token message next_run_at (healthy w)).1.db.jobs
            ≡ some k)
        × IsFailed j next_run_at k
  fail_job-IsFailed message next_run_at =
      let same_id = find-holds (λ x. x.id == id) w.db.jobs found in
      let done_so =
        fail_job-held id token run message next_run_at w j
          (held_row id token run w j u found held in_flight) in
      (
        recorded message next_run_at j,
        ap (λ p. p.0) done_so,
        ap (λ p. by_key id_of id p.1.db.jobs) done_so
            ∙ by_key-update id_of (has_id id)
                (record_failure (failed_state (j.attempt + 1) j.max_retries) (j.attempt + 1) message
                  (failed_run_at (j.attempt + 1) j.max_retries next_run_at))
                (λ x e. refl) id w.db.jobs
            ∙ rw (found, same_id) refl,
        recorded-IsFailed message next_run_at j,
      )

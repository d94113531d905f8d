-- ===== src/Storage/Endings.antt =====
-- internal/storage/storage.go: what the bodies of TryClaim, FailJob, RequeueStaleJob and
-- MoveToDeadLetter do to the tables before they commit, and when they leave.
use jobit.Prelude.{
  ℕ, ◌+◌, ◌≡◌, refl, ◌⊎◌, inl, inr, String, Bool, true, false, Option, none, some, List,
  Option-cases,
}
use jobit.Job.{Job, Time}
use jobit.World.{Db, Outcome, skipped, next_outcome, fault, Result, ok, err, find}
use jobit.World.TxRules.{Ensures, tx_exec-Ensures, bind-Ensures, skip_locked-Ensures}
use jobit.Storage.Bodies.{
  holds_claim, has_id, is_claimable, claim, update_jobs, update_runs, insert_run, failed_state,
  failed_run_at, record_failure, finish_run, is_run, close_runs, is_stale_row, requeue,
  returned_dead, insert_dead_letter, try_claim_body, fail_job_body, requeue_body, dead_letter_body,
}

-- The tables after a claim.
abbrev pub claim_db : Time → ℕ → ℕ → ℕ → Time → ℕ → Db → Db
claim_db now job_id worker_id token deadline run_id d =
    insert_run now run_id job_id
      (update_jobs (has_id job_id) (claim now worker_id token deadline) d)

module _ (t : Time) (job_id worker_id token : ℕ) (deadline : Time) (run_id : ℕ) where
  abbrev pub Claims : Db → Bool × ℕ → Db → Type 0
  Claims d a d' =
      (a ≡ (true, run_id))
      × (d' ≡ claim_db t job_id worker_id token deadline run_id d)
      × ((j : Job) × (find (is_claimable job_id) d.jobs ≡ some j))

  -- The answer no: there is no such row, or another transaction holds it.
  abbrev pub Declines : Db → List Outcome → Result (Bool × ℕ) → Type 0
  Declines d s r =
      (r ≡ err fault)
      ⊎ ((r ≡ ok (false, 0))
          × ((find (is_claimable job_id) d.jobs ≡ none) ⊎ (next_outcome s ≡ skipped)))

  pub try_claim_body-Ensures :
      (d : Db) (s : List Outcome)
      → Ensures
          (Claims d)
          (Declines d s)
          (try_claim_body t job_id worker_id token deadline run_id d s)
  unfolding try_claim_body
  try_claim_body-Ensures d s =
      skip_locked-Ensures (Claims d) (Declines d s) _ _ d s
        (λ s'. elim (Option-cases (find (is_claimable job_id) d.jobs)) [
          | inl absent ↦ rw absent (inr (refl, inl absent))
          | inr (j, found) ↦ rw found (
              bind-Ensures (Claims d) (Declines d s) _ _ d s'
                (λ s''.
                  bind-Ensures (Claims d) (Declines d s) _ _ _ s'' (λ _. (refl, refl, (j, found)))
                    (inl refl))
                (inl refl))
        ])
        (λ locked s'. inr (refl, inr locked)) (inl refl)

module _ (t : Time) (job_id run_id token : ℕ) (message : String) (next_run_at : Option Time) where
  -- The tables after a failure of the job `j` is recorded.
  abbrev pub fail_db : Job → Db → Db
  fail_db j d =
      let new_attempt = j.attempt + 1 in
      let new_state = failed_state new_attempt j.max_retries in
      update_runs (is_run run_id) (finish_run new_state t message) (
        update_jobs (has_id job_id)
          (record_failure new_state new_attempt message
            (failed_run_at new_attempt j.max_retries next_run_at))
          d)

  abbrev pub Fails : Db → Unit {0} → Db → Type 0
  Fails d _ d' = (j : Job) × (find (holds_claim job_id token) d.jobs ≡ some j) × (d' ≡ fail_db j d)

  abbrev pub Discards : Db → Result (Unit {0}) → Type 0
  Discards d r = (r ≡ err fault) ⊎ ((r ≡ ok tt) × (find (holds_claim job_id token) d.jobs ≡ none))

  pub fail_job_body-Ensures :
      (d : Db) (s : List Outcome)
      → Ensures (Fails d) (Discards d) (fail_job_body t job_id run_id token message next_run_at d s)
  unfolding fail_job_body
  fail_job_body-Ensures d s =
      bind-Ensures (Fails d) (Discards d) _ _ d s
        (λ s'. elim (Option-cases (find (holds_claim job_id token) d.jobs)) [
          | inl absent ↦ rw absent (inr (refl, absent))
          | inr (j, found) ↦ rw found (
              bind-Ensures (Fails d) (Discards d) _ _ d s'
                (λ s''. tx_exec-Ensures (Fails d) (Discards d) _ _ s'' (j, found, refl) (inl refl))
                (inl refl))
        ])
        (inl refl)

module _ (t : Time) (job_id : ℕ) where
  -- The tables after RequeueStaleJob, whether it found a stale row or not.
  abbrev pub requeue_db : Db → Db
  requeue_db d = update_jobs (is_stale_row t job_id) requeue (close_runs t job_id d)

  abbrev pub Requeues : Db → Bool → Db → Type 0
  Requeues d dead d' =
      (dead ≡ returned_dead (find (is_stale_row t job_id) d.jobs)) × (d' ≡ requeue_db d)

  pub requeue_body-Ensures :
      (d : Db) (s : List Outcome)
      → Ensures (Requeues d) (λ r. r ≡ err fault) (requeue_body t job_id d s)
  unfolding requeue_body
  requeue_body-Ensures d s =
      bind-Ensures (Requeues d) _ _ _ d s
        (λ s'. bind-Ensures (Requeues d) _ _ _ _ s' (λ _. (refl, refl)) refl) refl

  pub dead_letter_body-Ensures :
      (d : Db) (s : List Outcome)
      → Ensures
          (λ _ d'. d' ≡ insert_dead_letter t job_id d)
          (λ r. r ≡ err fault)
          (dead_letter_body t job_id d s)
  unfolding dead_letter_body
  dead_letter_body-Ensures d s = tx_exec-Ensures _ _ _ d s refl refl

-- ===== src/Storage/Claiming.antt =====
-- internal/storage/storage.go, TryClaim: who gets a job.
use jobit.Prelude.{
  ℕ, ◌≡◌, ◌≢◌, refl, ◌∙◌, ap, sym, ◌⊎◌, inl, inr, Bool, true, false, Option, none, some, List, [],
  ◌∷◌, ◌++◌, arith, map, ◌==◌, if◌then◌else◌,
}
use jobit.Job.{Job, state_eq, pending, claimed, Time}
use jobit.World.{
  healthy, transaction, World, Db, JobRun, Result, ok, err, fault, skipped, next_outcome, later,
  find, update_where,
}
use jobit.World.TableLaws.{
  UniqueKeys, by_key, by_key-update, by_key-update_other, find-by_key, find-holds, filter-by_key,
  guarded_update, UniqueKeys-update,
}
use jobit.World.TxRules.{Settled, transaction-Settled_at}
use jobit.World.Tx.{tx_exec, tx_skip_locked}
use jobit.Storage.Bodies.{has_id, is_claimable, claim, claimed_run, try_claim_body}
use jobit.Storage.Endings.{Claims, Declines, claim_db, try_claim_body-Ensures}
use jobit.Storage.Claims.{try_claim}
use jobit.Storage.Fencing.{id_of}

abbrev pub IsPending : Option Job → Type 0
IsPending none = ⊥
IsPending (some j) = state_eq j.state pending ≡ true

pub selected_row :
    (c : Job → Bool) (o : Option Job) {j : Job}
    → (elim o [ none ↦ none | some x ↦ if c x then some x else none ]) ≡ some j
    → (o ≡ some j) × (c j ≡ true)
selected_row c none h = cc
selected_row c (some x) h = ground arith

unselected_row :
    (o : Option Job)
    → (elim o [ none ↦ none | some x ↦ if state_eq x.state pending then some x else none ]) ≡ none
    → ¬ IsPending o
unselected_row none h k = k
unselected_row (some x) h k = ground arith

module _ (id worker token : ℕ) (deadline : Time) (run : ℕ) where
  -- What a claim that takes effect leaves: the row of a pending job claimed for the worker, every
  -- other row as it was, and one more run, open and claimed.
  pub record IsClaimed (t : Time) (d d' : Db) : Type 0 where
    pub job : Job
    pub found : by_key id_of id d.jobs ≡ some job
    pub was_pending : state_eq job.state pending ≡ true
    pub row : by_key id_of id d'.jobs ≡ some (claim t worker token deadline job)
    pub held : (claim t worker token deadline job).state ≡ claimed
    pub holder : (claim t worker token deadline job).claimed_by ≡ some worker
    pub token_set : (claim t worker token deadline job).claim_token ≡ some token
    pub deadline_set : (claim t worker token deadline job).deadline ≡ some deadline
    pub claimed_now : (claim t worker token deadline job).claimed_at ≡ some t
    pub same_tries : (claim t worker token deadline job).attempt ≡ job.attempt
    pub others : (k : ℕ) → k ≢ id → by_key id_of k d'.jobs ≡ by_key id_of k d.jobs
    pub rows : d'.jobs ≡ update_where (is_claimable id) (claim t worker token deadline) d.jobs
    pub new_run : JobRun
    pub opened : d'.runs ≡ d.runs ++ new_run ∷ []
    pub named : new_run.run_id ≡ run
    pub of_job : new_run.job_id ≡ id
    pub of_tenant : new_run.tenant_id ≡ job.tenant_id
    pub of_try : new_run.attempt ≡ job.attempt
    pub started : new_run.started_at ≡ t
    pub unfinished : new_run.finished_at ≡ none
    pub claimed_state : new_run.state ≡ claimed

  pub claimed_row :
      (t : Time) (d : Db) (j : Job)
      → by_key id_of id d.jobs ≡ some j
      → by_key id_of id (claim_db t id worker token deadline run d).jobs
        ≡ some (claim t worker token deadline j)
  claimed_row t d j found =
      let same_id = find-holds (λ x. x.id == id) d.jobs found in
      by_key-update id_of (has_id id) (claim t worker token deadline) (λ x e. refl) id d.jobs
      ∙ rw (found, same_id) refl

  pub claim_db_unique :
      (t : Time) (d : Db)
      → UniqueKeys id_of d.jobs
      → UniqueKeys id_of (claim_db t id worker token deadline run d).jobs
  claim_db_unique t d u =
      UniqueKeys-update id_of (has_id id) (claim t worker token deadline) (λ x e. refl) d.jobs u

  pub claim_db-IsClaimed :
      (t : Time) (d : Db) (j : Job)
      → UniqueKeys id_of d.jobs
      → find (is_claimable id) d.jobs ≡ some j
      → IsClaimed t d (claim_db t id worker token deadline run d)
  claim_db-IsClaimed t d j u h =
      let (found, was_pending) =
        selected_row (λ x. state_eq x.state pending) (by_key id_of id d.jobs)
          (sym (find-by_key id_of id (λ x. state_eq x.state pending) d.jobs u) ∙ h) in
      record {
        job = j;
        found = found;
        was_pending = was_pending;
        row = claimed_row t d j found;
        held = refl;
        holder = refl;
        token_set = refl;
        deadline_set = refl;
        claimed_now = refl;
        same_tries = refl;
        others = λ k other.
            by_key-update_other id_of id k (claim t worker token deadline) (λ x. refl) other d.jobs;
        rows =
            guarded_update id_of id (λ x. state_eq x.state pending)
              (λ _ x. claim t worker token deadline x) d.jobs {j = j} u h;
        new_run = claimed_run t run (claim t worker token deadline j);
        opened =
            ap (λ (xs : List Job). d.runs ++ map (claimed_run t run) xs)
              (filter-by_key id_of id (claim_db t id worker token deadline run d).jobs
                (claim_db_unique t d u) (claimed_row t d j found));
        named = refl;
        of_job = ground (arith, find-holds (λ x. x.id == id) d.jobs found);
        of_tenant = refl;
        of_try = refl;
        started = refl;
        unfinished = refl;
        claimed_state = refl;
      }

  -- The outcome of a claim: the row and the run are written, and the answer is yes or is lost; or the
  -- tables are as they were, and the answer is no, and the job was not pending, or another open
  -- transaction holds its row, which SKIP LOCKED passes over; or it is an error.
  abbrev pub IsOutcome : World → Result (Bool × ℕ) → Db → Type 0
  IsOutcome w r d =
      (IsClaimed w.clock w.db d × ((r ≡ ok (true, run)) ⊎ (r ≡ err fault)))
      ⊎ ((d ≡ w.db)
          × (((r ≡ ok (false, 0))
                × ((¬ IsPending (by_key id_of id w.db.jobs))
                    ⊎ (next_outcome (later w.script) ≡ skipped)))
              ⊎ (r ≡ err fault)))

  -- Where job ids are unique, and however the servers answer, TryClaim makes the row of a pending job
  -- claimed, by the worker, with its token and deadline, leaves the other rows and opens one
  -- unfinished run of the job's current try, or changes no table at all. It says yes only after a
  -- claim, and no only of a job that is not pending or whose row another open transaction holds;
  -- else it reports a server's fault.
  pub try_claim-IsOutcome :
      (w : World)
      → UniqueKeys id_of w.db.jobs
      → let (r, w') = try_claim id worker token deadline run w in IsOutcome w r w'.db
  unfolding try_claim
  try_claim-IsOutcome w u = go (
      transaction-Settled_at (Claims w.clock id worker token deadline run w.db)
        (Declines w.clock id worker token deadline run w.db (later w.script))
        (try_claim_body w.clock id worker token deadline run) w
        (try_claim_body-Ensures w.clock id worker token deadline run w.db (later w.script)))
    where
      declined : find (is_claimable id) w.db.jobs ≡ none → ¬ IsPending (by_key id_of id w.db.jobs)
      declined h =
          unselected_row (by_key id_of id w.db.jobs)
            (sym (find-by_key id_of id (λ x. state_eq x.state pending) w.db.jobs u) ∙ h)

      go :
          {r : Result (Bool × ℕ)} {d : Db}
          → Settled
              (Claims w.clock id worker token deadline run w.db)
              (Declines w.clock id worker token deadline run w.db (later w.script))
              w.db
              r
              d
          → IsOutcome w r d
      go (inl (a, (yes_run, e, (j, found)), inl h)) =
          inl (rw e (claim_db-IsClaimed w.clock w.db j u found), inl (h ∙ ap ok yes_run))
      go (inl (a, (_, e, (j, found)), inr h)) =
          inl (rw e (claim_db-IsClaimed w.clock w.db j u found), inr h)
      go (inr (e, inl (inl h))) = inr (e, inr h)
      go (inr (e, inl (inr (h, inl absent)))) = inr (e, inl (h, inl (declined absent)))
      go (inr (e, inl (inr (h, inr locked)))) = inr (e, inl (h, inr locked))
      go (inr (e, inr h)) = inr (e, inr h)

pub try_claim-some :
    (id worker token : ℕ) (deadline : Time) (run : ℕ) (w : World) (j : Job)
    → find (is_claimable id) w.db.jobs ≡ some j
    → try_claim id worker token deadline run (healthy w) ≡ (
      ok (true, run),
      record w { db = claim_db w.clock id worker token deadline run w.db; script = [] },
    )
unfolding try_claim transaction try_claim_body tx_exec tx_skip_locked
try_claim-some id worker token deadline run w j h = ground arith

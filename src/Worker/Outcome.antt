-- ===== src/Worker/Outcome.antt =====
-- internal/worker/worker.go, process: while the servers answer and nobody takes the claim away, a
-- pending job comes to its end.
use jobit.Prelude.{
  ℕ, ◌+◌, ◌≡◌, refl, sym, ◌∙◌, ap, String, Bool, true, false, Option, none, some, List, [], ◌∷◌,
  filter, not, arith, ◌⊎◌, ==_refl, inl, inr,
}
use mathlib.Core.Path.{subst}
use jobit.Prelude.Int.{ℤ, pos, ◌+ℤ◌, ◌≤ℤ◌}
use jobit.Job.{Job, Time, state_eq, pending, succeeded, failed, dead}
use jobit.World.{World, Element, healthy, exec, redis_exec, find, is_uuid}
use jobit.World.TableLaws.{UniqueKeys, by_key, find-by_key}
use jobit.Storage.Jobs.{get_job, or_not_found}
use jobit.Storage.Bodies.{is_claimable, claim}
use jobit.Storage.Endings.{claim_db}
use jobit.Storage.Claims.{try_claim, mark_running, complete_job, fail_job, succeed}
use jobit.Storage.Claiming.{try_claim-some, claimed_row, claim_db_unique}
use jobit.Storage.Completion.{held_row, complete_job-held, complete_db_row}
use jobit.Storage.Recording.{IsFailed, fail_job-held, fail_job-IsFailed}
use jobit.Storage.Fencing.{id_of}
use jobit.Queue.{remove_from_processing}
use jobit.Worker.{
  ExecError, attempt, attempt_going, under, under_going, retry_time, beats, finish, work, fetched,
  claimed_or_not, process, claim_window,
}
use jobit.Worker.Holding.{IsHolding, healthy_id, mark_running-IsHolding, beats-IsHolding}

-- The row of a job whose run has ended: succeeded where there was no error; else failed, or dead when
-- the tries are used up.
abbrev pub IsRecorded : Job → Option ExecError → Job → Type 0
IsRecorded j none k = (k.state ≡ succeeded) × (k.claim_token ≡ none) × (k.attempt ≡ j.attempt)
IsRecorded j (some e) k =
    (k.claim_token ≡ none)
    × (k.attempt ≡ j.attempt + 1)
    × ((k.state ≡ dead) × (j.max_retries ≤ℤ pos (j.attempt + 1))
        ⊎ (k.state ≡ failed) × (¬ (j.max_retries ≤ℤ pos (j.attempt + 1))))

-- The servers answer, the worker's context is not done, and the job's row records its end.
pub record HasRecord (ctx : Time → Bool) (id : ℕ) (j : Job) (e : Option ExecError) (w : World)
    : Type 0 where
  pub answered : w.script ≡ []
  pub going : ctx w.clock ≡ false
  pub row : Job
  pub found : by_key id_of id w.db.jobs ≡ some row
  pub recorded : IsRecorded j e row

used_up : (m m' : ℤ) (n n' : ℕ) → m ≡ m' → n ≡ n' → m ≤ℤ pos (n + 1) → m' ≤ℤ pos (n' + 1)
used_up m m' n n' e f h = subst (λ k. k ≤ℤ pos (n' + 1)) e (subst (λ k. m ≤ℤ pos (k + 1)) f h)

module _ (execute : Job → Option ExecError) (message : ExecError → String) (intn : ℕ → ℕ)
    (ctx : Time → Bool) (meanwhile : ℕ → World → World) (ticks : ℕ) (id token run_id : ℕ)
    (j : Job) where
  complete-recorded :
      (w : World)
      → IsHolding ctx id token j w
      → HasRecord ctx id j none (attempt (complete_job id run_id token) (healthy w))
  complete-recorded w h =
      let done_so = complete_job-held id token run_id w h.row h.unique h.found h.held h.in_flight in
      record {
        answered = ap (λ p. p.1.script) done_so;
        going = ap (λ p. ctx p.1.clock) done_so ∙ h.going;
        row = succeed w.clock h.row;
        found =
            ap (λ p. by_key id_of id p.1.db.jobs) done_so
            ∙ complete_db_row id token run_id w h.row h.unique h.found h.held h.in_flight;
        recorded = (refl, refl, h.attempt);
      }

  decided-recorded :
      (x k : Job) (t : Option Time)
      → x.attempt ≡ j.attempt
      → x.max_retries ≡ j.max_retries
      → IsFailed x t k
      → (k.state ≡ dead) × (j.max_retries ≤ℤ pos (j.attempt + 1))
        ⊎ (k.state ≡ failed) × (¬ (j.max_retries ≤ℤ pos (j.attempt + 1)))
  decided-recorded x k t e f failure = elim failure.decided [
    | inl (is_dead, _, spent) ↦
        inl (is_dead, used_up x.max_retries j.max_retries x.attempt j.attempt f e spent)
    | inr (is_failed, _, left) ↦ inr (
      is_failed,
      λ h. left (used_up j.max_retries x.max_retries j.attempt x.attempt (sym f) (sym e) h),
    )
  ]

  fail-recorded :
      (text : String) (t : Option Time) (e : ExecError) (w : World)
      → IsHolding ctx id token j w
      → HasRecord ctx id j (some e) (attempt (fail_job id run_id token text t) (healthy w))
  fail-recorded text t e w h =
      let (k, answer, row, failure) =
        fail_job-IsFailed id token run_id w h.row h.unique h.found h.held h.in_flight text t in
      let held = held_row id token run_id w h.row h.unique h.found h.held h.in_flight in
      record {
        answered = ap (λ p. p.1.script) (fail_job-held id token run_id text t w h.row held);
        going =
            ap (λ p. ctx p.1.clock) (fail_job-held id token run_id text t w h.row held) ∙ h.going;
        row = k;
        found = row;
        recorded = (
          failure.fenced,
          failure.counted ∙ ap (λ n. n + 1) h.attempt,
          decided-recorded h.row k t h.attempt h.max_retries failure,
        );
      }

  finish-recorded :
      (e : Option ExecError) (w : World)
      → IsHolding ctx id token j w
      → HasRecord ctx id j e
          (finish execute message intn ctx meanwhile ticks j id run_id token e (healthy w))
  unfolding finish
  finish-recorded none w h =
      subst (HasRecord ctx id j none)
        (sym (attempt_going ctx (complete_job id run_id token) (healthy w) h.going))
        (complete-recorded w h)
  finish-recorded (some e) w h =
      let t = retry_time execute message intn ctx meanwhile ticks j w.clock in
      subst (HasRecord ctx id j (some e))
        (sym (attempt_going ctx (fail_job id run_id token (message e) t) (healthy w) h.going))
        (fail-recorded (message e) t e w h)

  finish_holding-recorded :
      (e : Option ExecError) (w : World)
      → IsHolding ctx id token j w
      → HasRecord ctx id j e (finish execute message intn ctx meanwhile ticks j id run_id token e w)
  finish_holding-recorded e w h =
      subst
        (λ v.
          HasRecord ctx id j e
            (finish execute message intn ctx meanwhile ticks j id run_id token e v))
        (healthy_id w h.answered) (finish-recorded e w h)

-- The worker's list has the job's id no more.
abbrev pub IsReleased : ℕ → ℕ → World → Type 0
IsReleased worker_id id w = find (is_uuid id) (w.redis.processing worker_id) ≡ none

find-filter-not :
    (id : ℕ) (xs : List Element) → find (is_uuid id) (filter (λ e. not (is_uuid id e)) xs) ≡ none
find-filter-not id [] = refl
find-filter-not id (x ∷ xs) = ground (arith, find-filter-not id xs)

remove-IsReleased :
    (worker_id id : ℕ) (w : World)
    → IsReleased worker_id id (attempt (remove_from_processing worker_id id) (healthy w))
unfolding remove_from_processing redis_exec
remove-IsReleased worker_id id w =
    rw (==_refl worker_id) (find-filter-not id (w.redis.processing worker_id))

remove-recorded :
    (ctx : Time → Bool) (worker_id id : ℕ) (j : Job) (e : Option ExecError) (w : World)
    → HasRecord ctx id j e w
    → HasRecord ctx id j e (attempt (remove_from_processing worker_id id) (healthy w))
unfolding remove_from_processing redis_exec
remove-recorded ctx worker_id id j e w h = record {
  answered = refl;
  going = h.going;
  row = h.row;
  found = h.found;
  recorded = h.recorded;
}

-- The job's end is recorded, and the worker has let go of it.
abbrev pub IsOver : (Time → Bool) → ℕ → ℕ → Job → Option ExecError → World → Type 0
IsOver ctx worker_id id j e w = HasRecord ctx id j e w × IsReleased worker_id id w

remove-IsOver :
    (ctx : Time → Bool) (worker_id id : ℕ) (j : Job) (e : Option ExecError) (w : World)
    → HasRecord ctx id j e w
    → IsOver ctx worker_id id j e (attempt (under ctx (remove_from_processing worker_id id)) w)
remove-IsOver ctx worker_id id j e w h =
    subst (IsOver ctx worker_id id j e)
      (sym (attempt_going ctx (remove_from_processing worker_id id) w h.going))
      (subst (λ v. IsOver ctx worker_id id j e (attempt (remove_from_processing worker_id id) v))
        (healthy_id w h.answered)
        (remove-recorded ctx worker_id id j e w h, remove-IsReleased worker_id id w))

module _ (execute : Job → Option ExecError) (message : ExecError → String) (intn : ℕ → ℕ)
    (ctx : Time → Bool) (meanwhile : ℕ → World → World) (ticks worker_id token run_id id : ℕ)
    (j : Job) (w : World) where
  -- The job as the worker has claimed it.
  abbrev pub claimed_job : Job
  claimed_job = claim w.clock worker_id token (w.clock +ℤ pos claim_window) j

  abbrev pub claimed_world : World
  claimed_world = record w {
    db = claim_db w.clock id worker_id token (w.clock +ℤ pos claim_window) run_id w.db;
    script = [];
  }

  pub claimed-IsHolding :
      UniqueKeys id_of w.db.jobs
      → by_key id_of id w.db.jobs ≡ some j
      → ctx w.clock ≡ false
      → IsHolding ctx id token claimed_job claimed_world
  claimed-IsHolding u found running = record {
    answered = refl;
    going = running;
    unique = claim_db_unique id worker_id token (w.clock +ℤ pos claim_window) run_id w.clock w.db u;
    row = claimed_job;
    found =
        claimed_row id worker_id token (w.clock +ℤ pos claim_window) run_id w.clock w.db j found;
    held = ==_refl token;
    in_flight = refl;
    attempt = refl;
    max_retries = refl;
  }

  work-IsOver :
      ((k : ℕ) (v : World)
        → IsHolding ctx id token claimed_job v
        → IsHolding ctx id token claimed_job (meanwhile k v))
      → IsHolding ctx id token claimed_job claimed_world
      → IsOver ctx worker_id id claimed_job (execute claimed_job) (
          work execute message intn ctx meanwhile ticks worker_id id run_id token claimed_job
            claimed_world)
  unfolding work
  work-IsOver rely h =
      let w1 = attempt (under ctx (mark_running id token)) claimed_world in
      let w2 = beats ctx meanwhile ticks id token w1 in
      let w3 =
        finish execute message intn ctx meanwhile ticks claimed_job id run_id token
          (execute claimed_job) w2 in
      remove-IsOver ctx worker_id id claimed_job (execute claimed_job) w3 (
        finish_holding-recorded execute message intn ctx meanwhile ticks id token run_id claimed_job
          (execute claimed_job) w2
          (beats-IsHolding ctx id token claimed_job meanwhile ticks w1 rely
            (mark_running-IsHolding ctx id token claimed_job claimed_world h)))

  pub process_works :
      UniqueKeys id_of w.db.jobs
      → by_key id_of id w.db.jobs ≡ some j
      → state_eq j.state pending ≡ true
      → ctx w.clock ≡ false
      → process execute message intn ctx meanwhile ticks worker_id token run_id id (healthy w)
        ≡ work execute message intn ctx meanwhile ticks worker_id id run_id token claimed_job
            claimed_world
  unfolding process get_job exec
  process_works u found waiting running =
      let claimable : find (is_claimable id) w.db.jobs ≡ some j =
        find-by_key id_of id (λ x. state_eq x.state pending) w.db.jobs u
        ∙ rw (found, waiting) refl in
      ap (claimed_or_not execute message intn ctx meanwhile ticks worker_id id token) (
        under_going ctx (try_claim id worker_id token (w.clock +ℤ pos claim_window) run_id)
          (healthy w) running
        ∙ try_claim-some id worker_id token (w.clock +ℤ pos claim_window) run_id w j claimable)
      ∙ ap (fetched execute message intn ctx meanwhile ticks worker_id id run_id token)
          (under_going ctx (get_job id) claimed_world running)
      ∙ ap
          (λ o.
            fetched execute message intn ctx meanwhile ticks worker_id id run_id token
              (or_not_found o, claimed_world))
          (claimed_row id worker_id token (w.clock +ℤ pos claim_window) run_id w.clock w.db j found)

  pub process-IsOver :
      UniqueKeys id_of w.db.jobs
      → by_key id_of id w.db.jobs ≡ some j
      → state_eq j.state pending ≡ true
      → ctx w.clock ≡ false
      → ((k : ℕ) (v : World)
          → IsHolding ctx id token claimed_job v
          → IsHolding ctx id token claimed_job (meanwhile k v))
      → IsOver ctx worker_id id claimed_job
          (execute claimed_job)
          (process execute message intn ctx meanwhile ticks worker_id token run_id id (healthy w))
  process-IsOver u found waiting running rely =
      subst (IsOver ctx worker_id id claimed_job (execute claimed_job))
        (sym (process_works u found waiting running))
        (work-IsOver rely (claimed-IsHolding u found running))

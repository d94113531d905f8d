-- ===== src/Storage/Fencing.antt =====
-- internal/storage/storage.go: a worker whose claim was taken away changes nothing.
use jobit.Prelude.{
  ℕ, ◌≡◌, refl, ◌∙◌, ap, ◌⊎◌, inl, inr, String, Bool, false, ◌&&◌, holds, Option, none, some, arith,
  if◌then◌else◌,
}
use jobit.Job.{Job, state_eq, claimed, Time}
use jobit.World.{World, Db, Result, ok, err, fault, exec, find}
use jobit.World.Keeps.{exec-Keeps, Replied, exec-Replied}
use jobit.World.TableLaws.{UniqueKeys, by_key, find-by_key, update_where-none, count-eq-zero_iff}
use jobit.World.TxRules.{Settled, transaction-Settled}
use jobit.Storage.Bodies.{holds_claim, is_in_flight, update_jobs, fail_job_body}
use jobit.Storage.Endings.{Fails, Discards, fail_job_body-Ensures}
use jobit.Storage.Claims.{
  is_startable, start, move_deadline, succeed, succeed_statement, close_run, mark_running,
  extend_deadline, complete_job, fail_job,
}

abbrev pub id_of : Job → ℕ
id_of j = j.id

-- The row of a job that the token does not hold, if the job has a row at all.
abbrev pub IsForeign : ℕ → Option Job → Type 0
IsForeign token none = Unit
IsForeign token (some j) = holds token j.claim_token ≡ false

foreign_unselected :
    (token : ℕ) (c : Job → Bool) (o : Option Job)
    → IsForeign token o
    → (elim o [ none ↦ none | some x ↦ if holds token x.claim_token && c x then some x else none ])
      ≡ none
foreign_unselected token c none h = refl
foreign_unselected token c (some x) h = rw h refl

-- A statement that would leave the tables as they are does so however it is answered.
exec_idle :
    {A : Type 0} (f : Db → Db × Result A) (w : World) → (f w.db).0 ≡ w.db → (exec f w).1.db ≡ w.db
exec_idle f w h = exec-Keeps (λ d. d ≡ w.db) f (λ d e. rw e h) w refl

update_jobs_idle :
    (p : Job → Bool) (f : Job → Job) (d : Db) → find p d.jobs ≡ none → update_jobs p f d ≡ d
update_jobs_idle p f d h = ap (λ js. record d { jobs = js }) (update_where-none p f d.jobs h)

-- The tables are as they were, and the answer is no error or a server's fault.
abbrev IsDiscarded : Db → Result (Unit {0}) → Db → Type 0
IsDiscarded d r d' = (d' ≡ d) × ((r ≡ ok tt) ⊎ (r ≡ err fault))

abbrev pub Discarded : World → Result (Unit {0}) × World → Type 0
Discarded w (r, w') = IsDiscarded w.db r w'.db

module _ (id token : ℕ) (w : World) (u : UniqueKeys id_of w.db.jobs)
    (foreign : IsForeign token (by_key id_of id w.db.jobs)) where
  not_held : find (holds_claim id token) w.db.jobs ≡ none
  not_held =
      find-by_key id_of id (λ x. holds token x.claim_token && is_in_flight x.state) w.db.jobs u
      ∙ foreign_unselected token (λ x. is_in_flight x.state) (by_key id_of id w.db.jobs) foreign

  not_startable : find (is_startable id token) w.db.jobs ≡ none
  not_startable =
      find-by_key id_of id (λ x. holds token x.claim_token && state_eq x.state claimed) w.db.jobs u
      ∙ foreign_unselected token (λ x. state_eq x.state claimed) (by_key id_of id w.db.jobs) foreign

  mark_running_foreign : (mark_running id token w).1.db ≡ w.db
  unfolding mark_running
  mark_running_foreign = exec_idle _ w (update_jobs_idle _ start w.db not_startable)

  extend_deadline_foreign : (deadline : Time) → (extend_deadline id token deadline w).1.db ≡ w.db
  unfolding extend_deadline
  extend_deadline_foreign deadline =
      exec_idle _ w (update_jobs_idle _ (move_deadline deadline) w.db not_held)

  complete_job_foreign : (run : ℕ) → Discarded w (complete_job id run token w)
  unfolding complete_job
  complete_job_foreign run =
      go (exec (succeed_statement w.clock id token) w)
        (exec_idle (succeed_statement w.clock id token) w
          (update_jobs_idle _ (succeed w.clock) w.db not_held))
        (counted (exec-Replied (succeed_statement w.clock id token) w))
    where
      counted :
          {r : Result ℕ} {d : Db}
          → Replied (succeed_statement w.clock id token) w.db r d
          → (r ≡ ok 0) ⊎ (r ≡ err fault)
      counted (Replied.answered e _) =
          inl (e ∙ ap ok ((count-eq-zero_iff (holds_claim id token) w.db.jobs).1 not_held))
      counted (Replied.unanswered e _) = inr e
      counted (Replied.declined e _) = inr e

      go :
          (p : Result ℕ × World)
          → p.1.db ≡ w.db
          → (p.0 ≡ ok 0) ⊎ (p.0 ≡ err fault)
          → Discarded w (
              let (r, w') = p in elim r [ ok n ↦ close_run w.clock run n w' | err e ↦ (err e, w') ])
      go (ok n, w') e h = let n0 : n ≡ 0 = ground arith in rw n0 (e, inl refl)
      go (err x, w') e h = (e, ground arith)

  fail_job_foreign :
      (run : ℕ) (message : String) (next_run_at : Option Time)
      → Discarded w (fail_job id run token message next_run_at w)
  unfolding fail_job
  fail_job_foreign run message next_run_at = go (
      transaction-Settled (Fails w.clock id run token message next_run_at w.db)
        (Discards w.clock id run token message next_run_at w.db)
        (fail_job_body w.clock id run token message next_run_at) w
        (fail_job_body-Ensures w.clock id run token message next_run_at w.db))
    where
      go :
          {r : Result (Unit {0})} {d : Db}
          → Settled
              (Fails w.clock id run token message next_run_at w.db)
              (Discards w.clock id run token message next_run_at w.db)
              w.db
              r
              d
          → IsDiscarded w.db r d
      go (inl (_, (j, found, _), _)) = cc not_held
      go (inr (e, inl (inl h))) = (e, inr h)
      go (inr (e, inl (inr (h, _)))) = (e, inl h)
      go (inr (e, inr h)) = (e, inr h)

-- Where job ids are unique and a job's row does not hold a token, nothing that a worker does with
-- that token changes any table: neither MarkRunning, nor ExtendDeadline, nor CompleteJob, nor
-- FailJob, however the servers answer; and the last two report nothing but a server's fault.
pub stale_worker_fenced :
    (id token run : ℕ) (deadline : Time) (message : String) (next_run_at : Option Time) (w : World)
    → UniqueKeys id_of w.db.jobs
    → IsForeign token (by_key id_of id w.db.jobs)
    → ((mark_running id token w).1.db ≡ w.db)
      × ((extend_deadline id token deadline w).1.db ≡ w.db)
      × Discarded w (complete_job id run token w)
      × Discarded w (fail_job id run token message next_run_at w)
stale_worker_fenced id token run deadline message next_run_at w u f = (
  mark_running_foreign id token w u f,
  extend_deadline_foreign id token w u f deadline,
  complete_job_foreign id token w u f run,
  fail_job_foreign id token w u f run message next_run_at,
)

-- ===== src/Storage/Completion.antt =====
-- internal/storage/storage.go, CompleteJob: what the worker that holds the claim records.
use jobit.Prelude.{ℕ, suc, ◌≡◌, refl, ◌∙◌, ap, true, ◌&&◌, holds, some, []}
use jobit.Job.{Job, Time}
use jobit.World.{World, Db, ok, healthy, exec, find, count_where}
use jobit.World.TableLaws.{UniqueKeys, by_key, by_key-update, find-by_key, find-holds, some_counted}
use jobit.Storage.Bodies.{holds_claim, is_in_flight, is_run, update_jobs, update_runs}
use jobit.Storage.Claims.{succeed, succeed_run, close_run, complete_job}
use jobit.Storage.Fencing.{id_of}

-- The tables after a success is recorded.
abbrev pub complete_db : Time → ℕ → ℕ → ℕ → Db → Db
complete_db t id run token d =
    update_runs (is_run run) (succeed_run t) (update_jobs (holds_claim id token) (succeed t) d)

complete_job-counted :
    (id run token n : ℕ) (w : World)
    → count_where (holds_claim id token) w.db.jobs ≡ suc n
    → complete_job id run token (healthy w)
      ≡ (ok tt, record w { db = complete_db w.clock id run token w.db; script = [] })
unfolding complete_job exec
complete_job-counted id run token n w h =
    ap
      (λ k.
        close_run w.clock run k
          (record (healthy w) { db = update_jobs (holds_claim id token) (succeed w.clock) w.db }))
      h

module _ (id token run : ℕ) (w : World) (j : Job) (u : UniqueKeys id_of w.db.jobs)
    (found : by_key id_of id w.db.jobs ≡ some j) (held : holds token j.claim_token ≡ true)
    (in_flight : is_in_flight j.state ≡ true) where
  -- The test that fences off the others selects the row.
  pub held_row : find (holds_claim id token) w.db.jobs ≡ some j
  held_row =
      find-by_key id_of id (λ x. holds token x.claim_token && is_in_flight x.state) w.db.jobs u
      ∙ rw (found, held, in_flight) refl

  pub complete_job-held :
      complete_job id run token (healthy w)
      ≡ (ok tt, record w { db = complete_db w.clock id run token w.db; script = [] })
  complete_job-held =
      let (n, counted) = some_counted (holds_claim id token) w.db.jobs {j = j} held_row in
      complete_job-counted id run token n w counted

  pub complete_db_row :
      by_key id_of id (complete_db w.clock id run token w.db).jobs ≡ some (succeed w.clock j)
  complete_db_row =
      by_key-update id_of (holds_claim id token) (succeed w.clock) (λ x e. refl) id w.db.jobs
      ∙ rw (found, find-holds (holds_claim id token) w.db.jobs held_row) refl

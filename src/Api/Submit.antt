-- ===== src/Api/Submit.antt =====
-- internal/api/handler.go, handleSubmitJob: an idempotency key names one job of a tenant.
pub mod Outcome
use jobit.Prelude.{ℕ, ◌≡◌, ◌∙◌, ap, String, Bool, true, ◌&&◌, some, arith, ◌==◌}
use jobit.Job.{Job}
use jobit.World.{healthy, World, Tenant, exec, find, done, answer}
use jobit.World.TableLaws.{find_weaker}
use jobit.Storage.Jobs.{
  insert_row-taken, insert_job, get_job_by_idempotency_key, conflicts, key_eq, or_not_found,
}
use jobit.Api.{
  SubmitJobRequest, ok_job, job_of_request, answer_insert, answer_duplicate, original_or_conflict,
  create,
}

abbrev pub has_key : ℕ → String → Job → Bool
has_key tenant_id key j = j.tenant_id == tenant_id && key_eq key j.idempotency_key

key_conflicts :
    (j k : Job) (key : String)
    → j.idempotency_key ≡ some key
    → has_key j.tenant_id key k ≡ true
    → conflicts j k ≡ true
key_conflicts j k key e h = ground arith

-- While Postgres answers, a submission whose key a job of the tenant has already answers with that
-- job, whatever else it asks for, and changes nothing.
pub submit_idempotent :
    (t : Tenant) (q : SubmitJobRequest) (id : ℕ) (w : World) (key : String) (j : Job)
    → q.idempotency_key ≡ some key
    → find (has_key t.id key) w.db.jobs ≡ some j
    → create t q id (healthy w) ≡ (ok_job j, healthy w)
unfolding create job_of_request insert_job exec answer_duplicate get_job_by_idempotency_key
submit_idempotent t q id w key j has found =
    let submitted = job_of_request t q id w.clock in
    let (k, conflict) =
      find_weaker (has_key t.id key) (conflicts submitted) (λ y. key_conflicts submitted y key has)
        w.db.jobs {x = j} found in
    ap (λ p. answer_insert t submitted (answer done p (healthy w)))
      (insert_row-taken submitted k w.db conflict)
    ∙ ap (λ o. answer_duplicate t o (healthy w)) has
    ∙ ap (λ o. original_or_conflict (answer done (w.db, or_not_found o) (healthy w))) found

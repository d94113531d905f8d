-- ===== src/Api/Submit/Outcome.antt =====
-- internal/api/handler.go, handleSubmitJob: how a submission that has passed the checks ends, on every
-- branch.
use jobit.Prelude.{ℕ, ◌≡◌, ◌⊎◌, String, true, Option, none, some, [], ◌∷◌, ◌++◌}
use jobit.Job.{Job}
use jobit.World.{World, Db, Tenant, Result, ok, err, duplicate, fault, find}
use jobit.Storage.Jobs.{conflicts, inserted_row, key_eq}
use jobit.Api.{Response, created, ok_job, conflict, internal_error}

-- The tables with one more job.
abbrev pub with_job : Job → Db → Db
with_job j d = record d { jobs = d.jobs ++ inserted_row j ∷ [] }

-- What a duplicate is answered: a conflict, or the tenant's job that has the key.
abbrev pub IsOriginal : ℕ → Option String → Response → Type 0
IsOriginal tenant_id none r = r ≡ conflict
IsOriginal tenant_id (some key) r =
    (r ≡ conflict)
    ⊎ ((k : Job) × (r ≡ ok_job k)
        × (k.tenant_id ≡ tenant_id)
        × (key_eq key k.idempotency_key ≡ true))

-- The ends: the job is in the table and shown; it is in the table but its caller is told of an error, as
-- the answer was lost; nothing is written and the caller is told so; or the id or the key is taken,
-- nothing is written, and the answer is a conflict or the original.
pub data IsSubmitted (t : Tenant) (j : Job) (w : World) (p : Response × World) : Type 0 where
  inserted :
      find (conflicts j) w.db.jobs ≡ none
      → p.0 ≡ created j
      → p.1.db ≡ with_job j w.db
      → IsSubmitted t j w p
  unanswered :
      find (conflicts j) w.db.jobs ≡ none
      → p.0 ≡ internal_error
      → p.1.db ≡ with_job j w.db
      → IsSubmitted t j w p
  failed : p.0 ≡ internal_error → p.1.db ≡ w.db → IsSubmitted t j w p
  taken :
      (k : Job)
      → find (conflicts j) w.db.jobs ≡ some k
      → IsOriginal t.id j.idempotency_key p.0
      → p.1.db ≡ w.db
      → IsSubmitted t j w p

-- How the INSERT ends.
data IsInsert (j : Job) (d : Db) (r : Result (Unit {0})) (d' : Db) : Type 0 where
  added : find (conflicts j) d.jobs ≡ none → r ≡ ok tt → d' ≡ with_job j d → IsInsert j d r d'
  unheard : find (conflicts j) d.jobs ≡ none → r ≡ err fault → d' ≡ with_job j d → IsInsert j d r d'
  kept : r ≡ err fault → d' ≡ d → IsInsert j d r d'
  clash :
      (k : Job)
      → find (conflicts j) d.jobs ≡ some k
      → r ≡ err duplicate
      → d' ≡ d
      → IsInsert j d r d'

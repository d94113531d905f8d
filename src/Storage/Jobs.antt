-- ===== src/Storage/Jobs.antt =====
-- internal/storage/storage.go: jobs inserted, fetched, listed, cancelled and replayed.
use text.Mathlib.Text.{◌==◌ as str_eq}
use jobit.Prelude.{
  arith, ◌≡◌, ℕ, zero, suc, String, Bool, true, false, ◌&&◌, ◌||◌, Option, none, some, List, [],
  ◌∷◌, ◌++◌, filter, take, drop, ◌==◌, if◌then◌else◌,
}
use jobit.Prelude.Int.{ltb_ℤ}
use jobit.Job.{Job, State, state_eq, pending, scheduled, dead}
use jobit.World.{
  Db, Result, ok, err, not_found, duplicate, Call, ◌>>◌, exec, find, count_where, delete_where,
  update_where, order_by,
}

-- What `errors.Is(err, pgx.ErrNoRows)` makes of a missing row.
abbrev pub or_not_found : {A : Type 0} → Option A → Result A
or_not_found none = err not_found
or_not_found (some a) = ok a

pub or_not_found-ok : {A : Type 0} (o : Option A) {a : A} → or_not_found o ≡ ok a → o ≡ some a
or_not_found-ok none h = cc
or_not_found-ok (some x) h = cc

-- A query that changes nothing.
abbrev pub query : {A : Type 0} → (Db → A) → Db → Db × Result A
query f d = (d, ok (f d))

abbrev pub key_eq : String → Option String → Bool
key_eq k none = false
key_eq k (some l) = str_eq l k

-- UNIQUE (tenant_id, idempotency_key); two NULLs do not conflict.
abbrev pub same_key : Job → Job → Bool
same_key j k = elim j.idempotency_key [
  | none ↦ false
  | some key ↦ k.tenant_id == j.tenant_id && key_eq key k.idempotency_key
]

-- A row that the primary key or the unique constraint sets against `j`: error 23505.
abbrev pub conflicts : Job → Job → Bool
conflicts j k = k.id == j.id || same_key j k

-- The columns that INSERT names; the others are NULL.
abbrev pub inserted_row : Job → Job
inserted_row j = record j {
  claimed_at = none;
  claimed_by = none;
  claim_token = none;
  deadline = none;
  last_error = none;
  completed_at = none;
}

unfoldable pub insert_row : Job → Db → Db × Result (Unit {0})
insert_row j d = elim (find (conflicts j) d.jobs) [
  | none ↦ (record d { jobs = d.jobs ++ inserted_row j ∷ [] }, ok tt)
  | some _ ↦ (d, err duplicate)
]

pub insert_row-free :
    (j : Job) (d : Db)
    → find (conflicts j) d.jobs ≡ none
    → insert_row j d ≡ (record d { jobs = d.jobs ++ inserted_row j ∷ [] }, ok tt)
unfolding insert_row
insert_row-free j d h = ground arith

pub insert_row-taken :
    (j k : Job) (d : Db) → find (conflicts j) d.jobs ≡ some k → insert_row j d ≡ (d, err duplicate)
unfolding insert_row
insert_row-taken j k d h = ground arith

unfoldable pub insert_job : Job → Call (Unit {0})
insert_job j = exec (insert_row j)

abbrev pub find_job : ℕ → List Job → Option Job
find_job id = find (λ j. j.id == id)

abbrev pub select_job : ℕ → Db → Db × Result Job
select_job id d = (d, or_not_found (find_job id d.jobs))

unfoldable pub get_job : ℕ → Call Job
get_job id = exec (select_job id)

unfoldable pub get_job_by_idempotency_key : ℕ → String → Call Job
get_job_by_idempotency_key tenant_id key = exec (λ d.
    (d, or_not_found (find (λ j. j.tenant_id == tenant_id && key_eq key j.idempotency_key) d.jobs)))

unfoldable pub get_job_for_tenant : ℕ → ℕ → Call Job
get_job_for_tenant id tenant_id =
    exec (λ d. (d, or_not_found (find (λ j. j.id == id && j.tenant_id == tenant_id) d.jobs)))

pub record ListFilter : Type 0 where
  pub tenant_id : Option ℕ
  pub state : Option State
  pub limit : ℕ
  pub offset : ℕ

abbrev pub matches_filter : ListFilter → Job → Bool
matches_filter f j =
    (elim f.tenant_id [ none ↦ true | some t ↦ j.tenant_id == t ])
    && (elim f.state [ none ↦ true | some s ↦ state_eq j.state s ])

-- ORDER BY created_at DESC
abbrev pub newer : Job → Job → Bool
newer j k = ltb_ℤ k.created_at j.created_at

unfoldable pub list_rows : ListFilter → List Job → List Job
list_rows f jobs =
    let limit = if f.limit == 0 then 50 else f.limit in
    take limit (drop f.offset (order_by newer (filter (matches_filter f) jobs)))

unfoldable pub list_jobs : ListFilter → Call (List Job)
list_jobs f = exec (query (λ d. list_rows f d.jobs))

-- `tag.RowsAffected() == 0`
abbrev pub affected : ℕ → Result (Unit {0})
affected zero = err not_found
affected (suc _) = ok tt

abbrev pub is_cancellable : ℕ → ℕ → Job → Bool
is_cancellable job_id tenant_id j =
    j.id == job_id
    && j.tenant_id == tenant_id
    && (state_eq j.state pending || state_eq j.state scheduled)

abbrev pub cancel_row : ℕ → ℕ → Db → Db
cancel_row job_id tenant_id d = record d {
  jobs = delete_where (is_cancellable job_id tenant_id) d.jobs;
}

unfoldable pub cancel_job : ℕ → ℕ → Call (Unit {0})
cancel_job job_id tenant_id = exec (λ d. (
  cancel_row job_id tenant_id d,
  affected (count_where (is_cancellable job_id tenant_id) d.jobs),
))

-- The row that a replay leaves.
abbrev pub reset : Job → Job
reset j = record j {
  state = pending;
  attempt = 0;
  last_error = none;
  claim_token = none;
  claimed_at = none;
  claimed_by = none;
  deadline = none;
}

abbrev pub is_replayable : ℕ → ℕ → Job → Bool
is_replayable job_id tenant_id j =
    j.id == job_id && (j.tenant_id == tenant_id && state_eq j.state dead)

abbrev pub replay_row : ℕ → ℕ → Db → Db
replay_row job_id tenant_id d = record d {
  jobs = update_where (is_replayable job_id tenant_id) reset d.jobs;
}

abbrev pub replay_statement : ℕ → ℕ → Db → Db × Result (Unit {0})
replay_statement job_id tenant_id d =
    (replay_row job_id tenant_id d, affected (count_where (is_replayable job_id tenant_id) d.jobs))

unfoldable pub replay_job : ℕ → ℕ → Call Job
replay_job job_id tenant_id = do exec (replay_statement job_id tenant_id); get_job job_id

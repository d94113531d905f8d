-- ===== src/Api/Isolation.antt =====
-- internal/api/handler.go: a tenant neither sees nor touches the jobs of another.
use mathlib.Core.Path.{subst}
use mathlib.Core.Option
use jobit.Prelude.{
  ℕ, zero, suc, ◌≡◌, ◌≢◌, refl, ◌∙◌, ap, Bool, true, false, ◌&&◌, Option, none, some, List, [], ◌∷◌,
  All, All-take, drop, filter, arith, ◌==◌, if◌then◌else◌, Bool-cases, inl, inr,
}
use jobit.Prelude.Int.{ℤ}
use jobit.Job.{Job, State}
use jobit.World.OrderLaws.{All-order_by}
use jobit.World.{
  ok_injective, World, Db, Tenant, Result, ok, err, fault, find, order_by, exec, redis_exec,
}
use jobit.World.Keeps.{Replied-value, exec-Keeps, bind-Keeps, exec-Replied}
use jobit.World.TableLaws.{
  UniqueKeys, updated, by_key, by_key-delete, by_key-update, UniqueKeys-delete, UniqueKeys-update,
  find-holds,
}
use jobit.Storage.Jobs.{
  get_job, get_job_for_tenant, or_not_found-ok, list_jobs, list_rows, ListFilter, matches_filter,
  newer, query, cancel_job, is_cancellable, cancel_row, replay_job, replay_row, replay_statement,
  is_replayable, reset, select_job,
}
use jobit.Storage.Fencing.{id_of}
use jobit.Queue.{enqueue}
use jobit.Api.{
  Response, StateParam, any_state, no_state, of_state, ok_job, ok_jobs, answer_job, answer_list,
  answer_cancel, answer_replay, handle_get_job, handle_list_jobs, handle_cancel_job,
  handle_replay_job, limit_of, offset_of,
}

-- The jobs that an answer shows are the tenant's.
abbrev pub IsOwnJob : ℕ → Job → Type 0
IsOwnJob tenant_id j = j.tenant_id ≡ tenant_id

abbrev pub ShowsOwn : ℕ → Response → Type 0
ShowsOwn tenant_id (ok_job j) = IsOwnJob tenant_id j
ShowsOwn tenant_id (ok_jobs js) = All (IsOwnJob tenant_id) js
ShowsOwn tenant_id _ = Unit

module _ (P : Job → Type 0) where
  All-drop : (n : ℕ) (xs : List Job) → All P xs → All P (drop n xs)
  All-drop zero xs h = h
  All-drop (suc n) [] h = tt
  All-drop (suc n) (x ∷ xs) h = All-drop n xs h.1

  All-filter :
      (p : Job → Bool) (xs : List Job) → ((x : Job) → p x ≡ true → P x) → All P (filter p xs)
  All-filter p [] h = tt
  All-filter p (x ∷ xs) h = elim (Bool-cases (p x)) [
    | inl e ↦ rw e (h x e, All-filter p xs h)
    | inr e ↦ rw e (All-filter p xs h)
  ]

list_rows-All :
    (t limit offset : ℕ) (s : Option State) (jobs : List Job)
    → All
        (IsOwnJob t)
        (list_rows (record { tenant_id = some t; state = s; limit = limit; offset = offset }) jobs)
unfolding list_rows
list_rows-All t limit offset s jobs =
    let f : ListFilter = record { tenant_id = some t; state = s; limit = limit; offset = offset } in
    let own = All-filter (IsOwnJob t) (matches_filter f) jobs (λ x e. ground (arith, e)) in
    All-take (IsOwnJob t) (if limit == 0 then 50 else limit)
      (drop offset (order_by newer (filter (matches_filter f) jobs)))
      (All-drop (IsOwnJob t) offset (order_by newer (filter (matches_filter f) jobs))
        (All-order_by (IsOwnJob t) newer (filter (matches_filter f) jobs) own))

answer_job_own :
    (tenant_id : ℕ) (p : Result Job × World)
    → ((j : Job) → p.0 ≡ ok j → IsOwnJob tenant_id j)
    → ShowsOwn tenant_id (answer_job p).0
answer_job_own t (ok j, w) h = h j refl
answer_job_own t (err x, w) h = ground arith

answer_list_own :
    (tenant_id : ℕ) (p : Result (List Job) × World)
    → ((js : List Job) → p.0 ≡ ok js → All (IsOwnJob tenant_id) js)
    → ShowsOwn tenant_id (answer_list p).0
answer_list_own t (ok js, w) h = h js refl
answer_list_own t (err x, w) h = tt

-- However the servers answer, the job that GET /jobs/{id} shows, and each that GET /jobs lists, is a
-- job of the tenant who asks.
pub reads-ShowsOwn :
    (t : Tenant) (id : Option ℕ) (state : StateParam) (limit offset : Option ℤ) (w : World)
    → ShowsOwn t.id (handle_get_job t id w).0
      × ShowsOwn t.id (handle_list_jobs t state limit offset w).0
unfolding handle_get_job get_job_for_tenant handle_list_jobs list_jobs
reads-ShowsOwn t id state limit offset w = (shown id, listed state)
  where
    filter_of : Option State → ListFilter
    filter_of s = record {
      tenant_id = some t.id;
      state = s;
      limit = limit_of limit;
      offset = offset_of offset;
    }

    no_answer : {js : List Job} → (let r : Result (List Job) = err fault in r ≡ ok js) → ⊥
    no_answer e = cc

    shown : (o : Option ℕ) → ShowsOwn t.id (handle_get_job t o w).0
    shown none = tt
    shown (some id) = answer_job_own t.id (get_job_for_tenant id t.id w) (λ j e.
        let found =
          or_not_found-ok (find (λ x. x.id == id && x.tenant_id == t.id) w.db.jobs)
            (Replied-value _ w.db (exec-Replied _ w) e) in
        let own = find-holds (λ x. x.id == id && x.tenant_id == t.id) w.db.jobs found in
        ground (arith, own))

    own_list :
        (s : Option State) (js : List Job)
        → (list_jobs (filter_of s) w).0 ≡ ok js
        → All (IsOwnJob t.id) js
    own_list s js e =
        subst (All (IsOwnJob t.id))
          (ok_injective
            (Replied-value (query (λ d. list_rows (filter_of s) d.jobs)) w.db (exec-Replied _ w) e))
          (list_rows-All t.id (limit_of limit) (offset_of offset) s w.db.jobs)

    listed : (p : StateParam) → ShowsOwn t.id (handle_list_jobs t p limit offset w).0
    listed any_state = answer_list_own t.id (list_jobs (filter_of none) w) (own_list none)
    listed (of_state s) =
        answer_list_own t.id (list_jobs (filter_of (some s)) w) (own_list (some s))
    listed no_state =
        answer_list_own t.id (exec (λ d. (d, err fault)) w) (λ js e.
          absurd (no_answer (Replied-value (λ d. (d, err fault)) w.db (exec-Replied _ w) e)))

kept_by_delete :
    (p : Job → Bool) (o : Option Job) (x : Job)
    → o ≡ some x
    → p x ≡ false
    → (elim o [ none ↦ none | some y ↦ if p y then none else some y ]) ≡ some x
kept_by_delete p o x h e = rw (h, e) refl

kept_by_update :
    (p : Job → Bool) (f : Job → Job) (o : Option Job) (x : Job)
    → o ≡ some x
    → p x ≡ false
    → Option.map (updated p f) o ≡ some x
kept_by_update p f o x h e = rw (h, e) refl

-- The row of a job.
abbrev HoldsRow : ℕ → Job → Db → Type 0
HoldsRow id x d = UniqueKeys id_of d.jobs × (by_key id_of id d.jobs ≡ some x)

cancel_row-Keeps :
    (job_id tenant_id id : ℕ) (x : Job) (d : Db)
    → x.tenant_id ≢ tenant_id
    → HoldsRow id x d
    → HoldsRow id x (cancel_row job_id tenant_id d)
cancel_row-Keeps job_id tenant_id id x d other (u, h) = (
  UniqueKeys-delete id_of (is_cancellable job_id tenant_id) d.jobs u,
  by_key-delete id_of (is_cancellable job_id tenant_id) id d.jobs u
      ∙ kept_by_delete (is_cancellable job_id tenant_id) (by_key id_of id d.jobs) x h
          (ground arith),
)

replay_row-Keeps :
    (job_id tenant_id id : ℕ) (x : Job) (d : Db)
    → x.tenant_id ≢ tenant_id
    → HoldsRow id x d
    → HoldsRow id x (replay_row job_id tenant_id d)
replay_row-Keeps job_id tenant_id id x d other (u, h) = (
  UniqueKeys-update id_of (is_replayable job_id tenant_id) reset (λ y e. refl) d.jobs u,
  by_key-update id_of (is_replayable job_id tenant_id) reset (λ y e. refl) id d.jobs
      ∙ kept_by_update (is_replayable job_id tenant_id) reset (by_key id_of id d.jobs) x h
          (ground arith),
)

answer_cancel-db : (p : Result (Unit {0}) × World) → (answer_cancel p).1.db ≡ p.1.db
answer_cancel-db (ok a, w) = refl
answer_cancel-db (err x, w) = ground arith

enqueue-db : (t id : ℕ) (priority : ℤ) (w : World) → (enqueue t id priority w).1.db ≡ w.db
unfolding enqueue redis_exec
enqueue-db t id priority w = ground arith

answer_replay-db :
    (t : Tenant) (id : ℕ) (p : Result Job × World) → (answer_replay t id p).1.db ≡ p.1.db
answer_replay-db t id (ok j, w) = enqueue-db t.id id j.priority w
answer_replay-db t id (err x, w) = ground arith

-- Where job ids are unique, and however the servers answer, no request of one tenant to cancel or
-- to replay a job changes the row of a job of another.
pub writes_isolated :
    (t : Tenant) (job_id : Option ℕ) (w : World)
    → UniqueKeys id_of w.db.jobs
    → (id : ℕ) (x : Job) → by_key id_of id w.db.jobs ≡ some x
    → x.tenant_id ≢ t.id
    → (by_key id_of id (handle_cancel_job t job_id w).1.db.jobs ≡ some x)
      × (by_key id_of id (handle_replay_job t job_id w).1.db.jobs ≡ some x)
unfolding handle_cancel_job cancel_job handle_replay_job replay_job get_job
writes_isolated t none w u id x h other = (h, h)
writes_isolated t (some job_id) w u id x h other = (
  ap (λ d. by_key id_of id d.jobs) (answer_cancel-db (cancel_job job_id t.id w))
      ∙ (exec-Keeps (HoldsRow id x) _ (λ d. cancel_row-Keeps job_id t.id id x d other) w (u, h)).1,
  ap (λ d. by_key id_of id d.jobs) (answer_replay-db t job_id (replay_job job_id t.id w))
      ∙ (bind-Keeps (HoldsRow id x) (exec (replay_statement job_id t.id))
          (λ a. exec (select_job job_id))
          (exec-Keeps (HoldsRow id x) (replay_statement job_id t.id)
            (λ d. replay_row-Keeps job_id t.id id x d other))
          (λ a. exec-Keeps (HoldsRow id x) (select_job job_id) (λ d k. k)) w (u, h)).1,
)

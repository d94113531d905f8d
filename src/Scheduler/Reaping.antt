-- ===== src/Scheduler/Reaping.antt =====
-- internal/scheduler/scheduler.go, reapStaleClaims: a tick takes back every stale claim.
pub mod Queued
use mathlib.Core.Path.{subst}
use jobit.Prelude.{
  sym, inl, inr, Bool-cases, ℕ, ◌≡◌, refl, ◌∙◌, ap, Bool, true, false, ◌&&◌, ◌||◌, none, List, [],
  ◌∷◌, All, filter, arith, ◌==◌, ==_refl, if◌then◌else◌, Option, some,
}
use jobit.Job.{Job, Time}
use jobit.World.{
  healthy, World, Redis, Db, uuid_text, lpush, Result, ok, exec, redis_exec, transaction, find,
  update_where,
}
use jobit.World.Tx.{tx_exec}
use jobit.World.TableLaws.{updated}
use jobit.Storage.Bodies.{
  close_runs, is_stale, is_stale_row, requeue, requeue_body, returned_dead, update_jobs,
}
use jobit.Storage.Claims.{requeue_stale_job}
use jobit.Storage.Promote.{get_stale_claims}
use jobit.Queue.{bucket_for_priority, enqueue}
use jobit.Scheduler.{for_each, enqueue_unless_dead, reap_stale_claims}

-- UPDATEs of the same columns, of which the first leaves rows that the second does not select.
update_where-fuse :
    {A : Type 0} (p q r : A → Bool) (f : A → A)
    → ((x : A) → updated q f (updated p f x) ≡ updated r f x)
    → (xs : List A) → update_where q f (update_where p f xs) ≡ update_where r f xs
update_where-fuse p q r f h [] = refl
update_where-fuse p q r f h (x ∷ xs) = rw (h x, update_where-fuse p q r f h xs) refl

update_where-cong :
    {A : Type 0} (p q : A → Bool) (f : A → A) (xs : List A)
    → All (λ x. p x ≡ q x) xs
    → update_where p f xs ≡ update_where q f xs
update_where-cong p q f [] h = refl
update_where-cong p q f (x ∷ xs) h = rw (h.0, update_where-cong p q f xs h.1) refl

All-map :
    {A : Type 0} (P Q : A → Type 0) (f : (x : A) → P x → Q x) (xs : List A) → All P xs → All Q xs
All-map P Q f [] h = tt
All-map P Q f (x ∷ xs) h = (f x h.0, All-map P Q f xs h.1)

update_where-nothing : {A : Type 0} (f : A → A) (xs : List A) → update_where (λ x. false) f xs ≡ xs
update_where-nothing f [] = refl
update_where-nothing f (x ∷ xs) = rw (update_where-nothing f xs) refl

and_false : (b : Bool) → (b && false) ≡ false
and_false true = refl
and_false false = refl

wider : (a b c : Bool) → (a && b) ≡ b → ((c || a) && b) ≡ b
wider a b true h = refl
wider a b false h = h

abbrev is_listed : List Job → Job → Bool
is_listed [] y = false
is_listed (j ∷ js) y = y.id == j.id || is_listed js y

module _ (t : Time) where
  requeue_fresh : (j : Job) → is_stale t (requeue j) ≡ false
  requeue_fresh j = ground arith

  -- The rows after RequeueStaleJob has been called for some jobs.
  abbrev requeued : List Job → List Job → List Job
  requeued [] xs = xs
  requeued (j ∷ js) xs = requeued js (update_where (is_stale_row t j.id) requeue xs)

  requeued_row :
      (j : Job) (js : List Job) (y : Job)
      → updated
          (λ z. is_listed js z && is_stale t z)
          requeue
          (updated (is_stale_row t j.id) requeue y)
        ≡ updated (λ z. is_listed (j ∷ js) z && is_stale t z) requeue y
  requeued_row j js y = elim (Bool-cases (is_stale t y)) [
    | inr e ↦
        rw
          (
            e,
            and_false (y.id == j.id),
            e,
            and_false (is_listed js y),
            and_false (y.id == j.id || is_listed js y),
          )
          refl
    | inl e ↦ elim (Bool-cases (y.id == j.id)) [
      | inl i ↦ rw (e, i, requeue_fresh y, and_false (is_listed js (requeue y))) refl
      | inr i ↦ rw (e, i, e) refl
    ]
  ]

  requeued-update :
      (js xs : List Job)
      → requeued js xs ≡ update_where (λ y. is_listed js y && is_stale t y) requeue xs
  requeued-update [] xs = sym (update_where-nothing requeue xs)
  requeued-update (j ∷ js) xs =
      requeued-update js (update_where (is_stale_row t j.id) requeue xs)
      ∙ update_where-fuse (is_stale_row t j.id) (λ y. is_listed js y && is_stale t y)
          (λ y. is_listed (j ∷ js) y && is_stale t y) requeue (requeued_row j js) xs

  stale-listed :
      (xs : List Job)
      → All (λ y. (is_listed (filter (is_stale t) xs) y && is_stale t y) ≡ is_stale t y) xs
  stale-listed [] = tt
  stale-listed (x ∷ xs) = elim (Bool-cases (is_stale t x)) [
    | inl e ↦
        let head : filter (is_stale t) (x ∷ xs) ≡ x ∷ filter (is_stale t) xs = rw e refl in
        subst (λ l. All (λ y. (is_listed l y && is_stale t y) ≡ is_stale t y) (x ∷ xs)) (sym head)
          (
            rw (==_refl x.id) refl,
            All-map _ _
                (λ y h.
                  wider (is_listed (filter (is_stale t) xs) y) (is_stale t y) (y.id == x.id) h)
                xs (stale-listed xs),
          )
    | inr e ↦
        let head : filter (is_stale t) (x ∷ xs) ≡ filter (is_stale t) xs = rw e refl in
        subst (λ l. All (λ y. (is_listed l y && is_stale t y) ≡ is_stale t y) (x ∷ xs)) (sym head)
          (rw (e, and_false (is_listed (filter (is_stale t) xs) x)) refl, stale-listed xs)
  ]

  requeued_stale :
      (xs : List Job) → requeued (filter (is_stale t) xs) xs ≡ update_where (is_stale t) requeue xs
  requeued_stale xs =
      requeued-update (filter (is_stale t) xs) xs
      ∙ update_where-cong (λ y. is_listed (filter (is_stale t) xs) y && is_stale t y) (is_stale t)
          requeue xs (stale-listed xs)

  none_stale : (xs : List Job) → find (is_stale t) (update_where (is_stale t) requeue xs) ≡ none
  none_stale [] = refl
  none_stale (x ∷ xs) = elim (Bool-cases (is_stale t x)) [
    | inl e ↦ rw (e, requeue_fresh x) (none_stale xs)
    | inr e ↦ rw (e, e) (none_stale xs)
  ]

abbrev reaped_db : Time → ℕ → Db → Db
reaped_db t id d = update_jobs (is_stale_row t id) requeue (close_runs t id d)

abbrev pub is_dead_now : Job → World → Bool
is_dead_now j w = returned_dead (find (is_stale_row w.clock j.id) w.db.jobs)

-- The world after a job of the batch.
abbrev pub reaped : Bool → Job → World → World
reaped dead_now j w = record w {
  db = reaped_db w.clock j.id w.db;
  redis =
      if dead_now
      then w.redis
      else lpush (bucket_for_priority j.priority) j.tenant_id (uuid_text j.id) w.redis;
}

abbrev pub reap_one : Job → World → World
reap_one j w = enqueue_unless_dead j (requeue_stale_job j.id w)

enqueue-reaped :
    (b : Bool) (j : Job) (w : World)
    → enqueue_unless_dead j (ok b, healthy (record w { db = reaped_db w.clock j.id w.db }))
      ≡ healthy (reaped b j w)
unfolding enqueue redis_exec
enqueue-reaped true j w = refl
enqueue-reaped false j w = refl

requeue-healthy :
    (j : Job) (w : World)
    → requeue_stale_job j.id (healthy w)
      ≡ (ok (is_dead_now j w), healthy (record w { db = reaped_db w.clock j.id w.db }))
unfolding requeue_stale_job transaction requeue_body tx_exec
requeue-healthy j w = refl

pub reap_one-healthy :
    (j : Job) (w : World) → reap_one j (healthy w) ≡ healthy (reaped (is_dead_now j w) j w)
reap_one-healthy j w =
    ap (enqueue_unless_dead j) (requeue-healthy j w) ∙ enqueue-reaped (is_dead_now j w) j w

for_each-requeued :
    (js : List Job) (w : World)
    → (for_each reap_one js (healthy w)).db.jobs ≡ requeued w.clock js w.db.jobs
unfolding for_each
for_each-requeued [] w = refl
for_each-requeued (j ∷ js) w =
    ap (λ v. (for_each reap_one js v).db.jobs) (reap_one-healthy j w)
    ∙ for_each-requeued js (reaped (is_dead_now j w) j w)

-- The whole tick is one UPDATE of the stale rows.
pub reap_stale_claims_clears :
    (w : World)
    → ((reap_stale_claims (healthy w)).db.jobs ≡ update_where (is_stale w.clock) requeue w.db.jobs)
      × (find (is_stale w.clock) (reap_stale_claims (healthy w)).db.jobs ≡ none)
unfolding reap_stale_claims get_stale_claims exec
reap_stale_claims_clears w =
    let rows =
      for_each-requeued (filter (is_stale w.clock) w.db.jobs) w
      ∙ requeued_stale w.clock w.db.jobs in
    (rows, ap (find (is_stale w.clock)) rows ∙ none_stale w.clock w.db.jobs)

-- ===== src/Scheduler/Burial.antt =====
-- internal/storage/storage.go, MoveToDeadLetter: what one call of promoteDeadJobs leaves in the table `dead_letter`.
pub mod Tick
use mathlib.Core.Path.{subst}
use jobit.Prelude.{
  ℕ, String, ◌≡◌, refl, sym, ◌∙◌, ◌⊎◌, inl, inr, Bool, true, false, ◌&&◌, Bool-cases, Option, none,
  some, is_some, Option-cases, List, [], ◌∷◌, ◌++◌, All, All-take, filter, arith, ◌==◌,
}
use jobit.Job.{Job, State, Time, state_eq, dead}
use jobit.World.{World, Db, DeadLetterEntry, healthy, find, order_by, exec, transaction}
use jobit.World.Tx.{tx_exec}
use jobit.World.OrderLaws.{All-order_by}
use jobit.World.TableLaws.{
  UniqueKeys, UniqueKeys-append, by_key, by_key-append, find-by_key, find-append, find-holds,
}
use jobit.Storage.Bodies.{dead_entry, has_entry, insert_dead_letter, dead_letter_body}
use jobit.Storage.Claims.{move_to_dead_letter}
use jobit.Storage.Claiming.{selected_row}
use jobit.Storage.Fencing.{id_of}
use jobit.Storage.Jobs.{list_rows, list_jobs, matches_filter, newer}
use jobit.Storage.Partitions.{Partition}
use jobit.Scheduler.{Template, for_each, logged, dead_filter, promote_dead_jobs}
use jobit.Scheduler.Run.{tick, dead_letter_promoter}
use jobit.Scheduler.Batch.{IsSelected, filter-IsSelected}

abbrev pub entry_of : DeadLetterEntry → ℕ
entry_of e = e.job_id

-- The entry under the id `k` is a copy of the dead job with that id, made at the time `t`.
pub record IsEntryOf (t : Time) (jobs : List Job) (k : ℕ) (e : DeadLetterEntry) : Type 0 where
  pub job : Job
  pub found : by_key id_of k jobs ≡ some job
  pub is_dead : job.state ≡ dead
  pub same_tenant : e.tenant_id ≡ job.tenant_id
  pub tries : e.attempt_count ≡ job.attempt
  pub final_error : e.final_error ≡ job.last_error
  pub moved_at : e.moved_at ≡ t
  pub original : e.original_job ≡ job

-- What entering dead jobs in `d0` at the time `t` may leave: no job has changed, no id has two entries, every
-- entry is still there, and every other one is of a dead job.
pub record Buries (t : Time) (d0 d : Db) : Type 0 where
  pub jobs : d.jobs ≡ d0.jobs
  pub runs : d.runs ≡ d0.runs
  pub once : UniqueKeys entry_of d.dead_letter
  pub kept :
      (k : ℕ) (e : DeadLetterEntry)
      → by_key entry_of k d0.dead_letter ≡ some e
      → by_key entry_of k d.dead_letter ≡ some e
  pub fresh :
      (k : ℕ) (e : DeadLetterEntry)
      → by_key entry_of k d.dead_letter ≡ some e
      → (by_key entry_of k d0.dead_letter ≡ some e) ⊎ IsEntryOf t d0.jobs k e

abbrev pub is_dead_at : ℕ → Job → Bool
is_dead_at id j = j.id == id && state_eq j.state dead

not_some : {A : Type 0} (o : Option A) → is_some o ≡ false → o ≡ none
not_some none h = refl
not_some (some x) h = cc

dead_state : (s : State) → state_eq s dead ≡ true → s ≡ dead
dead_state s h = ground (arith, h)

appended :
    (k : ℕ) (xs : List DeadLetterEntry) (x : DeadLetterEntry) {e : DeadLetterEntry}
    → by_key entry_of k (xs ++ x ∷ []) ≡ some e
    → (by_key entry_of k xs ≡ some e) ⊎ ((x.job_id ≡ k) × (x ≡ e))
appended k [] x h = elim (Bool-cases (x.job_id == k)) [
  | inl same ↦ inr (ground (arith, same), ground (arith, same, h))
  | inr other ↦ absurd (ground (arith, other, h))
]
appended k (y ∷ ys) x {e} h = elim (Bool-cases (y.job_id == k)) [
  | inl same ↦ inl (rw same (rw same at h))
  | inr other ↦ rw other (appended k ys x {e = e} (rw other at h))
]

module _ (t : Time) (id : ℕ) (d : Db) where
  -- MoveToDeadLetter changes nothing, or adds the one entry of a dead job that has none.
  insert_cases :
      ((insert_dead_letter t id d ≡ d)
        × ((j : Job) → find (is_dead_at id) d.jobs ≡ some j → has_entry id d.dead_letter ≡ true))
      ⊎ ((j : Job) × (find (is_dead_at id) d.jobs ≡ some j)
          × (has_entry id d.dead_letter ≡ false)
          × (insert_dead_letter t id d
              ≡ record d { dead_letter = d.dead_letter ++ dead_entry t j ∷ [] }))
  unfolding insert_dead_letter
  insert_cases = elim (Option-cases (find (is_dead_at id) d.jobs)) [
    | inl absent ↦ inl (rw (absent, insert_dead_letter), λ j h. cc)
    | inr (j, found) ↦ elim (Bool-cases (has_entry id d.dead_letter)) [
      | inl e ↦ inl (rw (found, e, insert_dead_letter), λ k h. e)
      | inr e ↦ inr (j, found, e, rw (found, e, insert_dead_letter))
    ]
  ]

  module _ (d0 : Db) (u : UniqueKeys id_of d0.jobs) (h : Buries t d0 d) where
    dead_row :
        {j : Job}
        → find (is_dead_at id) d.jobs ≡ some j
        → (by_key id_of id d0.jobs ≡ some j) × (state_eq j.state dead ≡ true)
    dead_row {j} found =
        let there : find (is_dead_at id) d0.jobs ≡ some j =
          subst (λ xs. find (is_dead_at id) xs ≡ some j) h.jobs found in
        selected_row (λ x. state_eq x.state dead) (by_key id_of id d0.jobs)
          (sym (find-by_key id_of id (λ x. state_eq x.state dead) d0.jobs u) ∙ there)

    added :
        (j : Job)
        → find (is_dead_at id) d.jobs ≡ some j
        → has_entry id d.dead_letter ≡ false
        → Buries t d0 (record d { dead_letter = d.dead_letter ++ dead_entry t j ∷ [] })
    added j found absent =
        let (row, is_dead) = dead_row {j = j} found in
        let same_id : j.id ≡ id = ground (arith, find-holds (λ x. x.id == id) d0.jobs row) in
        let none_yet : by_key entry_of j.id d.dead_letter ≡ none =
          subst (λ i. by_key entry_of i d.dead_letter ≡ none) (sym same_id)
            (not_some (by_key entry_of id d.dead_letter) absent) in
        record {
          jobs = h.jobs;
          runs = h.runs;
          once = UniqueKeys-append entry_of (dead_entry t j) d.dead_letter none_yet h.once;
          kept =
              λ k e g. by_key-append entry_of k d.dead_letter (dead_entry t j ∷ []) (h.kept k e g);
          fresh = λ k e g. elim (appended k d.dead_letter (dead_entry t j) {e = e} g) [
            | inl old ↦ h.fresh k e old
            | inr (at_k, is_e) ↦ inr (
                subst (λ x. IsEntryOf t d0.jobs k x) is_e
                  (record {
                    job = j;
                    found = subst (λ i. by_key id_of i d0.jobs ≡ some j) (sym same_id ∙ at_k) row;
                    is_dead = dead_state j.state is_dead;
                    same_tenant = refl;
                    tries = refl;
                    final_error = refl;
                    moved_at = refl;
                    original = refl;
                  }))
          ];
        }

    pub insert-Buries : Buries t d0 (insert_dead_letter t id d)
    insert-Buries = elim insert_cases [
      | inl (same, _) ↦ subst (Buries t d0) (sym same) h
      | inr (j, found, absent, e) ↦ subst (Buries t d0) (sym e) (added j found absent)
    ]

  -- A dead job has an entry afterwards.
  pub insert_entered :
      (j : Job)
      → find (is_dead_at id) d.jobs ≡ some j
      → (e : DeadLetterEntry) × (by_key entry_of id (insert_dead_letter t id d).dead_letter
          ≡ some e)
  insert_entered j found = elim insert_cases [
    | inl (same, has) ↦ elim (Option-cases (by_key entry_of id d.dead_letter)) [
      | inl absent ↦ let impossible : false ≡ true = rw absent at (has j found) in absurd (cc)
      | inr (x, there) ↦
          (x, subst (λ (v : Db). by_key entry_of id v.dead_letter ≡ some x) (sym same) there)
    ]
    | inr (k, row, absent, e) ↦ (
      dead_entry t k,
      subst (λ (v : Db). by_key entry_of id v.dead_letter ≡ some (dead_entry t k)) (sym e)
          (find-append (λ x. x.job_id == id) d.dead_letter (dead_entry t k)
            (not_some (by_key entry_of id d.dead_letter) absent)
            (ground (arith, find-holds (is_dead_at id) d.jobs row))),
    )
  ]

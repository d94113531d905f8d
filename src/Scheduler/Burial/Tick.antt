-- ===== src/Scheduler/Burial/Tick.antt =====
-- internal/scheduler/scheduler.go, promoteDeadJobs: a tick enters its batch of dead jobs in the table `dead_letter`.
use mathlib.Core.Path.{subst}
use jobit.Prelude.{
  String, ◌≡◌, refl, sym, ◌∙◌, inl, true, Option, some, List, [], ◌∷◌, All, All-take, filter,
}
use jobit.Job.{Job, Time, state_eq, dead}
use jobit.World.{World, Db, DeadLetterEntry, healthy, find, order_by, exec, transaction}
use jobit.World.Tx.{tx_exec}
use jobit.World.OrderLaws.{All-order_by}
use jobit.World.TableLaws.{UniqueKeys, by_key, find-by_key}
use jobit.Storage.Bodies.{insert_dead_letter, dead_letter_body}
use jobit.Storage.Claims.{move_to_dead_letter}
use jobit.Storage.Fencing.{id_of}
use jobit.Storage.Jobs.{list_rows, list_jobs, matches_filter, newer}
use jobit.Storage.Partitions.{Partition}
use jobit.Scheduler.{Template, for_each, logged, dead_filter, promote_dead_jobs}
use jobit.Scheduler.Run.{tick, dead_letter_promoter}
use jobit.Scheduler.Batch.{filter-IsSelected}
use jobit.Scheduler.Burial.{entry_of, Buries, is_dead_at, insert-Buries, insert_entered}

abbrev bury : Job → World → World
bury j = logged (move_to_dead_letter j.id)

abbrev buried : Job → World → World
buried j w = record w { db = insert_dead_letter w.clock j.id w.db }

bury_step : (j : Job) (w : World) → bury j (healthy w) ≡ healthy (buried j w)
unfolding move_to_dead_letter transaction dead_letter_body tx_exec
bury_step j w = refl

start : (t : Time) (d : Db) → UniqueKeys entry_of d.dead_letter → Buries t d d
start t d once = record {
  jobs = refl;
  runs = refl;
  once = once;
  kept = λ k e g. g;
  fresh = λ k e g. inl g;
}

module _ (d0 : Db) (u : UniqueKeys id_of d0.jobs) where
  each-Buries :
      (js : List Job) (w : World)
      → Buries w.clock d0 w.db
      → Buries w.clock d0 (for_each bury js (healthy w)).db
  unfolding for_each
  each-Buries [] w h = h
  each-Buries (j ∷ js) w h =
      subst (λ v. Buries w.clock d0 (for_each bury js v).db) (sym (bury_step j w))
        (each-Buries js (buried j w) (insert-Buries w.clock j.id w.db d0 u h))

-- The job has an entry.
abbrev pub IsEntered : Db → Job → Type 0
IsEntered d j = (e : DeadLetterEntry) × (by_key entry_of j.id d.dead_letter ≡ some e)

abbrev IsDeadJob : List Job → Job → Type 0
IsDeadJob jobs j = (by_key id_of j.id jobs ≡ some j) × (state_eq j.state dead ≡ true)

module _ (d0 : Db) (u : UniqueKeys id_of d0.jobs) where
  found_dead :
      (t : Time) (j : Job) (d : Db)
      → Buries t d0 d
      → IsDeadJob d0.jobs j
      → find (is_dead_at j.id) d.jobs ≡ some j
  found_dead t j d h (found, is_dead) =
      subst (λ xs. find (is_dead_at j.id) xs ≡ some j) (sym h.jobs)
        (find-by_key id_of j.id (λ x. state_eq x.state dead) d0.jobs u ∙ rw (found, is_dead) refl)

  IsEntered-kept :
      (js : List Job) (j : Job) (w : World)
      → Buries w.clock d0 w.db
      → IsEntered w.db j
      → IsEntered (for_each bury js (healthy w)).db j
  IsEntered-kept js j w h (e, there) =
      let rest =
        each-Buries w.db (subst (UniqueKeys id_of) (sym h.jobs) u) js w
          (start w.clock w.db h.once) in
      (e, rest.kept j.id e there)

  each-IsEntered :
      (js : List Job) (w : World)
      → Buries w.clock d0 w.db
      → All (IsDeadJob d0.jobs) js
      → All (IsEntered (for_each bury js (healthy w)).db) js
  unfolding for_each
  each-IsEntered [] w h sel = tt
  each-IsEntered (j ∷ js) w h sel =
      let after : Buries w.clock d0 (buried j w).db = insert-Buries w.clock j.id w.db d0 u h in
      subst (λ v. All (IsEntered (for_each bury js v).db) (j ∷ js)) (sym (bury_step j w))
        (
          IsEntered-kept js j (buried j w) after
              (insert_entered w.clock j.id w.db j (found_dead w.clock j w.db h sel.0)),
          each-IsEntered js (buried j w) after sel.1,
        )

listed_dead :
    (jobs : List Job) → UniqueKeys id_of jobs → All (IsDeadJob jobs) (list_rows dead_filter jobs)
unfolding list_rows
listed_dead jobs u =
    All-take (IsDeadJob jobs) 200 (order_by newer (filter (matches_filter dead_filter) jobs)) (
      All-order_by (IsDeadJob jobs) newer (filter (matches_filter dead_filter) jobs)
        (filter-IsSelected (matches_filter dead_filter) jobs u))

-- Where job ids and the ids of the dead-letter entries are unique and the servers answer, after a tick of
-- runDeadLetterPromoter each of the newest 200 dead jobs has an entry; still no id has two; every entry
-- that was there is there, unchanged; each other one is a copy of a dead job, with its tries and its last
-- error, at the time of the tick; and jobs and runs are as they were.
pub promote_dead_jobs-Buries :
    (next_run : String → Option (Time → Time)) (unmarshal : String → Option Template)
    (ps : List Partition) (w : World)
    → UniqueKeys id_of w.db.jobs
    → UniqueKeys entry_of w.db.dead_letter
    → let v = (tick next_run unmarshal dead_letter_promoter (ps, healthy w)).1 in
      Buries w.clock w.db v.db × All (IsEntered v.db) (list_rows dead_filter w.db.jobs)
unfolding tick promote_dead_jobs list_jobs exec
promote_dead_jobs-Buries next_run unmarshal ps w u once =
    let h = start w.clock w.db once in
    let js = list_rows dead_filter w.db.jobs in
    (each-Buries w.db u js w h, each-IsEntered w.db u js w h (listed_dead w.db.jobs u))

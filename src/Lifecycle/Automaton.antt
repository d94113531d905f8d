-- ===== src/Lifecycle/Automaton.antt =====
-- Every operation, on every row, is a move of the automaton or nothing.
use jobit.Prelude.{
  ℕ, ◌≡◌, ◌≢◌, ◌⊎◌, inl, inr, refl, Bool, true, Option, none, some, List, [], ◌∷◌, arith, All,
  Bool-cases, if◌then◌else◌,
}
use jobit.Job.{Job, pending, scheduled, succeeded}
use jobit.World.{World}
use jobit.World.TableLaws.{updated, by_key, by_key-update, by_key-delete, by_key-append}
use jobit.Storage.Jobs.{inserted_row}
use jobit.Lifecycle.{Op, step, run}
use jobit.Lifecycle.Moves.{Move, RowStep}
use jobit.Lifecycle.Change.{job_id_of, UniqueIds, Change}
use jobit.Lifecycle.Sound.{IsAllowed, IsSoundTable, step-Change, step-IsSoundTable}

-- The row of a job, if there is one.
abbrev pub row_of : ℕ → World → Option Job
row_of id w = by_key job_id_of id w.db.jobs

-- What becomes of a row: it stays, it makes a move, or it is removed before any worker has seen it.
pub data Fate (x : Job) : Option Job → Type 0 where
  stays : Fate x (some x)
  moves : {y : Job} → RowStep x y → Fate x (some y)
  removed : (x.state ≡ pending) ⊎ (x.state ≡ scheduled) → Fate x none

update-Fate :
    (p : Job → Bool) (f : Job → Job)
    → ((x : Job) → p x ≡ true → RowStep x (f x))
    → (x : Job) → Fate x (some (updated p f x))
update-Fate p f steps x = elim (Bool-cases (p x)) [
  | inl e ↦ rw e (Fate.moves (steps x e))
  | inr e ↦ rw e Fate.stays
]

delete-Fate :
    (p : Job → Bool)
    → ((x : Job) → p x ≡ true → (x.state ≡ pending) ⊎ (x.state ≡ scheduled))
    → (x : Job) → Fate x (if p x then none else some x)
delete-Fate p only x = elim (Bool-cases (p x)) [
  | inl e ↦ rw e (Fate.removed (only x e))
  | inr e ↦ rw e Fate.stays
]

Change-Fate :
    {New : Job → Type 0} {xs ys : List Job}
    → Change New xs ys
    → UniqueIds xs
    → (id : ℕ) (x : Job) → by_key job_id_of id xs ≡ some x
    → Fate x (by_key job_id_of id ys)
Change-Fate (Change.same e) u id x h = rw (e, h) Fate.stays
Change-Fate {xs = xs} (Change.updated p f steps e) u id x h =
    rw (e, by_key-update job_id_of p f (λ x s. (steps x s).same_id) id xs, h)
      (update-Fate p f steps x)
Change-Fate {xs = xs} (Change.added j _ new fresh e) u id x h =
    rw (e, by_key-append job_id_of id xs (inserted_row j ∷ []) h) Fate.stays
Change-Fate {xs = xs} (Change.removed p only e) u id x h =
    rw (e, by_key-delete job_id_of p id xs u, h) (delete-Fate p only x)

-- Where job ids are unique, and however the servers answer, what an allowed operation does to the
-- row of any job is nothing, or one move of the automaton, or the removal of a row that is pending
-- or scheduled.
pub step-Fate :
    (op : Op) (w : World)
    → IsAllowed op
    → UniqueIds w.db.jobs
    → (id : ℕ) (x : Job) → row_of id w ≡ some x
    → Fate x (row_of id (step op w))
step-Fate op w a u id x h = Change-Fate (step-Change op w a u) u id x h

-- No move leaves `succeeded`.
Move-succeeded : {x y : Job} → Move x y → x.state ≢ succeeded
Move-succeeded (Move.claim h _ _) e = cc
Move-succeeded (Move.start h _ _) e = cc
Move-succeeded (Move.beat h _ _) e = ground arith
Move-succeeded (Move.succeed h _ _) e = ground arith
Move-succeeded (Move.retry h _ _ _) e = ground arith
Move-succeeded (Move.exhaust h _ _ _) e = ground arith
Move-succeeded (Move.release h _ _) e = ground arith
Move-succeeded (Move.force h _ _) e = ground arith
Move-succeeded (Move.replay h _ _) e = cc

pub Fate-succeeded : {x : Job} {o : Option Job} → Fate x o → x.state ≡ succeeded → o ≡ some x
Fate-succeeded Fate.stays e = refl
Fate-succeeded (Fate.moves s) e = absurd (Move-succeeded s.move e)
Fate-succeeded (Fate.removed h) e = ground arith

-- From a table with unique ids and sound rows, a job that has succeeded keeps its row, column for
-- column, over every trace of allowed operations: no stale worker, reaper, retry or operator
-- touches it again.
pub succeeded_final :
    (ops : List Op) (w : World)
    → All IsAllowed ops
    → IsSoundTable w.db.jobs
    → (id : ℕ) (x : Job) → row_of id w ≡ some x
    → x.state ≡ succeeded
    → row_of id (run ops w) ≡ some x
unfolding run
succeeded_final [] w a h id x found e = found
succeeded_final (op ∷ ops) w a h id x found e =
    succeeded_final ops (step op w) a.1 (step-IsSoundTable op w a.0 h) id x
      (Fate-succeeded (step-Fate op w a.0 h.unique id x found) e) e

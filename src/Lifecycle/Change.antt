-- ===== src/Lifecycle/Change.antt =====
-- What one operation does to the table `jobs`: nothing, or moves of the automaton on the rows that it
-- selects, or a new row, or the removal of rows that no worker has seen.
use jobit.Prelude.{ℕ, ◌≡◌, refl, ◌⊎◌, Bool, true, none, List, [], ◌∷◌, ◌++◌, ◌∙◌}
use jobit.Job.{Job, pending, scheduled}
use jobit.World.{World, Db, Result, ok, err, Call, ◌>>=◌, exec, update_where, delete_where}
use jobit.World.Keeps.{exec-Keeps, Replied, exec-Replied}
use jobit.World.TableLaws.{UniqueKeys, by_key}
use jobit.Storage.Jobs.{inserted_row}
use jobit.Storage.Sound.{IsNew}
use jobit.Lifecycle.Moves.{RowStep}

abbrev pub job_id_of : Job → ℕ
job_id_of j = j.id

abbrev pub UniqueIds : List Job → Type 0
UniqueIds = UniqueKeys job_id_of

-- `New` says which rows may be added.
pub data Change (New : Job → Type 0) (xs ys : List Job) : Type 0 where
  same : ys ≡ xs → Change New xs ys
  updated :
      (p : Job → Bool) (f : Job → Job)
      → ((x : Job) → p x ≡ true → RowStep x (f x))
      → ys ≡ update_where p f xs
      → Change New xs ys
  added :
      (j : Job)
      → New j
      → IsNew j
      → by_key job_id_of j.id xs ≡ none
      → ys ≡ xs ++ inserted_row j ∷ []
      → Change New xs ys
  removed :
      (p : Job → Bool)
      → ((x : Job) → p x ≡ true → (x.state ≡ pending) ⊎ (x.state ≡ scheduled))
      → ys ≡ delete_where p xs
      → Change New xs ys

-- A call changes the table.
abbrev pub Changes : {A : Type 0} → (Job → Type 0) → Call A → World → Type 0
Changes New m w = Change New w.db.jobs (m w).1.db.jobs

pub exec-Changes :
    {New : Job → Type 0} {A : Type 0} (f : Db → Db × Result A) (w : World)
    → Change New w.db.jobs (f w.db).0.jobs
    → Changes New (exec f) w
exec-Changes {New} f w h = go (exec-Replied f w)
  where
    go : {r : Result _} {d : Db} → Replied f w.db r d → Change New w.db.jobs d.jobs
    go (Replied.answered _ e) = rw e h
    go (Replied.unanswered _ e) = rw e h
    go (Replied.declined _ e) = rw e (Change.same refl)

-- A call that leaves the table as it is.
abbrev pub Leaves : {A : Type 0} → Call A → Type 0
Leaves m = (w : World) → (m w).1.db.jobs ≡ w.db.jobs

pub exec-Leaves :
    {A : Type 0} (f : Db → Db × Result A) → ((d : Db) → (f d).0.jobs ≡ d.jobs) → Leaves (exec f)
exec-Leaves f keep w = exec-Keeps (λ d. d.jobs ≡ w.db.jobs) f (λ d h. keep d ∙ h) w refl

-- A call that changes the table, and then one that does not.
pub bind-Changes :
    {New : Job → Type 0} {A B : Type 0} (m : Call A) (f : A → Call B) (w : World)
    → Changes New m w
    → ((a : A) → Leaves (f a))
    → Changes New (m >>= f) w
bind-Changes {New} {A} {B} m f w h leaves = go (m w) h
  where
    go :
        (p : Result A × World)
        → Change New w.db.jobs p.1.db.jobs
        → Change New w.db.jobs
            (let (r, w') = p in
              let q : Result B × World = elim r [ ok a ↦ f a w' | err e ↦ (err e, w') ] in
              q).1.db.jobs
    go (ok a, w') k = rw (leaves a w') k
    go (err e, w') k = k

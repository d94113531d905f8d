-- ===== src/World/Keeps.antt =====
-- How a statement or a transaction may end, whatever the servers answer, and what calls keep true
-- of the tables.
use jobit.Prelude.{◌≡◌, refl, List}
use jobit.World.Rows.{Db}
use jobit.World.Answer.{
  Outcome, done, refused, lost, skipped, fault, Result, ok, err, next_outcome, later,
}
use jobit.World.Tx.{Tx, Progress, next, leave}
use jobit.World.Exec.{World, Call, ◌>>=◌, exec, transaction, commit}

-- A transaction commits what its body left; or commits and the answer is lost; or its body leaves
-- early and is rolled back; or it fails and is rolled back. `s` answers the statements of the body.
pub data Ended {A : Type 0} (body : Tx (Result A) A) (d : Db) (s : List Outcome) (r : Result A)
    (d' : Db) : Type 0 where
  committed : (a : A) (s' : List Outcome) → body d s ≡ next a d' s' → r ≡ ok a → Ended body d s r d'
  unanswered :
      (a : A) (s' : List Outcome) → body d s ≡ next a d' s' → r ≡ err fault → Ended body d s r d'
  left : (s' : List Outcome) → body d s ≡ leave r s' → d' ≡ d → Ended body d s r d'
  aborted : r ≡ err fault → d' ≡ d → Ended body d s r d'

commit-Ended :
    {A : Type 0} (body : Tx (Result A) A) (d : Db) (s : List Outcome) (p : Progress (Result A) A)
    → body d s ≡ p
    → (w : World) → w.db ≡ d
    → Ended body d s (commit p w).0 (commit p w).1.db
commit-Ended body d s (leave r s') e w f = Ended.left s' e f
commit-Ended body d s (next a d' s') e w f = go (next_outcome s') refl
  where
    go :
        (o : Outcome)
        → next_outcome s' ≡ o
        → Ended body d s (commit (next a d' s') w).0 (commit (next a d' s') w).1.db
    go done g = rw g (Ended.committed a s' e refl)
    go refused g = rw g (Ended.aborted refl f)
    go lost g = rw g (Ended.unanswered a s' e refl)
    go skipped g = rw g (Ended.committed a s' e refl)

pub transaction-Ended :
    {A : Type 0} (body : Tx (Result A) A) (w : World)
    → Ended body w.db (later w.script) (transaction body w).0 (transaction body w).1.db
unfolding transaction
transaction-Ended body w = go (next_outcome w.script) refl
  where
    done_commit :
        Ended body w.db
          (later w.script)
          (commit (body w.db (later w.script)) (record w { script = later w.script })).0
          (commit (body w.db (later w.script)) (record w { script = later w.script })).1.db
    done_commit =
        commit-Ended body w.db (later w.script) (body w.db (later w.script)) refl
          (record w { script = later w.script }) refl

    go :
        (o : Outcome)
        → next_outcome w.script ≡ o
        → Ended body w.db (later w.script) (transaction body w).0 (transaction body w).1.db
    go done g = rw g done_commit
    go refused g = rw g (Ended.aborted refl refl)
    go lost g = rw g (Ended.aborted refl refl)
    go skipped g = rw g done_commit

-- A statement of its own is done and answered, or done and its answer is lost, or refused.
pub data Replied {A : Type 0} (f : Db → Db × Result A) (d : Db) (r : Result A) (d' : Db)
    : Type 0 where
  answered : r ≡ (f d).1 → d' ≡ (f d).0 → Replied f d r d'
  unanswered : r ≡ err fault → d' ≡ (f d).0 → Replied f d r d'
  declined : r ≡ err fault → d' ≡ d → Replied f d r d'

pub exec-Replied :
    {A : Type 0} (f : Db → Db × Result A) (w : World) → Replied f w.db (exec f w).0 (exec f w).1.db
unfolding exec
exec-Replied f w = go (next_outcome w.script) refl
  where
    go : (o : Outcome) → next_outcome w.script ≡ o → Replied f w.db (exec f w).0 (exec f w).1.db
    go Outcome.done g = rw g (Replied.answered refl refl)
    go Outcome.refused g = rw g (Replied.declined refl refl)
    go Outcome.lost g = rw g (Replied.unanswered refl refl)
    go Outcome.skipped g = rw g (Replied.answered refl refl)

-- The call keeps a property of the tables, however the servers answer.
abbrev pub Keeps : {A : Type 0} → (Db → Type 0) → Call A → Type 0
Keeps P m = (w : World) → P w.db → P (m w).1.db

module _ {A : Type 0} (P : Db → Type 0) where
  pub exec-Keeps : (f : Db → Db × Result A) → ((d : Db) → P d → P (f d).0) → Keeps P (exec f)
  exec-Keeps f keep w h = go (exec-Replied f w)
    where
      go : {r : Result A} {d : Db} → Replied f w.db r d → P d
      go (Replied.answered _ e) = rw e (keep w.db h)
      go (Replied.unanswered _ e) = rw e (keep w.db h)
      go (Replied.declined _ e) = rw e h

module _ {A B : Type 0} (P : Db → Type 0) where
  pub bind-Keeps :
      (m : Call A) (f : A → Call B) → Keeps P m → ((a : A) → Keeps P (f a)) → Keeps P (m >>= f)
  bind-Keeps m f km kf w h = go (m w) (km w h)
    where
      go :
          (p : Result A × World)
          → P p.1.db
          → P
              (let (r, w') = p in
                let q : Result B × World = elim r [ ok a ↦ f a w' | err e ↦ (err e, w') ] in q).1.db
      go (ok a, w') k = kf a w' k
      go (err e, w') k = k

-- What a query answers, where it answers.
pub Replied-value :
    {A : Type 0} (f : Db → Db × Result A) (d : Db) {r : Result A} {d' : Db}
    → Replied f d r d'
    → {a : A} → r ≡ ok a
    → (f d).1 ≡ ok a
Replied-value f d (Replied.answered e _) h = cc
Replied-value f d (Replied.unanswered e _) h = cc
Replied-value f d (Replied.declined e _) h = cc

-- ===== src/Lifecycle/Budget.antt =====
-- How often a job is claimed, over a whole trace.
use Prim.Native.Nat.{max}
use jobit.Prelude.Int.{pos_part}
use mathlib.Core.Path.{subst}
use jobit.Prelude.{
  ℕ, ap, sym, ◌+◌, ◌*◌, ◌≤◌, ◌≡◌, ◌≢◌, inl, inr, refl, ◌&&◌, ◌||◌, Option, none, some, List, [],
  ◌∷◌, ◌++◌, arith, All, if◌then◌else◌, Option-cases, ◌==◌,
}
use jobit.Job.{Job, State, state_eq, pending, claimed, succeeded, dead}
use jobit.World.{World}
use jobit.World.TableLaws.{find-All, by_key, by_key-update, by_key-delete}
use jobit.Storage.Bodies.{is_in_flight}
use jobit.Storage.Jobs.{inserted_row}
use jobit.Storage.Sound.{IsSound, IsNew, budget}
use jobit.Lifecycle.{Op, step}
use jobit.Lifecycle.Moves.{Move, RowStep}
use jobit.Lifecycle.Change.{job_id_of, UniqueIds, Change}
use jobit.Lifecycle.Sound.{IsAllowed, IsInserted, IsSoundTable, step-Change, step-IsSoundTable}
use jobit.Lifecycle.Automaton.{row_of, Fate, step-Fate}

abbrev from_to : State → State → Option Job → Option Job → ℕ
from_to s t (some x) (some y) = if state_eq x.state s && state_eq y.state t then 1 else 0
from_to s t _ _ = 0

-- How many steps of a trace take the row of a job from one state to another.
count_from_to : State → State → ℕ → List Op → World → ℕ
count_from_to s t id [] w = 0
count_from_to s t id (op ∷ ops) w =
    from_to s t (row_of id w) (row_of id (step op w)) + count_from_to s t id ops (step op w)

-- The claims of a job, and the replays of a dead job by its tenant or an operator.
unfoldable pub claims_of : ℕ → List Op → World → ℕ
unfolding count_from_to
claims_of = count_from_to pending claimed

unfoldable pub replays_of : ℕ → List Op → World → ℕ
unfolding count_from_to
replays_of = count_from_to dead pending

-- The tries that a row has used up.
abbrev spent : Job → ℕ
spent x =
    if state_eq x.state dead
    then budget x
    else x.attempt + (if is_in_flight x.state || state_eq x.state succeeded then 1 else 0)

spent-le : (x : Job) → IsSound x → spent x ≤ budget x
spent-le x h = ground arith

-- A claim uses up one more try, and only a replay gives tries back.
Move-spent :
    {x y : Job}
    → IsSound x
    → budget y ≡ budget x
    → Move x y
    → spent x + from_to pending claimed (some x) (some y)
      ≤ spent y + from_to dead pending (some x) (some y) * budget x
Move-spent s b (Move.claim h k a) = ground arith
Move-spent s b (Move.start h k a) = ground arith
Move-spent s b (Move.beat h k a) = ground arith
Move-spent s b (Move.succeed h k a) = ground arith
Move-spent s b (Move.retry h k a l) = ground arith
Move-spent s b (Move.exhaust h k a l) = ground arith
Move-spent s b (Move.release h k a) = ground arith
Move-spent s b (Move.force h k a) = ground arith
Move-spent s b (Move.replay h k a) = ground arith

-- The operation inserts no second job with this id: ids are fresh UUIDs.
abbrev pub IsFreshFor : ℕ → Op → Type 0
IsFreshFor id (Op.insert j) = IsNew j × (j.id ≢ id)
IsFreshFor id _ = Unit

IsFreshFor-IsAllowed : (id : ℕ) (op : Op) → IsFreshFor id op → IsAllowed op
IsFreshFor-IsAllowed id (Op.insert j) h = h.0
IsFreshFor-IsAllowed id _ h = tt

by_key-append_ne :
    (id : ℕ) (xs : List Job) (j : Job)
    → j.id ≢ id
    → by_key job_id_of id xs ≡ none
    → by_key job_id_of id (xs ++ j ∷ []) ≡ none
by_key-append_ne id [] j ne h = ground arith
by_key-append_ne id (x ∷ xs) j ne h = ground (arith, by_key-append_ne id xs j ne)

Change-absent :
    {New : Job → Type 0} {xs ys : List Job} (id : ℕ)
    → Change New xs ys
    → ((j : Job) → New j → j.id ≢ id)
    → UniqueIds xs
    → by_key job_id_of id xs ≡ none
    → by_key job_id_of id ys ≡ none
Change-absent id (Change.same e) other u h = rw e h
Change-absent {xs = xs} id (Change.updated p f steps e) other u h =
    rw (e, by_key-update job_id_of p f (λ x s. (steps x s).same_id) id xs, h) refl
Change-absent {xs = xs} id (Change.added j n new _ e) other u h =
    rw e (by_key-append_ne id xs (inserted_row j) (other j n) h)
Change-absent {xs = xs} id (Change.removed p _ e) other u h =
    rw (e, by_key-delete job_id_of p id xs u, h) refl

inserts_other : (id : ℕ) (op : Op) → IsFreshFor id op → (j : Job) → IsInserted op j → j.id ≢ id
inserts_other id (Op.insert k) h j e = rw e h.1
inserts_other id _ h j e = absurd e

-- A job that is gone is not claimed again.
absent_unclaimed :
    (id : ℕ) (ops : List Op) (w : World)
    → All (IsFreshFor id) ops
    → IsSoundTable w.db.jobs
    → row_of id w ≡ none
    → count_from_to pending claimed id ops w ≡ 0
unfolding count_from_to
absent_unclaimed id [] w f s h = refl
absent_unclaimed id (op ∷ ops) w f s h =
    let a = IsFreshFor-IsAllowed id op f.0 in
    let rest =
      absent_unclaimed id ops (step op w) f.1 (step-IsSoundTable op w a s)
        (Change-absent id (step-Change op w a s.unique) (inserts_other id op f.0) s.unique h) in
    rw (h, rest) refl

All-IsSound-row :
    (id : ℕ) (xs : List Job) {x : Job}
    → All IsSound xs
    → by_key job_id_of id xs ≡ some x
    → IsSound x
All-IsSound-row id xs h e = (find-All IsSound (λ j. j.id == id) xs h e).0

-- The claims that lie ahead of a row, given the replays: a row that is gone has none.
abbrev pub IsBounded : Option Job → ℕ → ℕ → Type 0
IsBounded none claims replays = claims ≡ 0
IsBounded (some y) claims replays = spent y + claims ≤ (1 + replays) * budget y

stays_unclaimed : (x : Job) → from_to pending claimed (some x) (some x) ≡ 0
stays_unclaimed x = ground arith

budget_kept : {x y : Job} → RowStep x y → budget y ≡ budget x
budget_kept st = ap (λ m. max 1 (pos_part m)) st.same_limit

add_bounds :
    (spent_x spent_y claim replay claims replays b b' : ℕ)
    → spent_x + claim ≤ spent_y + replay * b
    → b' ≡ b
    → spent_y + claims ≤ (1 + replays) * b'
    → spent_x + (claim + claims) ≤ (1 + (replay + replays)) * b
add_bounds spent_x spent_y claim replay claims replays b b' h e k =
    let k' : spent_y + claims ≤ (1 + replays) * b = rw e at k in omega arith

Fate-IsBounded :
    {x : Job} {o : Option Job}
    → IsSound x
    → Fate x o
    → (claims replays : ℕ) → IsBounded o claims replays
    → IsBounded
        (some x)
        (from_to pending claimed (some x) o + claims)
        (from_to dead pending (some x) o + replays)
Fate-IsBounded {x = x} s Fate.stays n m h = ground (arith, stays_unclaimed x)
Fate-IsBounded {x = x} s (Fate.moves {y} st) n m h =
    add_bounds (spent x) (spent y) (from_to pending claimed (some x) (some y))
      (from_to dead pending (some x) (some y)) n m (budget x) (budget y)
      (Move-spent s (budget_kept st) st.move) (budget_kept st) h
Fate-IsBounded {x = x} s (Fate.removed _) n m h = rw h (ground (arith, spent-le x s))

row-IsBounded : (id : ℕ) (xs : List Job) → All IsSound xs → IsBounded (by_key job_id_of id xs) 0 0
row-IsBounded id xs h = elim (Option-cases (by_key job_id_of id xs)) [
  | inl e ↦ rw e refl
  | inr (x, e) ↦ rw e (omega (arith, spent-le x (All-IsSound-row id xs h e)))
]

trace-IsBounded :
    (id : ℕ) (ops : List Op) (w : World)
    → All (IsFreshFor id) ops
    → IsSoundTable w.db.jobs
    → IsBounded
        (row_of id w)
        (count_from_to pending claimed id ops w)
        (count_from_to dead pending id ops w)
unfolding count_from_to
trace-IsBounded id [] w f s = row-IsBounded id w.db.jobs s.rows
trace-IsBounded id (op ∷ ops) w f s =
    let a = IsFreshFor-IsAllowed id op f.0 in
    let ih = trace-IsBounded id ops (step op w) f.1 (step-IsSoundTable op w a s) in
    elim (Option-cases (row_of id w)) [
      | inl e ↦
          subst
            (λ o.
              IsBounded o (count_from_to pending claimed id (op ∷ ops) w)
                (count_from_to dead pending id (op ∷ ops) w))
            (sym e) (absent_unclaimed id (op ∷ ops) w f s e)
      | inr (x, e) ↦ rw e (
          Fate-IsBounded (All-IsSound-row id w.db.jobs s.rows e) (step-Fate op w a s.unique id x e)
            _ _ ih)
    ]

-- From a table with unique ids and sound rows, over every trace in which the job's id stays its
-- own, however the processes interleave and the servers answer: the job is claimed at most
-- `max_retries` times (once if that is less than one), and as often again for each replay of the
-- dead job.
pub claims_bounded :
    (id : ℕ) (ops : List Op) (w : World)
    → All (IsFreshFor id) ops
    → IsSoundTable w.db.jobs
    → (x : Job) → row_of id w ≡ some x
    → claims_of id ops w ≤ (1 + replays_of id ops w) * budget x
unfolding claims_of replays_of
claims_bounded id ops w f s x h =
    let b : IsBounded (row_of id w) _ _ = trace-IsBounded id ops w f s in
    let c : IsBounded (some x) _ _ = rw h at b in omega arith

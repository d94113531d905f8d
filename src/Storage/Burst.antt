-- ===== src/Storage/Burst.antt =====
-- internal/storage/storage.go, TryClaim, called by many workers for one job, in whatever order
-- Postgres serializes them (internal/storage/storage_split_brain_test.go).
use jobit.Prelude.{
  ℕ, suc, ◌≡◌, refl, ◌∙◌, ap, inl, inr, Bool, true, false, some, List, [], ◌∷◌, ◌≤◌, arith,
  Option-cases,
}
use jobit.Job.{Job, state_eq, pending, Time}
use jobit.World.{healthy, World, Db, Result, ok, err, find}
use jobit.World.TableLaws.{UniqueKeys, UniqueKeys-update, by_key, find-by_key}
use jobit.Storage.Bodies.{is_claimable, claim}
use jobit.Storage.Claims.{try_claim}
use jobit.Storage.Endings.{claim_db}
use jobit.Storage.Fencing.{id_of}
use jobit.Storage.Claiming.{
  IsPending, IsClaimed, IsOutcome, claim_db-IsClaimed, try_claim-IsOutcome, try_claim-some,
}

-- The worker, its fresh token, its deadline and the fresh id of its run.
pub record Attempt : Type 0 where
  pub worker : ℕ
  pub token : ℕ
  pub deadline : Time
  pub run : ℕ

abbrev pub tally : Result (Bool × ℕ) → ℕ → ℕ
tally (ok (true, _)) n = suc n
tally _ n = n

-- The number of workers that are told yes.
unfoldable pub winners : ℕ → List Attempt → World → ℕ
winners id [] w = 0
winners id (a ∷ rest) w =
    let (r, w') = try_claim id a.worker a.token a.deadline a.run w in tally r (winners id rest w')

claimed-not-IsPending :
    (id : ℕ) (a : Attempt) (t : Time) (d d' : Db)
    → IsClaimed id a.worker a.token a.deadline a.run t d d'
    → ¬ IsPending (by_key id_of id d'.jobs)
claimed-not-IsPending id a t d d' c p =
    let q : IsPending (some (claim t a.worker a.token a.deadline c.job)) = rw c.row at p in cc

IsClaimed-unique :
    (id : ℕ) (a : Attempt) (t : Time) (d d' : Db)
    → IsClaimed id a.worker a.token a.deadline a.run t d d'
    → UniqueKeys id_of d.jobs
    → UniqueKeys id_of d'.jobs
IsClaimed-unique id a t d d' c u = rw c.rows (
    UniqueKeys-update id_of (is_claimable id) (claim t a.worker a.token a.deadline) (λ x e. refl)
      d.jobs u)

-- Once the job is not pending, nobody is told yes.
winners_of_taken :
    (id : ℕ) (as' : List Attempt) (w : World)
    → UniqueKeys id_of w.db.jobs
    → ¬ IsPending (by_key id_of id w.db.jobs)
    → winners id as' w ≡ 0
unfolding winners
winners_of_taken id [] w u n = refl
winners_of_taken id (a ∷ rest) w u n =
    go (winners_of_taken id rest) (try_claim id a.worker a.token a.deadline a.run w)
      (try_claim-IsOutcome id a.worker a.token a.deadline a.run w u)
  where
    go :
        ((w' : World)
          → UniqueKeys id_of w'.db.jobs
          → ¬ IsPending (by_key id_of id w'.db.jobs)
          → winners id rest w' ≡ 0)
        → (p : Result (Bool × ℕ) × World)
        → IsOutcome id a.worker a.token a.deadline a.run w p.0 p.1.db
        → tally p.0 (winners id rest p.1) ≡ 0
    go ih (r, w') (inl (c, _)) = absurd (n (rw c.found c.was_pending))
    go ih (r, w') (inr (e, inl (h, _))) = rw h (ih w' (rw e u) (λ p. n (rw e at p)))
    go ih (r, w') (inr (e, inr h)) = rw h (ih w' (rw e u) (λ p. n (rw e at p)))

tally-le : (r : Result (Bool × ℕ)) (n : ℕ) → n ≡ 0 → tally r n ≤ 1
tally-le (ok (true, _)) n h = omega arith
tally-le (ok (false, _)) n h = omega arith
tally-le (err _) n h = omega arith

-- Where job ids are unique: however many workers try to claim a job one after another, and however
-- the servers answer, at most one is told yes.
pub winners-le-one :
    (id : ℕ) (attempts : List Attempt) (w : World)
    → UniqueKeys id_of w.db.jobs
    → winners id attempts w ≤ 1
unfolding winners
winners-le-one id [] w u = omega arith
winners-le-one id (a ∷ rest) w u =
    go (winners-le-one id rest) (try_claim id a.worker a.token a.deadline a.run w)
      (try_claim-IsOutcome id a.worker a.token a.deadline a.run w u)
  where
    go :
        ((w' : World) → UniqueKeys id_of w'.db.jobs → winners id rest w' ≤ 1)
        → (p : Result (Bool × ℕ) × World)
        → IsOutcome id a.worker a.token a.deadline a.run w p.0 p.1.db
        → tally p.0 (winners id rest p.1) ≤ 1
    go ih (r, w') (inl (c, answer)) = tally-le r (winners id rest w') (
        winners_of_taken id rest w' (IsClaimed-unique id a w.clock w.db w'.db c u)
          (claimed-not-IsPending id a w.clock w.db w'.db c))
    go ih (r, w') (inr (e, inl (h, _))) = rw h (ih w' (rw e u))
    go ih (r, w') (inr (e, inr h)) = rw h (ih w' (rw e u))

pending_found :
    (id : ℕ) (d : Db)
    → UniqueKeys id_of d.jobs
    → IsPending (by_key id_of id d.jobs)
    → (j : Job) × (find (is_claimable id) d.jobs ≡ some j)
pending_found id d u p = elim (Option-cases (by_key id_of id d.jobs)) [
  | inl e ↦ absurd (rw e at p)
  | inr (j, e) ↦
      let q : state_eq j.state pending ≡ true = rw e at p in
      (j, find-by_key id_of id (λ x. state_eq x.state pending) d.jobs u ∙ rw (e, q) refl)
]

-- Where job ids are unique, every statement is done and the job is pending, exactly one of the
-- workers, of whom there is at least one, is told yes.
pub winners-eq-one :
    (id : ℕ) (a : Attempt) (rest : List Attempt) (w : World)
    → UniqueKeys id_of w.db.jobs
    → IsPending (by_key id_of id w.db.jobs)
    → winners id (a ∷ rest) (healthy w) ≡ 1
unfolding winners
winners-eq-one id a rest w u p =
    let (j, found) = pending_found id w.db u p in
    let d' = claim_db w.clock id a.worker a.token a.deadline a.run w.db in
    let w' : World = record w { db = d'; script = [] } in
    let c = claim_db-IsClaimed id a.worker a.token a.deadline a.run w.clock w.db j u found in
    let rest_lose =
      winners_of_taken id rest w' (IsClaimed-unique id a w.clock w.db d' c u)
        (claimed-not-IsPending id a w.clock w.db d' c) in
    rw (try_claim-some id a.worker a.token a.deadline a.run w j found) (ap suc rest_lose)

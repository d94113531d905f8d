-- ===== src/Scheduler/Reaping/Queued.antt =====
-- internal/scheduler/scheduler.go, reapStaleClaims: what it takes back is in its queue again, unless it is
-- dead.
use mathlib.Core.Path.{subst}
use jobit.Prelude.{
  sym, inl, inr, ◌⊎◌, ◌≢◌, ◌≡◌, refl, ◌∙◌, ap, Bool, true, false, List, [], ◌∷◌, All, filter, arith,
  ◌==◌, none, some,
}
use jobit.Job.{Job, state_eq, dead}
use jobit.World.{healthy, World, update_where, find, exec}
use jobit.World.TableLaws.{UniqueKeys, UniqueKeys-update, by_key, by_key-update, find-by_key}
use jobit.Storage.Bodies.{is_stale, is_stale_row, requeue, returned_dead}
use jobit.Storage.Fencing.{id_of}
use jobit.Storage.Promote.{get_stale_claims}
use jobit.Scheduler.Batch.{All-both, UniqueKeys-filter, filter-IsSelected}
use jobit.Scheduler.{for_each, reap_stale_claims}
use jobit.Scheduler.Delivery.{IsQueued, pushed-queued, pushed-keeps}
use jobit.Scheduler.Reaping.{
  reaped, reap_one, is_dead_now, reap_one-healthy, reap_stale_claims_clears,
}

-- A row that stands in the table under its id, and has a stale claim.
abbrev IsThere : World → Job → Type 0
IsThere w j = (by_key id_of j.id w.db.jobs ≡ some j) × (is_stale w.clock j ≡ true)

reaped-keeps :
    (b : Bool) (j k : Job) (w : World) → IsQueued w.redis k → IsQueued (reaped b j w).redis k
reaped-keeps true j k w h = h
reaped-keeps false j k w h = pushed-keeps j k w h

each-keeps :
    (js : List Job) (w : World) (k : Job)
    → IsQueued w.redis k
    → IsQueued (for_each reap_one js (healthy w)).redis k
unfolding for_each
each-keeps [] w k h = h
each-keeps (j ∷ js) w k h =
    subst (λ v. IsQueued (for_each reap_one js v).redis k) (sym (reap_one-healthy j w))
      (each-keeps js (reaped (is_dead_now j w) j w) k (reaped-keeps (is_dead_now j w) j k w h))

abbrev pub IsServedAgain : World → Job → Type 0
IsServedAgain w j = (state_eq (requeue j).state dead ≡ true) ⊎ IsQueued w.redis j

reaped_first :
    (b : Bool) (j : Job) (w : World)
    → state_eq (requeue j).state dead ≡ b
    → IsServedAgain (reaped b j w) j
reaped_first true j w e = inl e
reaped_first false j w e = inr (pushed-queued j w)

served_after :
    (js : List Job) (w : World) (k : Job)
    → IsServedAgain w k
    → IsServedAgain (for_each reap_one js (healthy w)) k
served_after js w k (inl e) = inl e
served_after js w k (inr h) = inr (each-keeps js w k h)

reaped-IsThere :
    (b : Bool) (j k : Job) (w : World) → k.id ≢ j.id → IsThere w k → IsThere (reaped b j w) k
reaped-IsThere b j k w other (found, stale) =
    let apart : (k.id == j.id) ≡ false = ground (arith, other) in
    (
      by_key-update id_of (is_stale_row w.clock j.id) requeue (λ x e. refl) k.id w.db.jobs
          ∙ rw (found, apart) refl,
      stale,
    )

for_each-All :
    (js : List Job) (w : World)
    → UniqueKeys id_of w.db.jobs
    → UniqueKeys id_of js
    → All (IsThere w) js
    → All (IsServedAgain (for_each reap_one js (healthy w))) js
unfolding for_each
for_each-All [] w u v h = tt
for_each-All (j ∷ js) w u v ((found, stale), h) =
    let b = is_dead_now j w in
    let selected : find (is_stale_row w.clock j.id) w.db.jobs ≡ some j =
      find-by_key id_of j.id (is_stale w.clock) w.db.jobs u ∙ rw (found, stale) refl in
    let same : state_eq (requeue j).state dead ≡ b = sym (ap returned_dead selected) in
    subst (λ x. All (IsServedAgain (for_each reap_one js x)) (j ∷ js)) (sym (reap_one-healthy j w))
      (
        served_after js (reaped b j w) j (reaped_first b j w same),
        for_each-All js (reaped b j w)
            (UniqueKeys-update id_of (is_stale_row w.clock j.id) requeue (λ x e. refl) w.db.jobs u)
            v.1
            (All-both (λ k. k.id ≢ j.id) (IsThere w) (IsThere (reaped b j w))
              (λ k. reaped-IsThere b j k w) js v.0 h),
      )

-- Where job ids are unique and the servers answer, a tick of reapStaleClaims counts a try on the row of
-- every stale claim and takes the claim away, dead where the tries are used up and pending elsewhere,
-- and leaves all other rows alone; no claim is then stale at the tick's time, and each job that had a
-- stale one is dead or in the queue of its tenant and priority.
pub reap_stale_claims_takes_back :
    (w : World)
    → UniqueKeys id_of w.db.jobs
    → let v = reap_stale_claims (healthy w) in
      (v.db.jobs ≡ update_where (is_stale w.clock) requeue w.db.jobs)
      × (find (is_stale w.clock) v.db.jobs ≡ none)
      × All (IsServedAgain v) (filter (is_stale w.clock) w.db.jobs)
unfolding reap_stale_claims get_stale_claims exec
reap_stale_claims_takes_back w u =
    let (rows, cleared) = reap_stale_claims_clears w in
    (
      rows,
      cleared,
      for_each-All (filter (is_stale w.clock) w.db.jobs) w u
          (UniqueKeys-filter (is_stale w.clock) w.db.jobs u)
          (filter-IsSelected (is_stale w.clock) w.db.jobs u),
    )

-- ===== src/Scheduler/Batch.antt =====
-- internal/scheduler/scheduler.go: the batch of rows that a tick works on, each under its own id.
use jobit.Prelude.{
  ℕ, zero, suc, ◌≡◌, ◌≢◌, refl, sym, inl, inr, Bool-cases, Bool, true, false, ◌&&◌, List, [], ◌∷◌,
  All, All-take, filter, take, arith, ==_refl, if◌then◌else◌, some,
}
use jobit.Job.{Job, State, Time, state_eq}
use jobit.Prelude.Int.{leb_ℤ}
use jobit.World.{insert_by, order_by}
use jobit.World.OrderLaws.{All-insert_by, All-order_by}
use jobit.World.TableLaws.{UniqueKeys, by_key}
use jobit.Storage.Fencing.{id_of}
use jobit.Storage.Promote.{sooner, ready_rows}

pub All-both :
    {A : Type 0} (P Q R : A → Type 0) (f : (x : A) → P x → Q x → R x) (xs : List A)
    → All P xs
    → All Q xs
    → All R xs
All-both P Q R f [] h k = tt
All-both P Q R f (x ∷ xs) h k = (f x h.0 k.0, All-both P Q R f xs h.1 k.1)

filter-All :
    {A : Type 0} (P : A → Type 0) (p : A → Bool) (xs : List A) → All P xs → All P (filter p xs)
filter-All P p [] h = tt
filter-All P p (x ∷ xs) h = ground (arith, filter-All P p xs h.1)

pub UniqueKeys-filter :
    (p : Job → Bool) (xs : List Job) → UniqueKeys id_of xs → UniqueKeys id_of (filter p xs)
UniqueKeys-filter p [] u = tt
UniqueKeys-filter p (x ∷ xs) u = elim (Bool-cases (p x)) [
  | inl e ↦ rw e (filter-All (λ y. y.id ≢ x.id) p xs u.0, UniqueKeys-filter p xs u.1)
  | inr e ↦ rw e (UniqueKeys-filter p xs u.1)
]

abbrev pub IsSelected : (Job → Bool) → List Job → Job → Type 0
IsSelected p xs j = (by_key id_of j.id xs ≡ some j) × (p j ≡ true)

after-IsSelected :
    (p : Job → Bool) (x : Job) (xs : List Job) (y : Job)
    → y.id ≢ x.id
    → IsSelected p xs y
    → IsSelected p (x ∷ xs) y
after-IsSelected p x xs y other (found, e) = (ground (arith, found, other), e)

pub filter-IsSelected :
    (p : Job → Bool) (xs : List Job) → UniqueKeys id_of xs → All (IsSelected p xs) (filter p xs)
filter-IsSelected p [] u = tt
filter-IsSelected p (x ∷ xs) u =
    let rest =
      All-both (λ y. y.id ≢ x.id) (IsSelected p xs) (IsSelected p (x ∷ xs))
        (after-IsSelected p x xs) (filter p xs) (filter-All (λ y. y.id ≢ x.id) p xs u.0)
        (filter-IsSelected p xs u.1) in
    go (p x) refl rest
  where
    go :
        (b : Bool)
        → p x ≡ b
        → All (IsSelected p (x ∷ xs)) (filter p xs)
        → All (IsSelected p (x ∷ xs)) (if b then x ∷ filter p xs else filter p xs)
    go true e rest = ((rw (==_refl x.id) refl, e), rest)
    go false e rest = rest

module _ (before : Job → Job → Bool) where
  UniqueKeys-insert_by :
      (x : Job) (xs : List Job)
      → All (λ y. y.id ≢ x.id) xs
      → UniqueKeys id_of xs
      → UniqueKeys id_of (insert_by before x xs)
  UniqueKeys-insert_by x [] h u = (tt, tt)
  UniqueKeys-insert_by x (y ∷ ys) h u = elim (Bool-cases (before y x)) [
    | inl e ↦ rw e (
      All-insert_by (λ z. z.id ≢ y.id) before x ys (λ same. h.0 (sym same)) u.0,
      UniqueKeys-insert_by x ys h.1 u.1,
    )
    | inr e ↦ rw e (h, u)
  ]

  UniqueKeys-order_by :
      (xs : List Job) → UniqueKeys id_of xs → UniqueKeys id_of (order_by before xs)
  UniqueKeys-order_by [] u = tt
  UniqueKeys-order_by (x ∷ xs) u =
      UniqueKeys-insert_by x (order_by before xs) (All-order_by (λ y. y.id ≢ x.id) before xs u.0)
        (UniqueKeys-order_by xs u.1)

UniqueKeys-take : (n : ℕ) (xs : List Job) → UniqueKeys id_of xs → UniqueKeys id_of (take n xs)
UniqueKeys-take zero xs u = tt
UniqueKeys-take (suc n) [] u = tt
UniqueKeys-take (suc n) (x ∷ xs) u =
    (All-take (λ y. y.id ≢ x.id) n xs u.0, UniqueKeys-take n xs u.1)

-- The rows that the query of a poll gives.
abbrev pub is_ready : State → Time → Job → Bool
is_ready s t j = state_eq j.state s && leb_ℤ j.run_at t

pub ready_rows-IsSelected :
    (s : State) (t : Time) (limit : ℕ) (xs : List Job)
    → UniqueKeys id_of xs
    → UniqueKeys id_of (ready_rows s t limit xs)
      × All (IsSelected (is_ready s t) xs) (ready_rows s t limit xs)
unfolding ready_rows
ready_rows-IsSelected s t limit xs u =
    let p = is_ready s t in
    (
      UniqueKeys-take limit (order_by sooner (filter p xs))
          (UniqueKeys-order_by sooner (filter p xs) (UniqueKeys-filter p xs u)),
      All-take (IsSelected p xs) limit (order_by sooner (filter p xs))
          (All-order_by (IsSelected p xs) sooner (filter p xs) (filter-IsSelected p xs u)),
    )

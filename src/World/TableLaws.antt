-- ===== src/World/TableLaws.antt =====
-- Laws of the statements on tables, for tables whose rows have a numeric key.
use mathlib.Core.Option
use native.Mathlib.Decide.{ℕ_discrete}
use jobit.Prelude.{
  ℕ, suc, ◌≡◌, ◌≢◌, ◌↔◌, refl, Bool, true, ◌&&◌, Option, none, some, List, [], ◌∷◌, ◌++◌, arith,
  All, All-append, filter, ◌==◌, if◌then◌else◌, Bool-cases, inl, inr,
}
use jobit.World.Table.{update_where, count_where, delete_where, find}

-- The row that UPDATE leaves in the place of another.
abbrev pub updated : {A : Type 0} → (A → Bool) → (A → A) → A → A
updated p f x = if p x then f x else x

module _ {A : Type 0} (P : A → Type 0) where
  -- UPDATE keeps a property of the rows if it keeps it on the rows that it selects.
  pub update_where-All :
      (p : A → Bool) (f : A → A)
      → ((x : A) → p x ≡ true → P x → P (f x))
      → (xs : List A) → All P xs
      → All P (update_where p f xs)
  update_where-All p f keep [] h = tt
  update_where-All p f keep (x ∷ xs) h =
      let rest = update_where-All p f keep xs h.1 in
      elim (Bool-cases (p x)) [ inl e ↦ rw e (keep x e h.0, rest) | inr e ↦ rw e (h.0, rest) ]

  pub delete_where-All : (p : A → Bool) (xs : List A) → All P xs → All P (delete_where p xs)
  delete_where-All p [] h = tt
  delete_where-All p (x ∷ xs) h = ground (arith, delete_where-All p xs h.1)

  pub find-All :
      (p : A → Bool) {x : A} (xs : List A) → All P xs → find p xs ≡ some x → P x × (p x ≡ true)
  find-All p [] h e = cc
  find-All p {x} (y ∷ ys) h e = ground (arith, find-All p {x = x} ys h.1)

module _ {A : Type 0} (p : A → Bool) where
  pub find-holds : {x : A} (xs : List A) → find p xs ≡ some x → p x ≡ true
  find-holds [] h = cc
  find-holds {x} (y ∷ ys) h = ground (arith, find-holds {x = x} ys)

  -- Where no row is selected, UPDATE changes nothing.
  pub update_where-none : (f : A → A) (xs : List A) → find p xs ≡ none → update_where p f xs ≡ xs
  update_where-none f [] h = refl
  update_where-none f (x ∷ xs) h = ground (arith, update_where-none f xs)

  pub count-eq-zero_iff : (xs : List A) → (count_where p xs ≡ 0) ↔ (find p xs ≡ none)
  count-eq-zero_iff [] = (λ _. refl, λ _. refl)
  count-eq-zero_iff (x ∷ xs) = ground (arith, count-eq-zero_iff xs)

  pub delete_where-none : (xs : List A) → find p xs ≡ none → delete_where p xs ≡ xs
  delete_where-none [] h = refl
  delete_where-none (x ∷ xs) h = ground (arith, delete_where-none xs)

module _ {A : Type 0} (p q : A → Bool) (weaker : (y : A) → p y ≡ true → q y ≡ true) where
  -- Where a stronger test finds a row, a weaker one finds some row.
  pub find_weaker : (xs : List A) {x : A} → find p xs ≡ some x → (y : A) × (find q xs ≡ some y)
  find_weaker [] e = cc
  find_weaker (y ∷ ys) {x} e = elim (Bool-cases (q y)) [
    | inl k ↦ (y, ground (arith, k))
    | inr k ↦
        let (z, f) = find_weaker ys {x = x} (ground (arith, weaker y, e, k)) in
        (z, ground (arith, f, k))
  ]

  pub find_stronger : (xs : List A) → find q xs ≡ none → find p xs ≡ none
  find_stronger [] e = refl
  find_stronger (y ∷ ys) e = ground (arith, weaker y, find_stronger ys)

-- Where a test finds a row, it selects one or more.
pub some_counted :
    {A : Type 0} (p : A → Bool) (xs : List A) {j : A}
    → find p xs ≡ some j
    → (n : ℕ) × (count_where p xs ≡ suc n)
some_counted p [] h = cc
some_counted p (x ∷ xs) {j} h = elim (Bool-cases (p x)) [
  | inl e ↦ (count_where p xs, rw e refl)
  | inr e ↦
      let (n, f) = some_counted p xs {j = j} (ground (arith, e, h)) in (n, ground (arith, e, f))
]

-- The row that an INSERT adds is found where no other was.
pub find-append :
    {A : Type 0} (p : A → Bool) (xs : List A) (x : A)
    → find p xs ≡ none
    → p x ≡ true
    → find p (xs ++ x ∷ []) ≡ some x
find-append p [] x e h = rw h refl
find-append p (y ∷ ys) x e h = ground (arith, find-append p ys x, e, h)

module _ {A : Type 0} (key : A → ℕ) where
  -- No two rows have the same key.
  abbrev pub UniqueKeys : List A → Type 0
  UniqueKeys [] = Unit
  UniqueKeys (x ∷ xs) = All (λ y. key y ≢ key x) xs × UniqueKeys xs

  abbrev pub by_key : ℕ → List A → Option A
  by_key k = find (λ x. key x == k)

  -- A row is found again after an UPDATE that keeps the key, in its new state.
  pub by_key-update :
      (p : A → Bool) (f : A → A)
      → ((x : A) → p x ≡ true → key (f x) ≡ key x)
      → (k : ℕ) (xs : List A)
      → by_key k (update_where p f xs) ≡ Option.map (updated p f) (by_key k xs)
  by_key-update p f keep k [] = refl
  by_key-update p f keep k (x ∷ xs) = ground (arith, keep x, by_key-update p f keep k xs)

  -- UPDATE of the row with one key leaves the row with another.
  pub by_key-update_other :
      (k i : ℕ) (f : A → A)
      → ((x : A) → key (f x) ≡ key x)
      → i ≢ k
      → (xs : List A) → by_key i (update_where (λ x. key x == k) f xs) ≡ by_key i xs
  by_key-update_other k i f keep other [] = refl
  by_key-update_other k i f keep other (x ∷ xs) =
      ground (arith, keep x, by_key-update_other k i f keep other xs)

  pub Absent-update :
      (k : ℕ) (p : A → Bool) (f : A → A)
      → ((x : A) → p x ≡ true → key (f x) ≡ key x)
      → (xs : List A) → All (λ x. key x ≢ k) xs
      → All (λ x. key x ≢ k) (update_where p f xs)
  Absent-update k p f keep =
      update_where-All (λ x. key x ≢ k) p f (λ x e h. ground (arith, keep x e))

  -- UPDATE of other columns keeps the keys unique.
  pub UniqueKeys-update :
      (p : A → Bool) (f : A → A)
      → ((x : A) → p x ≡ true → key (f x) ≡ key x)
      → (xs : List A) → UniqueKeys xs
      → UniqueKeys (update_where p f xs)
  UniqueKeys-update p f keep [] h = tt
  UniqueKeys-update p f keep (x ∷ xs) h =
      let rest = UniqueKeys-update p f keep xs h.1 in
      let absent = Absent-update (key x) p f keep xs h.0 in
      elim (Bool-cases (p x)) [
        | inl e ↦ rw (e, keep x e) (absent, rest)
        | inr e ↦ rw e (absent, rest)
      ]

  pub UniqueKeys-delete :
      (p : A → Bool) (xs : List A) → UniqueKeys xs → UniqueKeys (delete_where p xs)
  UniqueKeys-delete p [] h = tt
  UniqueKeys-delete p (x ∷ xs) h =
      ground (arith, UniqueKeys-delete p xs h.1, delete_where-All (λ y. key y ≢ key x) p xs h.0)

  Absent-by_key : (k : ℕ) (xs : List A) → by_key k xs ≡ none → All (λ x. key x ≢ k) xs
  Absent-by_key k [] h = tt
  Absent-by_key k (x ∷ xs) h = ground (arith, Absent-by_key k xs)

  -- INSERT of a row with a fresh key keeps the keys unique.
  pub UniqueKeys-append :
      (x : A) (xs : List A) → by_key (key x) xs ≡ none → UniqueKeys xs → UniqueKeys (xs ++ x ∷ [])
  UniqueKeys-append x [] h u = (tt, tt)
  UniqueKeys-append x (y ∷ ys) h u = (
    All-append (λ z. key z ≢ key y) ys (x ∷ []) u.0 (ground arith, tt),
    UniqueKeys-append x ys (ground arith) u.1,
  )

  module _ (k : ℕ) where
    absent-filter : (xs : List A) → All (λ x. key x ≢ k) xs → filter (λ x. key x == k) xs ≡ []
    absent-filter [] h = refl
    absent-filter (x ∷ xs) h = ground (arith, absent-filter xs h.1)

    pub filter-by_key :
        (xs : List A) {j : A}
        → UniqueKeys xs
        → by_key k xs ≡ some j
        → filter (λ x. key x == k) xs ≡ j ∷ []
    filter-by_key [] u h = cc
    filter-by_key (x ∷ xs) {j} u h = elim (ℕ_discrete (key x) k) [
      | yes e ↦ let a : All (λ y. key y ≢ k) xs = rw e at u.0 in ground (arith, absent-filter xs a)
      | no ne ↦ ground (arith, filter-by_key xs {j = j} u.1)
    ]

  module _ (k : ℕ) (c : A → Bool) where
    absent-find : (xs : List A) → All (λ x. key x ≢ k) xs → find (λ x. key x == k && c x) xs ≡ none
    absent-find [] h = refl
    absent-find (x ∷ xs) h = ground (arith, absent-find xs h.1)

    absent-update :
        (f : A → A) (xs : List A)
        → All (λ x. key x ≢ k) xs
        → update_where (λ x. key x == k) f xs ≡ xs
    absent-update f [] h = refl
    absent-update f (x ∷ xs) h = ground (arith, absent-update f xs h.1)

    -- Once `SELECT … WHERE key = k AND c` has found the row `j`, an UPDATE `WHERE key = k` that uses
    -- what was read is the UPDATE of just that row by its own columns.
    pub guarded_update :
        (g : A → A → A) (xs : List A) {j : A}
        → UniqueKeys xs
        → find (λ x. key x == k && c x) xs ≡ some j
        → update_where (λ x. key x == k) (g j) xs
          ≡ update_where (λ x. key x == k && c x) (λ x. g x x) xs
    guarded_update g [] u h = refl
    guarded_update g (x ∷ xs) {j} u h = elim (ℕ_discrete (key x) k) [
      | yes e ↦
          let a : All (λ y. key y ≢ k) xs = rw e at u.0 in
          ground (
            arith,
            absent-find xs a,
            absent-update (g j) xs a,
            update_where-none (λ y. key y == k && c y) (λ y. g y y) xs (absent-find xs a),
          )
      | no ne ↦ ground (arith, guarded_update g xs {j = j} u.1)
    ]

    -- Such a row is the one with that key.
    pub find-by_key :
        (xs : List A)
        → UniqueKeys xs
        → find (λ x. key x == k && c x) xs
          ≡ (elim (by_key k xs) [ none ↦ none | some x ↦ if c x then some x else none ])
    find-by_key [] u = refl
    find-by_key (x ∷ xs) u = elim (ℕ_discrete (key x) k) [
      | yes e ↦ let a : All (λ y. key y ≢ k) xs = rw e at u.0 in ground (arith, absent-find xs a)
      | no ne ↦ ground (arith, find-by_key xs u.1)
    ]

  pub by_key-append :
      (k : ℕ) (xs ys : List A) {x : A} → by_key k xs ≡ some x → by_key k (xs ++ ys) ≡ some x
  by_key-append k [] ys h = cc
  by_key-append k (z ∷ xs) ys {x} h = ground (arith, by_key-append k xs ys {x = x})

  by_key-absent : (k : ℕ) (xs : List A) → All (λ x. key x ≢ k) xs → by_key k xs ≡ none
  by_key-absent k [] h = refl
  by_key-absent k (x ∷ xs) h = ground (arith, by_key-absent k xs h.1)

  -- The row with a key after a DELETE.
  pub by_key-delete :
      (p : A → Bool) (k : ℕ) (xs : List A)
      → UniqueKeys xs
      → by_key k (delete_where p xs)
        ≡ (elim (by_key k xs) [ none ↦ none | some x ↦ if p x then none else some x ])
  by_key-delete p k [] u = refl
  by_key-delete p k (x ∷ xs) u = elim (ℕ_discrete (key x) k) [
    | yes e ↦
        let a : All (λ y. key y ≢ k) xs = rw e at u.0 in
        ground
          (arith, by_key-absent k (delete_where p xs) (delete_where-All (λ y. key y ≢ k) p xs a))
    | no ne ↦ ground (arith, by_key-delete p k xs u.1)
  ]

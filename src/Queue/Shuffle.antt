-- ===== src/Queue/Shuffle.antt =====
-- internal/queue/queue.go, weightedShuffle: a weighted-random order of the tenants.
use mathlib.Core.Option
use jobit.Prelude.{
  ℕ, zero, suc, true, false, Option, none, some, List, [], ◌∷◌, if◌then◌else◌, length,
}
use jobit.Prelude.Int.{ℤ, pos, pos_part, ◌+ℤ◌, ltb_ℤ, leb_ℤ}

pub record TenantWeight : Type 0 where
  pub id : ℕ
  pub weight : ℤ

-- `total += t.Weight`, over the remaining tenants.
unfoldable pub total_from : ℤ → List TenantWeight → ℤ
total_from total [] = total
total_from total (t ∷ ts) = total_from (total +ℤ t.weight) ts

abbrev pub keep : TenantWeight → TenantWeight × List TenantWeight → TenantWeight × List TenantWeight
keep t (chosen, rest) = (chosen, t ∷ rest)

-- The inner loop: the first tenant with `r < cum`, and the others in their order.
unfoldable pub pick : ℕ → ℤ → List TenantWeight → Option (TenantWeight × List TenantWeight)
pick r cum [] = none
pick r cum (t ∷ ts) =
    let cum' = cum +ℤ t.weight in
    if ltb_ℤ (pos r) cum' then some (t, ts) else Option.map (keep t) (pick r cum' ts)

-- How a call ends: with a value, or by a panic; or the model's fuel runs out.
pub data Run (A : Type 0) : Type 0 where
  returned : A → Run A
  panicked stopped : Run A

abbrev pub cons_run : ℕ → Run (List ℕ) → Run (List ℕ)
cons_run id (returned ids) = returned (id ∷ ids)
cons_run id panicked = panicked
cons_run id stopped = stopped

-- The outer loop. `intn k n` is what the k-th call of `rand.Intn(n)` returns; for n <= 0 that call
-- panics. Each round takes one unit of fuel.
unfoldable pub shuffle : (intn : ℕ → ℕ → ℕ) → ℕ → ℕ → List TenantWeight → Run (List ℕ)
shuffle intn fuel k [] = returned []
shuffle intn zero k (t ∷ ts) = stopped
shuffle intn (suc fuel) k (t ∷ ts) =
    let total = total_from (pos 0) (t ∷ ts) in
    elim (leb_ℤ total (pos 0)) [
      | true ↦ panicked
      | false ↦ elim (pick (intn k (pos_part total)) (pos 0) (t ∷ ts)) [
        | none ↦ shuffle intn fuel (suc k) (t ∷ ts)
        | some (chosen, rest) ↦ cons_run chosen.id (shuffle intn fuel (suc k) rest)
      ]
    ]

-- A round for each tenant.
unfoldable pub weighted_shuffle : (intn : ℕ → ℕ → ℕ) → List TenantWeight → Run (List ℕ)
weighted_shuffle intn tenants = shuffle intn (length tenants) 0 tenants

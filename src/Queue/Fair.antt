-- ===== src/Queue/Fair.antt =====
-- internal/queue/queue.go, weightedShuffle: it ends, in a permutation of the tenants, and each tenant
-- comes first for as many draws as its weight.
use mathlib.Core.List.{Perm, map}
use mathlib.Core.List.Perm
use mathlib.Core.Option
use jobit.Prelude.{
  ℕ, zero, suc, ◌<◌, ◌≡◌, refl, ◌∙◌, ap, inl, inr, true, false, some, List, [], ◌∷◌, ◌++◌, arith,
  All, length, Bool-cases,
}
use jobit.Prelude.Int.{ℤ, pos, negsuc, pos_part, ◌+ℤ◌, ◌≤ℤ◌, ltb_ℤ, leb_ℤ, int_laws}
use jobit.Queue.Shuffle.{
  TenantWeight, total_from, keep, pick, returned, cons_run, shuffle, weighted_shuffle,
}

abbrev pub IsPositive : TenantWeight → Type 0
IsPositive t = pos 1 ≤ℤ t.weight

abbrev pub tenant_id_of : TenantWeight → ℕ
tenant_id_of t = t.id

total-ge : (cum : ℤ) (ts : List TenantWeight) → All IsPositive ts → cum ≤ℤ total_from cum ts
unfolding total_from
total-ge cum [] h = omega arith
total-ge cum (t ∷ ts) h = omega (int_laws, total-ge (cum +ℤ t.weight) ts h.1)

-- Where the weights before a tenant are positive, every draw from their sum up to the tenant's own
-- weight more chooses that tenant, and leaves the others in their order.
pick_interval :
    (r : ℕ) (cum : ℤ) (before after : List TenantWeight) (t : TenantWeight)
    → All IsPositive before
    → total_from cum before ≤ℤ pos r
    → ¬ (total_from cum before +ℤ t.weight ≤ℤ pos r)
    → pick r cum (before ++ t ∷ after) ≡ some (t, before ++ after)
unfolding pick total_from
pick_interval r cum [] after t h lo hi = ground arith
pick_interval r cum (b ∷ before) after t h lo hi = ground (
  arith,
  total-ge (cum +ℤ b.weight) before h.1,
  pick_interval r (cum +ℤ b.weight) before after t h.1 lo hi,
)

-- What a choice leaves of positive weights: the others, each once.
record IsChoice (ts : List TenantWeight) (p : TenantWeight × List TenantWeight) : Type 0 where
  perm : Perm (p.0 ∷ p.1) ts
  positive : All IsPositive p.1
  fewer : length ts ≡ suc (length p.1)

keep-IsChoice :
    (t : TenantWeight) (ts : List TenantWeight) (p : TenantWeight × List TenantWeight)
    → IsPositive t
    → IsChoice ts p
    → IsChoice (t ∷ ts) (keep t p)
keep-IsChoice t ts (chosen, rest) pos_t c = record {
  perm = Perm.trans (Perm.swap t chosen rest) (Perm.cons t c.perm);
  positive = (pos_t, c.positive);
  fewer = omega (arith, c.fewer);
}

pick_here :
    (r : ℕ) (cum : ℤ) (t : TenantWeight) (ts : List TenantWeight)
    → ltb_ℤ (pos r) (cum +ℤ t.weight) ≡ true
    → pick r cum (t ∷ ts) ≡ some (t, ts)
unfolding pick
pick_here r cum t ts h = ground arith

pick_later :
    (r : ℕ) (cum : ℤ) (t : TenantWeight) (ts : List TenantWeight)
    → ltb_ℤ (pos r) (cum +ℤ t.weight) ≡ false
    → pick r cum (t ∷ ts) ≡ Option.map (keep t) (pick r (cum +ℤ t.weight) ts)
unfolding pick
pick_later r cum t ts h = ground arith

-- A draw below the total chooses a tenant.
pick_total :
    (r : ℕ) (cum : ℤ) (ts : List TenantWeight)
    → All IsPositive ts
    → ¬ (total_from cum ts ≤ℤ pos r)
    → cum ≤ℤ pos r
    → (p : TenantWeight × List TenantWeight) × (pick r cum ts ≡ some p) × IsChoice ts p
unfolding total_from
pick_total r cum [] a h lo = absurd (h lo)
pick_total r cum (t ∷ ts) a h lo = elim (Bool-cases (ltb_ℤ (pos r) (cum +ℤ t.weight))) [
  | inl e ↦ (
    (t, ts),
    pick_here r cum t ts e,
    record { perm = Perm.refl (t ∷ ts); positive = a.1; fewer = refl },
  )
  | inr e ↦
      let (p, found, c) = pick_total r (cum +ℤ t.weight) ts a.1 h (ground arith) in
      (keep t p, pick_later r cum t ts e ∙ rw found refl, keep-IsChoice t ts p a.0 c)
]

-- A stream of legal draws.
abbrev pub AreDraws : (ℕ → ℕ → ℕ) → Type 0
AreDraws intn = (k n : ℕ) → 0 < n → intn k n < n

total_positive :
    (t : TenantWeight) (ts : List TenantWeight)
    → All IsPositive (t ∷ ts)
    → pos 1 ≤ℤ total_from (pos 0) (t ∷ ts)
unfolding total_from
total_positive t ts a = omega (int_laws, total-ge (pos 0 +ℤ t.weight) ts a.1)

shuffle_round :
    (intn : ℕ → ℕ → ℕ) (fuel k : ℕ) (t : TenantWeight) (ts : List TenantWeight)
    (p : TenantWeight × List TenantWeight)
    → leb_ℤ (total_from (pos 0) (t ∷ ts)) (pos 0) ≡ false
    → pick (intn k (pos_part (total_from (pos 0) (t ∷ ts)))) (pos 0) (t ∷ ts) ≡ some p
    → shuffle intn (suc fuel) k (t ∷ ts) ≡ cons_run p.0.id (shuffle intn fuel (suc k) p.1)
unfolding shuffle
shuffle_round intn fuel k t ts p h e = ground arith

draw-below :
    (total : ℤ) (r : ℕ)
    → pos 1 ≤ℤ total
    → (0 < pos_part total → r < pos_part total)
    → ¬ (total ≤ℤ pos r)
draw-below (pos n) r h draw = omega (arith, draw (omega (arith, h)))
draw-below (negsuc n) r h draw = absurd (omega (arith, h))

positive_test : (total : ℤ) → pos 1 ≤ℤ total → leb_ℤ total (pos 0) ≡ false
positive_test total h = ground arith

shuffle-Perm :
    (intn : ℕ → ℕ → ℕ) (fuel k : ℕ) (ts : List TenantWeight)
    → AreDraws intn
    → All IsPositive ts
    → length ts ≡ fuel
    → (order : List ℕ) × (shuffle intn fuel k ts ≡ returned order)
      × Perm order (map tenant_id_of ts)
unfolding shuffle
shuffle-Perm intn fuel k [] draws a e = ([], refl, Perm.refl [])
shuffle-Perm intn zero k (t ∷ ts) draws a e = absurd (omega (arith, e))
shuffle-Perm intn (suc fuel) k (t ∷ ts) draws a e =
    let total = total_from (pos 0) (t ∷ ts) in
    let positive : pos 1 ≤ℤ total = total_positive t ts a in
    let (p, found, c) =
      pick_total (intn k (pos_part total)) (pos 0) (t ∷ ts) a
        (draw-below total (intn k (pos_part total)) positive (draws k (pos_part total)))
        (omega int_laws) in
    let (order, ends, perm) =
      shuffle-Perm intn fuel (suc k) p.1 draws c.positive (omega (arith, c.fewer, e)) in
    (
      p.0.id ∷ order,
      shuffle_round intn fuel k t ts p (positive_test total positive) found
          ∙ ap (cons_run p.0.id) ends,
      Perm.trans (Perm.cons p.0.id perm) (Perm.map tenant_id_of c.perm),
    )

-- For positive weights and legal draws, weightedShuffle does not panic and ends after as many rounds
-- as there are tenants, with every tenant's id exactly once.
pub weighted_shuffle-Perm :
    (intn : ℕ → ℕ → ℕ) (tenants : List TenantWeight)
    → AreDraws intn
    → All IsPositive tenants
    → (order : List ℕ) × (weighted_shuffle intn tenants ≡ returned order)
      × Perm order (map tenant_id_of tenants)
unfolding weighted_shuffle
weighted_shuffle-Perm intn tenants draws a =
    shuffle-Perm intn (length tenants) 0 tenants draws a refl

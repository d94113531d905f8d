-- ===== src/Queue/Only.antt =====
-- internal/queue/queue.go, Dequeue: where one list only holds jobs, a worker takes from it at once,
-- whatever order the tenants are asked in.
use mathlib.Core.Logic.{∥∥₁_elim}
use mathlib.Core.Bool.{Bool-set}
use mathlib.Core.List.{Perm, Permᴰ}
use jobit.Prelude.{
  ℕ, suc, ◌+◌, ◌/◌, ◌<◌, ◌≡◌, refl, sym, ◌∙◌, ap, Bool, true, false, ◌&&◌, ◌||◌, Option, some, List,
  [], ◌∷◌, ◌++◌, map, ◌==◌, All, arith, Bool-cases, inl, inr,
}
use jobit.Prelude.Int.{pos, ◌+ℤ◌, ltb_ℤ, +ℤ_parts}
use jobit.Job.{Time}
use jobit.World.{
  World, Redis, Bucket, queue_1, queue_5, queue_10, bucket_eq, Element, uuid_text, set_queue,
  set_processing, healthy, Result, ok, err, cancelled,
}
use jobit.Queue.{scan, keys_in_order, scan_order, poll, dequeue_loop, dequeue, poll_interval, sleep}
use jobit.Queue.Shuffle.{TenantWeight}
use jobit.Queue.Fair.{AreDraws, IsPositive, tenant_id_of, weighted_shuffle-Perm}
use jobit.Queue.Ends.{round}
use jobit.Queue.Order.{scan_first, scan_skip}

abbrev pub is_in : ℕ → List ℕ → Bool
is_in t [] = false
is_in t (u ∷ us) = u == t || is_in t us

is_in-swap : (t a b : ℕ) (us : List ℕ) → is_in t (a ∷ b ∷ us) ≡ is_in t (b ∷ a ∷ us)
is_in-swap t a b us = ground arith

is_in-Permᴰ : (t : ℕ) {us vs : List ℕ} → Permᴰ us vs → is_in t us ≡ is_in t vs
is_in-Permᴰ t Permᴰ.nil = refl
is_in-Permᴰ t (Permᴰ.cons e d) = rw (e, is_in-Permᴰ t d) refl
is_in-Permᴰ t (Permᴰ.swap {a = a} {b = b} {l = l} e f) = rw (sym e, sym f) (is_in-swap t a b l)
is_in-Permᴰ t (Permᴰ.trans d e) = is_in-Permᴰ t d ∙ is_in-Permᴰ t e

is_in-Perm : (t : ℕ) {us vs : List ℕ} → Perm us vs → is_in t us ≡ is_in t vs
is_in-Perm t {us} {vs} p = ∥∥₁_elim p (Bool-set (is_in t us) (is_in t vs)) (λ d. is_in-Permᴰ t d)

-- All lists but one are empty.
abbrev pub OnlyAt : Bucket → ℕ → Redis → Type 0
OnlyAt b t r = (c : Bucket) (u : ℕ) → (bucket_eq c b && u == t) ≡ false → r.queues c u ≡ []

and_false : (c : Bool) → (c && false) ≡ false
and_false true = refl
and_false false = refl

-- What the worker takes, and where it goes.
abbrev pub taken_world : ℕ → Bucket → ℕ → List Element → ℕ → World → World
taken_world worker b t rest id w = record w {
  redis =
      set_processing worker (uuid_text id ∷ w.redis.processing worker) (set_queue b t rest w.redis);
  script = [];
}

first_round :
    (before_deadline is_done : Bool) (p : Result (Option ℕ) × World) (id : ℕ) (v : World)
    (rest : World → Result (Option ℕ) × World) (w : World)
    → before_deadline ≡ true
    → is_done ≡ false
    → p ≡ (ok (some id), v)
    → round before_deadline is_done p rest w ≡ (ok (some id), v)
first_round before_deadline is_done p id v rest w e f g = rw (e, f, g) refl

module _ (worker : ℕ) (b : Bucket) (t id : ℕ) (rest : List Element) (w : World)
    (only : OnlyAt b t w.redis) (here : w.redis.queues b t ≡ rest ++ uuid_text id ∷ []) where
  scan_tenant :
      (us : List ℕ)
      → scan worker (keys_in_order (t ∷ us)) (healthy w)
        ≡ (ok (some id), taken_world worker b t rest id w)
  scan_tenant us = go b only here
    where
      go :
          (c : Bucket)
          → OnlyAt c t w.redis
          → w.redis.queues c t ≡ rest ++ uuid_text id ∷ []
          → scan worker (keys_in_order (t ∷ us)) (healthy w)
            ≡ (ok (some id), taken_world worker c t rest id w)
      go queue_1 o h = scan_first worker [] queue_1 t _ w rest id tt h
      go queue_5 o h =
          scan_first worker ((queue_1, t) ∷ []) queue_5 t _ w rest id (o queue_1 t refl, tt) h
      go queue_10 o h =
          scan_first worker ((queue_1, t) ∷ (queue_5, t) ∷ []) queue_10 t _ w rest id
            (o queue_1 t refl, (o queue_5 t refl, tt)) h

  scan_only :
      (us : List ℕ)
      → is_in t us ≡ true
      → scan worker (keys_in_order us) (healthy w)
        ≡ (ok (some id), taken_world worker b t rest id w)
  scan_only [] h = cc
  scan_only (u ∷ us) h = elim (Bool-cases (u == t)) [
    | inl e ↦ let same : u ≡ t = ground (arith, e) in rw same (scan_tenant us)
    | inr e ↦
        let empty : (c : Bucket) → w.redis.queues c u ≡ [] =
          λ c. only c u (rw e (and_false (bucket_eq c b))) in
        scan_skip worker (queue_1, u) _ w (empty queue_1)
        ∙ scan_skip worker (queue_5, u) _ w (empty queue_5)
        ∙ scan_skip worker (queue_10, u) _ w (empty queue_10)
        ∙ scan_only us (ground (arith, h, e))
  ]

  poll_only :
      (intn : ℕ → ℕ → ℕ) (tenants : List TenantWeight)
      → AreDraws intn
      → All IsPositive tenants
      → is_in t (map tenant_id_of tenants) ≡ true
      → poll intn worker tenants (healthy w) ≡ (ok (some id), taken_world worker b t rest id w)
  unfolding poll
  poll_only intn [] draws a h = cc
  poll_only intn (u ∷ us) draws a h =
      let (order, ends, perm) = weighted_shuffle-Perm intn (u ∷ us) draws a in
      ap (λ r. scan_order worker r (healthy w)) ends ∙ scan_only order (is_in-Perm t perm ∙ h)

  loop_only :
      (is_done : Time → Bool) (rand : ℕ → ℕ → ℕ → ℕ) (tenants : List TenantWeight) (fuel : ℕ)
      (deadline : Time)
      → poll (rand 0) worker tenants (healthy w) ≡ (ok (some id), taken_world worker b t rest id w)
      → ltb_ℤ w.clock deadline ≡ true
      → is_done w.clock ≡ false
      → dequeue_loop is_done rand (suc fuel) 0 worker tenants deadline (healthy w)
        ≡ (ok (some id), taken_world worker b t rest id w)
  unfolding dequeue_loop
  loop_only is_done rand tenants fuel deadline polled before running =
      first_round (ltb_ℤ w.clock deadline) (is_done w.clock)
        (poll (rand 0) worker tenants (healthy w)) id (taken_world worker b t rest id w)
        (λ v. elim (is_done (sleep poll_interval v).clock) [
          | true ↦ (err cancelled, sleep poll_interval v)
          | false ↦ dequeue_loop is_done rand fuel 1 worker tenants deadline (sleep poll_interval v)
        ])
        (healthy w) before running polled

  -- Where one list only holds jobs, it belongs to a tenant that the worker knows, the context is not done
  -- and Redis answers, Dequeue takes the list's oldest job in its first round, with legal draws and
  -- positive weights: no time passes, and the job's id stands in the worker's own list.
  pub dequeue_only :
      (is_done : Time → Bool) (rand : ℕ → ℕ → ℕ → ℕ) (tenants : List TenantWeight) (timeout : ℕ)
      → AreDraws (rand 0)
      → All IsPositive tenants
      → is_in t (map tenant_id_of tenants) ≡ true
      → 0 < timeout
      → is_done w.clock ≡ false
      → dequeue is_done rand worker tenants timeout (healthy w)
        ≡ (ok (some id), taken_world worker b t rest id w)
  unfolding dequeue dequeue_loop
  dequeue_only is_done rand tenants timeout draws a h positive running =
      let one_round : timeout / poll_interval + 1 ≡ suc (timeout / poll_interval) = omega arith in
      let before : ltb_ℤ w.clock (w.clock +ℤ pos timeout) ≡ true =
        ground (arith, +ℤ_parts w.clock (pos timeout)) in
      ap (λ n. dequeue_loop is_done rand n 0 worker tenants (w.clock +ℤ pos timeout) (healthy w))
        one_round
      ∙ loop_only is_done rand tenants (timeout / poll_interval) (w.clock +ℤ pos timeout)
          (poll_only (rand 0) tenants draws a h) before running

-- ===== src/Queue/Ends.antt =====
-- internal/queue/queue.go, Dequeue: the loop ends.
use mathlib.Core.Path.{subst}
use jobit.Prelude.{
  ◌+◌, ◌/◌, ◌≤◌, ◌*◌, if◌then◌else◌, ℕ, zero, suc, ◌*◌, ◌≡◌, ◌≢◌, refl, ◌∙◌, ap, sym, Bool, true,
  false, Option, none, some, List, [], ◌∷◌, arith, All,
}
use jobit.Prelude.Int.{pos, pos_part, neg_part, ◌+ℤ◌, ◌≤ℤ◌, ltb_ℤ, int_laws}
use jobit.Job.{Time}
use jobit.World.{
  World, Element, uuid_text, other_text, Bucket, Redis, Outcome, done, refused, lost, skipped,
  Error, Result, ok, err, out_of_fuel, fault, cancelled, not_found, duplicate, claim_conflict,
  panicked, Call, redis_exec, next_outcome, later, answer_redis,
}
use jobit.Queue.{
  lmove, keys_in_order, scan, found_or, poll, scan_order, poll_interval, sleep, dequeue_loop,
  dequeue,
}
use jobit.Queue.Shuffle.{TenantWeight}
use jobit.Queue.Fair.{AreDraws, IsPositive, weighted_shuffle-Perm}
use jobit.Queue.Order.{after}

-- A result that is neither a panic nor the end of the fuel.
abbrev pub IsUsual : {A : Type 0} → Result A → Type 0
IsUsual r = (r ≢ err out_of_fuel) × (r ≢ err panicked)

-- A call that ends as usual, takes no time and leaves Postgres alone.
abbrev IsQuiet : {A : Type 0} → Result A × World → World → Type 0
IsQuiet (r, w') w = IsUsual r × (w'.clock ≡ w.clock) × (w'.db ≡ w.db)

fault-IsUsual : {A : Type 0} → (let r : Result A = err fault in IsUsual r)
fault-IsUsual = ((λ e. cc), (λ e. cc))

lmove-IsUsual : (worker : ℕ) (b : Bucket) (t : ℕ) (r : Redis) → IsUsual (lmove worker b t r).1
unfolding lmove
lmove-IsUsual worker b t r = (ground arith, ground arith)

found_or-IsQuiet :
    (e : Option Element) (next : Call (Option ℕ)) (w w' : World)
    → IsQuiet (next w') w
    → w'.clock ≡ w.clock
    → w'.db ≡ w.db
    → IsQuiet (found_or e next w') w
found_or-IsQuiet none next w w' h c d = h
found_or-IsQuiet (some (uuid_text id)) next w w' h c d = (((λ e. cc), (λ e. cc)), c, d)
found_or-IsQuiet (some (other_text _)) next w w' h c d = h

moved_error :
    {A B : Type 0} (e : Error)
    → (let r : Result A = err e in IsUsual r)
    → (let r : Result B = err e in IsUsual r)
moved_error out_of_fuel h = absurd (h.0 refl)
moved_error panicked h = absurd (h.1 refl)
moved_error not_found h = ((λ e. cc), (λ e. cc))
moved_error duplicate h = ((λ e. cc), (λ e. cc))
moved_error claim_conflict h = ((λ e. cc), (λ e. cc))
moved_error fault h = ((λ e. cc), (λ e. cc))
moved_error cancelled h = ((λ e. cc), (λ e. cc))

after-IsQuiet :
    {A : Type 0} (p : Result A × World) (k : A → Call (Option ℕ)) (w : World)
    → IsQuiet p w
    → ((a : A) (w' : World) → w'.clock ≡ w.clock → w'.db ≡ w.db → IsQuiet (k a w') w)
    → IsQuiet (after p k) w
after-IsQuiet (ok a, w') k w (u, c, d) rest = rest a w' c d
after-IsQuiet (err e, w') k w (u, c, d) rest = (moved_error e u, c, d)

answer-IsQuiet :
    {A : Type 0} (o : Outcome) (p : Redis × Result A) (w : World)
    → IsUsual p.1
    → IsQuiet (answer_redis o p w) w
answer-IsQuiet done p w h = (h, refl, refl)
answer-IsQuiet refused p w h = (fault-IsUsual, refl, refl)
answer-IsQuiet lost p w h = (fault-IsUsual, refl, refl)
answer-IsQuiet skipped p w h = (h, refl, refl)

scan-IsQuiet : (worker : ℕ) (keys : List (Bucket × ℕ)) (w : World) → IsQuiet (scan worker keys w) w
unfolding scan redis_exec
scan-IsQuiet worker [] w = (((λ e. cc), (λ e. cc)), refl, refl)
scan-IsQuiet worker ((b, t) ∷ keys) w =
    after-IsQuiet (redis_exec (lmove worker b t) w) (λ e. found_or e (scan worker keys)) w
      (answer-IsQuiet (next_outcome w.script) (lmove worker b t w.redis)
        (record w { script = later w.script }) (lmove-IsUsual worker b t w.redis))
      (λ e w' same kept.
        found_or-IsQuiet e (scan worker keys) w w'
          (let (u, c, d) = scan-IsQuiet worker keys w' in (u, c ∙ same, d ∙ kept)) same kept)

poll-IsQuiet :
    (intn : ℕ → ℕ → ℕ) (worker : ℕ) (tenants : List TenantWeight) (w : World)
    → AreDraws intn
    → All IsPositive tenants
    → IsQuiet (poll intn worker tenants w) w
unfolding poll
poll-IsQuiet intn worker [] w draws a = (((λ e. cc), (λ e. cc)), refl, refl)
poll-IsQuiet intn worker (t ∷ ts) w draws a =
    let (order, ends, perm) = weighted_shuffle-Perm intn (t ∷ ts) draws a in
    subst (λ r. IsQuiet (scan_order worker r w) w) (sym ends)
      (scan-IsQuiet worker (keys_in_order order) w)

-- One round of Dequeue, from the tests of the deadline and the context, the answer of the poll, and
-- what follows a poll that found nothing.
abbrev pub round :
    Bool
    → Bool
    → Result (Option ℕ) × World
    → (World → Result (Option ℕ) × World)
    → World
    → Result (Option ℕ) × World
round before_deadline is_done (r, w') rest w = elim before_deadline [
  | false ↦ (ok none, w)
  | true ↦ elim is_done [
    | true ↦ (err cancelled, w)
    | false ↦ elim r [ err e ↦ (err e, w') | ok (some id) ↦ (ok (some id), w') | ok none ↦ rest w' ]
  ]
]

-- What Dequeue does: it ends as usual, and leaves Postgres alone.
abbrev pub Ended : Result (Option ℕ) × World → World → Type 0
Ended (r, w') w = IsUsual r × (w'.db ≡ w.db)

round-Ended :
    (before_deadline is_done : Bool) (p : Result (Option ℕ) × World)
    (rest : World → Result (Option ℕ) × World) (w : World)
    → Ended p w
    → (before_deadline ≡ true → Ended (rest p.1) w)
    → Ended (round before_deadline is_done p rest w) w
round-Ended false d p rest w h k = (((λ e. cc), (λ e. cc)), refl)
round-Ended true true p rest w h k = (((λ e. cc), (λ e. cc)), refl)
round-Ended true false (err x, w') rest w h k = h
round-Ended true false (ok (some id), w') rest w h k = (((λ e. cc), (λ e. cc)), h.1)
round-Ended true false (ok none, w') rest w h k = k refl

abbrev slept : Bool → Result (Option ℕ) × World → World → Result (Option ℕ) × World
slept is_done rest w = elim is_done [ true ↦ (err cancelled, w) | false ↦ rest ]

sleep-Ended :
    (is_done : Bool) (rest : Result (Option ℕ) × World) (v w : World)
    → v.db ≡ w.db
    → Ended rest w
    → Ended (slept is_done rest v) w
sleep-Ended true rest v w same h = (((λ e. cc), (λ e. cc)), same)
sleep-Ended false rest v w same h = h

abbrev expired : Bool → World → Result (Option ℕ) × World
expired b w = if b then (err out_of_fuel, w) else (ok none, w)

expired-Ended :
    (before_deadline : Bool) (w : World)
    → before_deadline ≡ false
    → Ended (expired before_deadline w) w
expired-Ended true w h = cc
expired-Ended false w h = (((λ e. cc), (λ e. cc)), refl)

no_time : (t deadline : Time) → deadline ≤ℤ t +ℤ pos (0 * poll_interval) → ltb_ℤ t deadline ≡ false
no_time t deadline h = let reached : deadline ≤ℤ t = omega (int_laws, h) in ground (arith, reached)

one_less :
    (t' t deadline : Time) (fuel : ℕ)
    → t' ≡ t
    → deadline ≤ℤ t +ℤ pos (suc fuel * poll_interval)
    → deadline ≤ℤ t' +ℤ pos poll_interval +ℤ pos (fuel * poll_interval)
one_less t' t deadline fuel same h =
    let same_pos : pos_part t' ≡ pos_part t = ap pos_part same in
    let same_neg : neg_part t' ≡ neg_part t = ap neg_part same in omega int_laws

enough_rounds :
    (t : Time) (timeout : ℕ)
    → t +ℤ pos timeout ≤ℤ t +ℤ pos ((timeout / poll_interval + 1) * poll_interval)
enough_rounds t timeout =
    let more : timeout ≤ (timeout / poll_interval + 1) * poll_interval = omega arith in
    omega int_laws

module _ (is_done : Time → Bool) (rand : ℕ → ℕ → ℕ → ℕ) (worker : ℕ) (tenants : List TenantWeight)
    (draws : (n : ℕ) → AreDraws (rand n)) (a : All IsPositive tenants) where
  -- The loop ends within as many rounds as poll intervals fit before the deadline.
  loop-Ended :
      (fuel k : ℕ) (deadline : Time) (w : World)
      → deadline ≤ℤ w.clock +ℤ pos (fuel * poll_interval)
      → Ended (dequeue_loop is_done rand fuel k worker tenants deadline w) w
  unfolding dequeue_loop
  loop-Ended zero k deadline w h =
      expired-Ended (ltb_ℤ w.clock deadline) w (no_time w.clock deadline h)
  loop-Ended (suc fuel) k deadline w h =
      let p = poll (rand k) worker tenants w in
      let (usual, same, kept) = poll-IsQuiet (rand k) worker tenants w (draws k) a in
      let after_sleep = sleep poll_interval p.1 in
      round-Ended (ltb_ℤ w.clock deadline) (is_done w.clock) p
        (λ w'. elim (is_done (sleep poll_interval w').clock) [
          | true ↦ (err cancelled, sleep poll_interval w')
          | false ↦
              dequeue_loop is_done rand fuel (suc k) worker tenants deadline
                (sleep poll_interval w')
        ])
        w (usual, kept)
        (λ early.
          sleep-Ended (is_done after_sleep.clock)
            (dequeue_loop is_done rand fuel (suc k) worker tenants deadline after_sleep) after_sleep
            w kept
            (let (u, d) =
                loop-Ended fuel (suc k) deadline after_sleep
                  (one_less p.1.clock w.clock deadline fuel same h) in
              (u, d ∙ kept)))

  pub dequeue-Ended :
      (timeout : ℕ) (w : World) → Ended (dequeue is_done rand worker tenants timeout w) w
  unfolding dequeue
  dequeue-Ended timeout w =
      loop-Ended (timeout / poll_interval + 1) 0 (w.clock +ℤ pos timeout) w
        (enough_rounds w.clock timeout)

-- Dequeue ends: for positive weights and legal draws, whatever the timeout, whatever Redis answers and
-- whenever the context is done, the rounds that the timeout allows are enough.
pub dequeue_ends :
    (is_done : Time → Bool) (rand : ℕ → ℕ → ℕ → ℕ) (worker : ℕ) (tenants : List TenantWeight)
    (timeout : ℕ) (w : World)
    → ((n : ℕ) → AreDraws (rand n))
    → All IsPositive tenants
    → (dequeue is_done rand worker tenants timeout w).0 ≢ err out_of_fuel
dequeue_ends is_done rand worker tenants timeout w draws a =
    (dequeue-Ended is_done rand worker tenants draws a timeout w).0.0

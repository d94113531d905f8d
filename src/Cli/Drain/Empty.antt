-- ===== src/Cli/Drain/Empty.antt =====
-- cmd/sluice-cli/main.go, cmdDrain: what it leaves of the queues.
use jobit.Prelude.{
  ℕ, zero, suc, ◌≡◌, refl, ◌∙◌, ◌⊎◌, inl, inr, ◌&&◌, Option, none, some, List, [], ◌∷◌, length,
  ◌==◌, Bool-cases,
}
use jobit.World.{
  World, Redis, Element, Bucket, bucket_eq, Outcome, done, refused, lost, skipped, Result, ok, err,
  set_queue, redis_exec, llen, del, next_outcome, later, answer_redis,
}
use jobit.Cli.Drain.{
  QueueKey, Totals, deleted, measured, drain_key, drain_keys, drain_pages, cmd_drain,
}

abbrev pub queue_of : QueueKey → Redis → List Element
queue_of (b, t) r = r.queues b t

-- From one world to another in which Postgres is the same and each queue is as it was or empty.
pub record Spares (w w' : World) : Type 0 where
  pub db : w'.db ≡ w.db
  pub queue :
      (k : QueueKey) → (queue_of k w'.redis ≡ queue_of k w.redis) ⊎ (queue_of k w'.redis ≡ [])

Spares-refl : (w : World) → Spares w w
Spares-refl w = record { db = refl; queue = λ k. inl refl }

Spares-trans : (w v w' : World) → Spares w v → Spares v w' → Spares w w'
Spares-trans w v w' a b = record {
  db = b.db ∙ a.db;
  queue = λ k. elim (b.queue k) [
    | inl e ↦ elim (a.queue k) [ inl f ↦ inl (e ∙ f) | inr f ↦ inr (e ∙ f) ]
    | inr e ↦ inr e
  ];
}

set_queue-empty :
    (b : Bucket) (t : ℕ) (r : Redis) (k : QueueKey)
    → (queue_of k (set_queue b t [] r) ≡ queue_of k r) ⊎ (queue_of k (set_queue b t [] r) ≡ [])
set_queue-empty b t r (c, u) = elim (Bool-cases (bucket_eq c b && u == t)) [
  | inl e ↦ inr (rw e refl)
  | inr e ↦ inl (rw e refl)
]

del-Spares : (b : Bucket) (t : ℕ) (w : World) → Spares w (del b t w).1
unfolding redis_exec
del-Spares b t w = go (next_outcome w.script)
  where
    go :
        (o : Outcome)
        → Spares w
            (answer_redis o
              (set_queue b t [] w.redis, ok tt)
              (record w { script = later w.script })).1
    go done = record { db = refl; queue = set_queue-empty b t w.redis }
    go refused = record { db = refl; queue = λ k. inl refl }
    go lost = record { db = refl; queue = set_queue-empty b t w.redis }
    go skipped = record { db = refl; queue = set_queue-empty b t w.redis }

llen-Spares : (b : Bucket) (t : ℕ) (w : World) → Spares w (llen b t w).1
unfolding redis_exec
llen-Spares b t w = go (next_outcome w.script)
  where
    go :
        (o : Outcome)
        → Spares w
            (answer_redis o
              (w.redis, ok (length (w.redis.queues b t)))
              (record w { script = later w.script })).1
    go done = record { db = refl; queue = λ k. inl refl }
    go refused = record { db = refl; queue = λ k. inl refl }
    go lost = record { db = refl; queue = λ k. inl refl }
    go skipped = record { db = refl; queue = λ k. inl refl }

deleted-world : (n : ℕ) (s : Totals) (p : Result (Unit {0}) × World) → (deleted n s p).1 ≡ p.1
deleted-world n s (ok _, w) = refl
deleted-world n s (err e, w) = refl

measured-Spares : (k : QueueKey) (s : Totals) (p : Result ℕ × World) → Spares p.1 (measured k s p).1
measured-Spares k s (ok zero, w) = Spares-refl w
measured-Spares (b, t) s (ok (suc n), w) =
    rw (deleted-world (suc n) s (del b t w)) (del-Spares b t w)
measured-Spares k s (err e, w) = Spares-refl w

keys-Spares : (ks : List QueueKey) (s : Totals) (w : World) → Spares w (drain_keys ks s w).1
unfolding drain_keys drain_key
keys-Spares [] s w = Spares-refl w
keys-Spares ((b, t) ∷ ks) s w =
    let (s', v) = drain_key (b, t) s w in
    Spares-trans w v (drain_keys ks s' v).1
      (Spares-trans w (llen b t w).1 v (llen-Spares b t w) (measured-Spares (b, t) s (llen b t w)))
      (keys-Spares ks s' v)

pages-Spares :
    (pages : List (Option (List QueueKey))) (s : Totals) (w : World)
    → Spares w (drain_pages pages s w).1
unfolding drain_pages
pages-Spares [] s w = Spares-refl w
pages-Spares (none ∷ pages) s w = Spares-refl w
pages-Spares (some ks ∷ pages) s w =
    let (s', v) = drain_keys ks s w in
    Spares-trans w v (drain_pages pages s' v).1 (keys-Spares ks s w) (pages-Spares pages s' v)

-- However Redis answers, a drain leaves Postgres alone, and each queue as it was or empty.
pub cmd_drain-Spares :
    (pages : List (Option (List QueueKey))) (w : World) → Spares w (cmd_drain pages w).1
unfolding cmd_drain
cmd_drain-Spares pages w = pages-Spares pages (record { jobs = 0; queues = 0 }) w

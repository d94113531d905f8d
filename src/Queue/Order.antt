-- ===== src/Queue/Order.antt =====
-- internal/queue/queue.go, Enqueue and Dequeue: what a poll cycle takes.
use jobit.Prelude.{ℕ, ◌≡◌, refl, ◌∙◌, ap, none, some, List, [], ◌∷◌, ◌++◌, arith, All}
use jobit.World.{
  healthy, World, Element, uuid_text, Bucket, Redis, set_queue, set_processing, pop_right, done,
  Result, ok, err, Call, redis_exec, answer_redis,
}
use jobit.Queue.{lmove, scan, found_or}

-- RPOP takes what was pushed first.
pub pop_right-snoc :
    (rest : List Element) (e : Element) → pop_right (rest ++ e ∷ []) ≡ some (rest, e)
pop_right-snoc [] e = refl
pop_right-snoc (x ∷ rest) e = rw (pop_right-snoc rest e) refl

abbrev pub IsEmptyAt : Redis → Bucket × ℕ → Type 0
IsEmptyAt r (b, t) = r.queues b t ≡ []

lmove_empty :
    (worker : ℕ) (b : Bucket) (t : ℕ) (r : Redis)
    → r.queues b t ≡ []
    → lmove worker b t r ≡ (r, ok none)
unfolding lmove
lmove_empty worker b t r h = ground arith

lmove_snoc :
    (worker : ℕ) (b : Bucket) (t : ℕ) (r : Redis) (rest : List Element) (e : Element)
    → r.queues b t ≡ rest ++ e ∷ []
    → lmove worker b t r
      ≡ (set_processing worker (e ∷ r.processing worker) (set_queue b t rest r), ok (some e))
unfolding lmove
lmove_snoc worker b t r rest e h = ground (arith, ap pop_right h, pop_right-snoc rest e)

-- What a bind does with the answer of its first call.
abbrev pub after : {A B : Type 0} → Result A × World → (A → Call B) → Result B × World
after (r, w') k = elim r [ ok a ↦ k a w' | err e ↦ (err e, w') ]

pub scan_skip :
    (worker : ℕ) (k : Bucket × ℕ) (keys : List (Bucket × ℕ)) (w : World)
    → IsEmptyAt w.redis k
    → scan worker (k ∷ keys) (healthy w) ≡ scan worker keys (healthy w)
unfolding scan redis_exec
scan_skip worker (b, t) keys w h =
    ap (λ p. after (answer_redis done p (healthy w)) (λ e. found_or e (scan worker keys)))
      (lmove_empty worker b t w.redis h)

scan_take :
    (worker : ℕ) (b : Bucket) (t : ℕ) (keys : List (Bucket × ℕ)) (w : World) (rest : List Element)
    (id : ℕ)
    → w.redis.queues b t ≡ rest ++ uuid_text id ∷ []
    → scan worker ((b, t) ∷ keys) (healthy w) ≡ (
      ok (some id),
      record w {
        redis =
            set_processing worker
              (uuid_text id ∷ w.redis.processing worker)
              (set_queue b t rest w.redis);
        script = [];
      },
    )
unfolding scan redis_exec
scan_take worker b t keys w rest id h =
    ap (λ p. after (answer_redis done p (healthy w)) (λ e. found_or e (scan worker keys)))
      (lmove_snoc worker b t w.redis rest (uuid_text id) h)

-- While Redis answers and the lists of all earlier keys are empty, a poll cycle takes the rightmost
-- element of the next list, a job's id, puts it at the head of the worker's own list, and touches
-- nothing else.
pub scan_first :
    (worker : ℕ) (before : List (Bucket × ℕ)) (b : Bucket) (t : ℕ) (after : List (Bucket × ℕ))
    (w : World) (rest : List Element) (id : ℕ)
    → All (IsEmptyAt w.redis) before
    → w.redis.queues b t ≡ rest ++ uuid_text id ∷ []
    → scan worker (before ++ (b, t) ∷ after) (healthy w) ≡ (
      ok (some id),
      record w {
        redis =
            set_processing worker
              (uuid_text id ∷ w.redis.processing worker)
              (set_queue b t rest w.redis);
        script = [];
      },
    )
scan_first worker [] b t after w rest id empty h = scan_take worker b t after w rest id h
scan_first worker (k ∷ before) b t after w rest id empty h =
    scan_skip worker k (before ++ (b, t) ∷ after) w empty.0
    ∙ scan_first worker before b t after w rest id empty.1 h

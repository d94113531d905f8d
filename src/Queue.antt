-- ===== src/Queue.antt =====
-- internal/queue/queue.go: the priority queues of each tenant, the workers' lists of jobs in flight,
-- and the heartbeats.
pub mod Shuffle
pub mod Fair
pub mod Order
pub mod Ends
pub mod Only
use jobit.Prelude.{
  map, ℕ, zero, suc, ◌+◌, ◌/◌, ◌+◌, Bool, true, false, not, Option, none, some, List, [], ◌∷◌, ◌++◌,
  filter, if◌then◌else◌, ◌==◌,
}
use jobit.Prelude.Int.{ℤ, pos, ◌+ℤ◌, ltb_ℤ, leb_ℤ}
use jobit.Job.{Time, priority_high, priority_normal}
use jobit.World.{
  World, Element, uuid_text, other_text, Bucket, queue_1, queue_5, queue_10, Redis, set_queue,
  set_processing, pop_right, is_uuid, lpush, Result, ok, err, cancelled, panicked, out_of_fuel,
  Call, pure, raise, ◌>>=◌, ◌>>◌, redis_exec,
}
use Shuffle.{TenantWeight, Run, returned, stopped, weighted_shuffle}

unfoldable pub bucket_for_priority : ℤ → Bucket
bucket_for_priority priority =
    if leb_ℤ priority priority_high
    then queue_1
    else if leb_ℤ priority priority_normal
    then queue_5
    else queue_10

abbrev pub priority_buckets : List Bucket
priority_buckets = queue_1 ∷ queue_5 ∷ queue_10 ∷ []

unfoldable pub enqueue : ℕ → ℕ → ℤ → Call (Unit {0})
enqueue tenant_id job_id priority =
    redis_exec (λ r. (lpush (bucket_for_priority priority) tenant_id (uuid_text job_id) r, ok tt))

-- LMOVE key dest RIGHT LEFT; `none` is redis.Nil.
unfoldable pub lmove : ℕ → Bucket → ℕ → Redis → Redis × Result (Option Element)
lmove worker b t r = elim (pop_right (r.queues b t)) [
  | none ↦ (r, ok none)
  | some (rest, e) ↦
      (set_processing worker (e ∷ r.processing worker) (set_queue b t rest r), ok (some e))
]

-- `uuid.Parse`
abbrev pub parse : Element → Option ℕ
parse (uuid_text id) = some id
parse (other_text _) = none

-- The keys in the order in which a poll cycle visits them.
abbrev pub keys_of_tenant : ℕ → List (Bucket × ℕ)
keys_of_tenant t = map (λ b. (b, t)) priority_buckets

abbrev pub keys_in_order : List ℕ → List (Bucket × ℕ)
keys_in_order [] = []
keys_in_order (t ∷ ts) = keys_of_tenant t ++ keys_in_order ts

-- What is popped and does not parse stays in the worker's list, and the scan goes on.
abbrev pub found_or : Option Element → Call (Option ℕ) → Call (Option ℕ)
found_or none next = next
found_or (some (uuid_text id)) next = pure (some id)
found_or (some (other_text _)) next = next

unfoldable pub scan : ℕ → List (Bucket × ℕ) → Call (Option ℕ)
scan worker [] = pure none
scan worker ((b, t) ∷ keys) = redis_exec (lmove worker b t) >>= λ e. found_or e (scan worker keys)

-- One poll cycle; without tenants nothing is asked.
abbrev pub scan_order : ℕ → Run (List ℕ) → Call (Option ℕ)
scan_order worker (returned order) = scan worker (keys_in_order order)
scan_order worker Run.panicked = raise panicked
scan_order worker stopped = raise out_of_fuel

unfoldable pub poll : (intn : ℕ → ℕ → ℕ) → ℕ → List TenantWeight → Call (Option ℕ)
poll intn worker [] = pure none
poll intn worker (t ∷ ts) = scan_order worker (weighted_shuffle intn (t ∷ ts))

-- pollInterval, in nanoseconds.
abbrev pub poll_interval : ℕ
poll_interval = 100000000

abbrev pub sleep : ℕ → World → World
sleep n w = record w { clock = w.clock +ℤ pos n }

-- The loop of Dequeue. `is_done` tells when the context is done; `rand k` are the draws of the k-th
-- cycle. Each cycle takes one unit of fuel, and on the clock it takes the poll interval.
unfoldable pub dequeue_loop :
    (is_done : Time → Bool) (rand : ℕ → ℕ → ℕ → ℕ)
    → ℕ
    → ℕ
    → ℕ
    → List TenantWeight
    → Time
    → Call (Option ℕ)
dequeue_loop is_done rand zero k worker tenants deadline w =
    if ltb_ℤ w.clock deadline then (err out_of_fuel, w) else (ok none, w)
dequeue_loop is_done rand (suc fuel) k worker tenants deadline w = elim (ltb_ℤ w.clock deadline) [
  | false ↦ (ok none, w)
  | true ↦ elim (is_done w.clock) [
    | true ↦ (err cancelled, w)
    | false ↦
        let (r, w') = poll (rand k) worker tenants w in
        elim r [
          | err e ↦ (err e, w')
          | ok (some id) ↦ (ok (some id), w')
          | ok none ↦ elim (is_done (sleep poll_interval w').clock) [
            | true ↦ (err cancelled, sleep poll_interval w')
            | false ↦
                dequeue_loop is_done rand fuel (suc k) worker tenants deadline
                  (sleep poll_interval w')
          ]
        ]
  ]
]

-- A round for each poll interval of the timeout, and one for what is left of it.
unfoldable pub dequeue :
    (is_done : Time → Bool) (rand : ℕ → ℕ → ℕ → ℕ) → ℕ → List TenantWeight → ℕ → Call (Option ℕ)
dequeue is_done rand worker tenants timeout w =
    dequeue_loop is_done rand (timeout / poll_interval + 1) 0 worker tenants
      (w.clock +ℤ pos timeout) w

-- HeartbeatTTL, in nanoseconds.
abbrev pub heartbeat_ttl : ℕ
heartbeat_ttl = 15000000000

-- SET key token EX ttl
unfoldable pub heartbeat : ℕ → ℕ → Call (Unit {0})
heartbeat job_id token w =
    redis_exec
      (λ r. (
        record r {
          heartbeats = λ j.
              if j == job_id then some (token, w.clock +ℤ pos heartbeat_ttl) else r.heartbeats j;
        },
        ok tt,
      ))
      w

-- LREM key 0 job_id
unfoldable pub remove_from_processing : ℕ → ℕ → Call (Unit {0})
remove_from_processing worker job_id = redis_exec (λ r.
    (set_processing worker (filter (λ e. not (is_uuid job_id e)) (r.processing worker)) r, ok tt))

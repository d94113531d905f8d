-- ===== src/World/Keys.antt =====
-- The keys of Redis that the program uses: `queue:{bucket}:{tenant}`, `processing:{worker}`,
-- `heartbeat:{job}` and `ratelimit:{tenant}:{second}`, with the commands on lists.
use jobit.Prelude.{
  ℕ, ◌≡◌, refl, Bool, true, false, Option, none, some, List, [], ◌∷◌, ◌==◌, if◌then◌else◌, ◌&&◌,
}
use jobit.Prelude.Int.{ℤ}
use jobit.Job.{Time}

-- An element of a list: the text of a UUID, or a text that `uuid.Parse` refuses.
pub data Element : Type 0 where
  uuid_text : ℕ → Element
  other_text : ℕ → Element

pub data Bucket : Type 0 where
  queue_1 queue_5 queue_10 : Bucket

abbrev pub bucket_eq : Bucket → Bucket → Bool
bucket_eq queue_1 queue_1 = true
bucket_eq queue_5 queue_5 = true
bucket_eq queue_10 queue_10 = true
bucket_eq _ _ = false

pub bucket_eq_refl : (b : Bucket) → bucket_eq b b ≡ true
bucket_eq_refl queue_1 = refl
bucket_eq_refl queue_5 = refl
bucket_eq_refl queue_10 = refl

-- A list is written from its left end. `counter` is keyed by tenant and Unix second.
pub record Redis : Type 0 where
  pub queues : Bucket → ℕ → List Element
  pub processing : ℕ → List Element
  pub heartbeats : ℕ → Option (ℕ × Time)
  pub counter : ℕ → ℤ → ℕ

abbrev pub set_queue : Bucket → ℕ → List Element → Redis → Redis
set_queue b t l r = record r { queues = λ c u. if bucket_eq c b && u == t then l else r.queues c u }

abbrev pub set_processing : ℕ → List Element → Redis → Redis
set_processing w l r = record r { processing = λ v. if v == w then l else r.processing v }

-- The rightmost element and what stands left of it.
abbrev pub pop_right : List Element → Option (List Element × Element)
pop_right [] = none
pop_right (x ∷ xs) = elim (pop_right xs) [
  | none ↦ some ([], x)
  | some (rest, last) ↦ some (x ∷ rest, last)
]

abbrev pub is_uuid : ℕ → Element → Bool
is_uuid id (uuid_text n) = n == id
is_uuid id (other_text _) = false

-- LPUSH
abbrev pub lpush : Bucket → ℕ → Element → Redis → Redis
lpush b t e r = set_queue b t (e ∷ r.queues b t) r

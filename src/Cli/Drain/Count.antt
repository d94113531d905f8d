-- ===== src/Cli/Drain/Count.antt =====
-- cmd/sluice-cli/main.go, cmdDrain: while Redis answers, which queues are empty afterwards and how many
-- jobs the report names.
use mathlib.Core.Path.{subst}
use jobit.Prelude.{
  ℕ, zero, suc, ◌+◌, ◌≡◌, refl, sym, ◌∙◌, ap, inl, inr, Bool, true, false, ◌&&◌, ◌||◌, some, List,
  [], ◌∷◌, ◌++◌, map, length, arith, ◌==◌, ==_refl, if◌then◌else◌, Bool-cases, All,
}
use jobit.World.{
  World, Redis, Element, Bucket, queue_1, queue_5, queue_10, bucket_eq, ok, healthy, set_queue,
  redis_exec,
}
use jobit.Cli.Drain.{
  QueueKey, Totals, Report, already_empty, scan_failed, removed, counted_in, measured, drain_key,
  drain_keys, report, drain_pages, cmd_drain,
}
use jobit.Cli.Drain.Empty.{queue_of}

-- The drain of a list of keys, on Redis alone.
abbrev cleared : ℕ → QueueKey → Totals → Redis → Totals × Redis
cleared zero k s r = (s, r)
cleared (suc n) (b, t) s r = (counted_in (suc n) s, set_queue b t [] r)

abbrev clear_key : QueueKey → Totals → Redis → Totals × Redis
clear_key k s r = cleared (length (queue_of k r)) k s r

abbrev clear_keys : List QueueKey → Totals → Redis → Totals × Redis
clear_keys [] s r = (s, r)
clear_keys (k ∷ ks) s r = let (s', r') = clear_key k s r in clear_keys ks s' r'

abbrev pub concat : List (List QueueKey) → List QueueKey
concat [] = []
concat (ks ∷ pages) = ks ++ concat pages

abbrev with_redis : World → Redis → World
with_redis w r = record (healthy w) { redis = r }

measured-cleared :
    (n : ℕ) (k : QueueKey) (s : Totals) (w : World) (r : Redis)
    → measured k s (ok n, with_redis w r)
      ≡ (let (s', r') = cleared n k s r in (s', with_redis w r'))
unfolding redis_exec
measured-cleared zero k s w r = refl
measured-cleared (suc n) (b, t) s w r = refl

keys-clear :
    (ks : List QueueKey) (s : Totals) (w : World) (r : Redis)
    → drain_keys ks s (with_redis w r) ≡ (let (s', r') = clear_keys ks s r in (s', with_redis w r'))
unfolding drain_keys drain_key redis_exec
keys-clear [] s w r = refl
keys-clear ((b, t) ∷ ks) s w r =
    let (s', r') = clear_key (b, t) s r in
    ap (λ p. drain_keys ks p.0 p.1) (measured-cleared (length (r.queues b t)) (b, t) s w r)
    ∙ keys-clear ks s' w r'

clear-append :
    (ks ls : List QueueKey) (s : Totals) (r : Redis)
    → clear_keys (ks ++ ls) s r ≡ (let (s', r') = clear_keys ks s r in clear_keys ls s' r')
clear-append [] ls s r = refl
clear-append (k ∷ ks) ls s r = let (s', r') = clear_key k s r in clear-append ks ls s' r'

pages-clear :
    (pages : List (List QueueKey)) (s : Totals) (w : World) (r : Redis)
    → drain_pages (map some pages) s (with_redis w r)
      ≡ (let (s', r') = clear_keys (concat pages) s r in (report s', with_redis w r'))
unfolding drain_pages
pages-clear [] s w r = refl
pages-clear (ks ∷ pages) s w r =
    let (s', r') = clear_keys ks s r in
    ap (λ p. drain_pages (map some pages) p.0 p.1) (keys-clear ks s w r)
    ∙ pages-clear pages s' w r'
    ∙ ap (λ p. (report p.0, with_redis w p.1)) (sym (clear-append ks (concat pages) s r))

-- The test by which a command picks a list.
abbrev pub same_queue : QueueKey → QueueKey → Bool
same_queue (b, t) (c, u) = bucket_eq c b && u == t

abbrev pub listed : QueueKey → List QueueKey → Bool
listed k [] = false
listed k (l ∷ ks) = same_queue l k || listed k ks

nil_length : (xs : List Element) → length xs ≡ 0 → xs ≡ []
nil_length [] h = refl
nil_length (x ∷ xs) h = cc

same_bucket : (c b : Bucket) → bucket_eq c b ≡ true → c ≡ b
same_bucket queue_1 queue_1 h = refl
same_bucket queue_5 queue_5 h = refl
same_bucket queue_10 queue_10 h = refl
same_bucket queue_1 queue_5 h = cc
same_bucket queue_1 queue_10 h = cc
same_bucket queue_5 queue_1 h = cc
same_bucket queue_5 queue_10 h = cc
same_bucket queue_10 queue_1 h = cc
same_bucket queue_10 queue_5 h = cc

same_queue_path : (l k : QueueKey) → same_queue l k ≡ true → k ≡ l
same_queue_path (b, t) (c, u) h =
    let e : c ≡ b = same_bucket c b (ground (arith, h)) in
    let f : u ≡ t = ground (arith, h) in rw (e, f) refl

cleared_queue :
    (n : ℕ) (l k : QueueKey) (s : Totals) (r : Redis)
    → length (queue_of l r) ≡ n
    → queue_of k (cleared n l s r).1 ≡ (if same_queue l k then [] else queue_of k r)
cleared_queue zero l k s r h = elim (Bool-cases (same_queue l k)) [
  | inl e ↦ rw e (ap (λ m. queue_of m r) (same_queue_path l k e) ∙ nil_length (queue_of l r) h)
  | inr e ↦ rw e refl
]
cleared_queue (suc n) (b, t) (c, u) s r h = refl

clear_queue :
    (ks : List QueueKey) (k : QueueKey) (s : Totals) (r : Redis)
    → queue_of k (clear_keys ks s r).1 ≡ (if listed k ks then [] else queue_of k r)
clear_queue [] k s r = refl
clear_queue (l ∷ ks) k s r =
    let (s', r') = clear_key l s r in
    clear_queue ks k s' r'
    ∙ ap (λ q. if listed k ks then [] else q) (cleared_queue (length (queue_of l r)) l k s r refl)
    ∙ nested (same_queue l k) (listed k ks) (queue_of k r)
  where
    nested :
        (a b : Bool) (q : List Element)
        → (if b then [] else (if a then [] else q)) ≡ (if a || b then [] else q)
    nested true true q = refl
    nested true false q = refl
    nested false b q = refl

-- The elements of some lists together.
abbrev pub waiting : List QueueKey → Redis → ℕ
waiting [] r = 0
waiting (k ∷ ks) r = length (queue_of k r) + waiting ks r

-- Keys that are pairwise different.
abbrev pub AreDistinct : List QueueKey → Type 0
AreDistinct [] = Unit
AreDistinct (k ∷ ks) = All (λ l. same_queue k l ≡ false) ks × AreDistinct ks

waiting_absent :
    (b : Bucket) (t : ℕ) (ks : List QueueKey) (r : Redis)
    → All (λ l. same_queue (b, t) l ≡ false) ks
    → waiting ks (set_queue b t [] r) ≡ waiting ks r
waiting_absent b t [] r h = refl
waiting_absent b t ((c, u) ∷ ks) r (e, h) = rw e (rw (waiting_absent b t ks r h) refl)

pub same_queue_refl : (k : QueueKey) → same_queue k k ≡ true
same_queue_refl (queue_1, t) = ==_refl t
same_queue_refl (queue_5, t) = ==_refl t
same_queue_refl (queue_10, t) = ==_refl t

-- Where `k` is not `l`, neither is `l` the same as `k`.
same_queue_sym : (k l : QueueKey) → same_queue k l ≡ false → same_queue l k ≡ false
same_queue_sym k l h = elim (Bool-cases (same_queue l k)) [
  | inl e ↦
      let same : same_queue k l ≡ true =
        ap (λ m. same_queue m l) (same_queue_path l k e) ∙ same_queue_refl l in
      absurd (true_not_false (sym same ∙ h))
  | inr e ↦ e
]
  where
    true_not_false : true ≡ false → ⊥
    true_not_false e = cc

waiting_head :
    (b : Bucket) (t : ℕ) (ks : List QueueKey) (r : Redis)
    → All (λ l. same_queue (b, t) l ≡ false) ks
    → waiting ((b, t) ∷ ks) (set_queue b t [] r) + length (r.queues b t) ≡ waiting ((b, t) ∷ ks) r
waiting_head b t ks r away =
    let others = waiting_absent b t ks r away in rw (same_queue_refl (b, t), others) (omega arith)

waiting_present :
    (b : Bucket) (t : ℕ) (ks : List QueueKey) (r : Redis)
    → AreDistinct ks
    → listed (b, t) ks ≡ true
    → waiting ks (set_queue b t [] r) + length (r.queues b t) ≡ waiting ks r
waiting_present b t [] r d h = cc
waiting_present b t (k ∷ ks) r (away, d) h = elim (Bool-cases (same_queue k (b, t))) [
  | inl e ↦
      let p : (b, t) ≡ k = same_queue_path k (b, t) e in
      subst
        (λ m. waiting (m ∷ ks) (set_queue b t [] r) + length (r.queues b t) ≡ waiting (m ∷ ks) r) p
        (waiting_head b t ks r (subst (λ m. All (λ l. same_queue m l ≡ false) ks) (sym p) away))
  | inr e ↦
      let rest = waiting_present b t ks r d (ground (arith, h, e)) in
      rw (same_queue_sym k (b, t) e) (omega (arith, rest))
]

cleared_count :
    (n : ℕ) (k : QueueKey) (ks : List QueueKey) (s : Totals) (r : Redis)
    → length (queue_of k r) ≡ n
    → AreDistinct ks
    → listed k ks ≡ true
    → (let (s', r') = cleared n k s r in s'.jobs + waiting ks r' ≡ s.jobs + waiting ks r)
cleared_count zero k ks s r h d l = refl
cleared_count (suc n) (b, t) ks s r h d l =
    let present = waiting_present b t ks r d l in omega (arith, present, h)

clear_count :
    (ls ks : List QueueKey) (s : Totals) (r : Redis)
    → AreDistinct ks
    → All (λ l. listed l ks ≡ true) ls
    → (let (s', r') = clear_keys ls s r in s'.jobs + waiting ks r' ≡ s.jobs + waiting ks r)
clear_count [] ks s r d a = refl
clear_count (l ∷ ls) ks s r d (here, a) =
    let (s', r') = clear_key l s r in
    clear_count ls ks s' r' d a ∙ cleared_count (length (queue_of l r)) l ks s r refl d here

-- The number of jobs that a report names.
abbrev pub total : Report → ℕ
total already_empty = 0
total scan_failed = 0
total (removed s) = s.jobs

total-report : (s : Totals) → total (report s) ≡ s.jobs
total-report s = ground arith

-- While Redis answers, a drain empties exactly the lists that SCAN showed it, and its report names as
-- many jobs as have left the lists, for any list of distinct keys that has all that SCAN showed, also
-- where SCAN showed one twice.
pub cmd_drain_empties :
    (pages : List (List QueueKey)) (keys : List QueueKey) (k : QueueKey) (w : World)
    → AreDistinct keys
    → All (λ l. listed l keys ≡ true) (concat pages)
    → let (r, w') = cmd_drain (map some pages) (healthy w) in
      (queue_of k w'.redis ≡ (if listed k (concat pages) then [] else queue_of k w.redis))
      × (total r + waiting keys w'.redis ≡ waiting keys w.redis)
unfolding cmd_drain
cmd_drain_empties pages keys k w d a =
    let start : Totals = record { jobs = 0; queues = 0 } in
    let drained = pages-clear pages start w w.redis in
    let (s', r') = clear_keys (concat pages) start w.redis in
    (
      ap (λ p. queue_of k p.1.redis) drained ∙ clear_queue (concat pages) k start w.redis,
      ap (λ p. total p.0 + waiting keys p.1.redis) drained
          ∙ ap (λ n. n + waiting keys r') (total-report s')
          ∙ clear_count (concat pages) keys start w.redis d a
          ∙ omega arith,
    )

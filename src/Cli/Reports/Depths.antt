-- ===== src/Cli/Reports/Depths.antt =====
-- cmd/sluice-cli/main.go: the depths that dump-scheduler prints beside the report of drain.
use jobit.Prelude.{
  ℕ, zero, suc, ◌+◌, ◌≡◌, refl, sym, ◌∙◌, ap, true, some, List, [], ◌∷◌, ◌++◌, map, length, arith,
  All, if◌then◌else◌,
}
use jobit.World.{World, queue_1, Redis, healthy, redis_exec, exec, ok}
use jobit.Cli.Drain.{QueueKey, cmd_drain}
use jobit.Cli.Drain.Empty.{queue_of}
use jobit.Cli.Drain.Count.{
  AreDistinct, concat, listed, same_queue_refl, total, waiting, cmd_drain_empties,
}
use jobit.Cli.Reports.{
  Depth, noted, depths_in, dump_depths, Dump, cmd_dump_scheduler, select_counts, select_active,
  select_upcoming,
}

abbrev pub sum_depths : List Depth → ℕ
sum_depths [] = 0
sum_depths ((k, n) ∷ ds) = n + sum_depths ds

sum_depths-append : (ds es : List Depth) → sum_depths (ds ++ es) ≡ sum_depths ds + sum_depths es
sum_depths-append [] es = omega arith
sum_depths-append ((k, n) ∷ ds) es = let rest = sum_depths-append ds es in omega (arith, rest)

sum_noted :
    (n : ℕ) (k : QueueKey) (ds : List Depth) → sum_depths (noted k (ok n) ds) ≡ n + sum_depths ds
sum_noted zero k ds = omega arith
sum_noted (suc n) k ds = refl

depths_world : (ks : List QueueKey) (w : World) → (depths_in ks (healthy w)).1 ≡ healthy w
unfolding depths_in redis_exec
depths_world [] w = refl
depths_world ((b, t) ∷ ks) w = depths_world ks w

depths_waiting :
    (ks : List QueueKey) (w : World) → sum_depths (depths_in ks (healthy w)).0 ≡ waiting ks w.redis
unfolding depths_in redis_exec
depths_waiting [] w = refl
depths_waiting ((b, t) ∷ ks) w =
    sum_noted (length (w.redis.queues b t)) (b, t) (depths_in ks (healthy w)).0
    ∙ ap (λ n. length (w.redis.queues b t) + n) (depths_waiting ks w)

waiting-append :
    (ks ls : List QueueKey) (r : Redis) → waiting (ks ++ ls) r ≡ waiting ks r + waiting ls r
waiting-append [] ls r = omega arith
waiting-append (k ∷ ks) ls r = let rest = waiting-append ks ls r in omega (arith, rest)

dump_waiting :
    (pages : List (List QueueKey)) (w : World)
    → sum_depths (dump_depths (map some pages) (healthy w)).0 ≡ waiting (concat pages) w.redis
unfolding dump_depths
dump_waiting [] w = refl
dump_waiting (ks ∷ pages) w =
    sum_depths-append (depths_in ks (healthy w)).0 _
    ∙ ap
        (λ v.
          sum_depths (depths_in ks (healthy w)).0 + sum_depths (dump_depths (map some pages) v).0)
        (depths_world ks w)
    ∙ ap (λ n. n + sum_depths (dump_depths (map some pages) (healthy w)).0) (depths_waiting ks w)
    ∙ ap (λ n. waiting ks w.redis + n) (dump_waiting pages w)
    ∙ sym (waiting-append ks (concat pages) w.redis)

listed_within :
    (ls ks : List QueueKey)
    → ((l : QueueKey) → listed l ls ≡ true → listed l ks ≡ true)
    → All (λ l. listed l ks ≡ true) ls
listed_within [] ks h = tt
listed_within (l ∷ ls) ks h =
    (h l (rw (same_queue_refl l) refl), listed_within ls ks (λ m e. h m (ground (arith, e))))

emptied_waiting :
    (ks ls : List QueueKey) (r r' : Redis)
    → ((k : QueueKey) → queue_of k r' ≡ (if listed k ks then [] else queue_of k r))
    → All (λ l. listed l ks ≡ true) ls
    → waiting ls r' ≡ 0
emptied_waiting ks [] r r' h a = refl
emptied_waiting ks (l ∷ ls) r r' h (e, a) =
    let gone : queue_of l r' ≡ [] = h l ∙ rw e refl in
    let rest = emptied_waiting ks ls r r' h a in rw gone (omega (arith, rest))

-- While the servers answer and SCAN shows no list twice, dump-scheduler prints a full report, whose
-- depths sum up to the number of jobs that drain reports in its place, and drain leaves none of the lists
-- with a job.
dump_agrees :
    (pages : List (List QueueKey)) (w : World)
    → AreDistinct (concat pages)
    → let (o, after_dump) = cmd_dump_scheduler (map some pages) (healthy w) in
      let (r, after_drain) = cmd_drain (map some pages) (healthy w) in
      (d : Dump) × (o ≡ some d)
      × (sum_depths d.depths ≡ total r)
      × (waiting (concat pages) after_drain.redis ≡ 0)
unfolding cmd_dump_scheduler select_counts select_active select_upcoming exec
dump_agrees pages w distinct =
    let keys = concat pages in
    let scanned = listed_within keys keys (λ l e. e) in
    let empty =
      emptied_waiting keys keys w.redis (cmd_drain (map some pages) (healthy w)).1.redis
        (λ k. (cmd_drain_empties pages keys k w distinct scanned).0) scanned in
    let (gone, left) = cmd_drain_empties pages keys (queue_1, 0) w distinct scanned in
    (_, refl, dump_waiting pages w ∙ omega (arith, left, empty), empty)

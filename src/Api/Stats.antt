-- ===== src/Api/Stats.antt =====
-- internal/api/stats_handler.go and internal/api/ws_handler.go: what the dashboard reads.
use jobit.Prelude.{ℕ, Option, none, some, List, [], ◌∷◌, ◌++◌}
use jobit.Prelude.Int.{ℤ}
use jobit.Job.{State}
use jobit.World.{
  World, Tenant, DeadLetterEntry, Bucket, queue_1, queue_5, queue_10, Result, ok, err, Call, llen,
}
use jobit.Storage.Schedules.{
  RunView, get_tenants, count_jobs_by_state, list_recent_runs, list_dead_letter,
}
use jobit.Api.{Response, ok_stats, ok_runs, ok_entries, internal_error, QueueDepth, limit_of}

-- An error counts as an empty queue.
abbrev pub depth_or_zero : Result ℕ → ℕ
depth_or_zero (ok n) = n
depth_or_zero (err e) = 0

unfoldable pub depth_at : Tenant → Bucket → World → QueueDepth × World
depth_at t b w =
    let (r, w') = llen b t.id w in
    (record { tenant_id = t.id; tenant = t.name; priority = b; depth = depth_or_zero r }, w')

unfoldable pub depths_at : Tenant → List Bucket → World → List QueueDepth × World
depths_at t [] w = ([], w)
depths_at t (b ∷ bs) w =
    let (d, w') = depth_at t b w in let (ds, w'') = depths_at t bs w' in (d ∷ ds, w'')

abbrev pub priorities : List Bucket
priorities = queue_1 ∷ queue_5 ∷ queue_10 ∷ []

unfoldable pub depths_of : List Tenant → World → List QueueDepth × World
depths_of [] w = ([], w)
depths_of (t ∷ ts) w =
    let (ds, w') = depths_at t priorities w in let (es, w'') = depths_of ts w' in (ds ++ es, w'')

abbrev pub depths_or_error : Result (List Tenant) × World → Result (List QueueDepth) × World
depths_or_error (ok ts, w) = let (ds, w') = depths_of ts w in (ok ds, w')
depths_or_error (err e, w) = (err e, w)

unfoldable pub queue_depths : Call (List QueueDepth)
queue_depths w = depths_or_error (get_tenants w)

abbrev pub counted :
    List QueueDepth
    → Result (List (State × ℕ)) × World
    → Option (List QueueDepth × List (State × ℕ)) × World
counted ds (ok cs, w) = (some (ds, cs), w)
counted ds (err e, w) = (none, w)

-- What handleStats and a tick of the web socket read: the depths, and then the counts.
abbrev pub counts_after :
    Result (List QueueDepth) × World → Option (List QueueDepth × List (State × ℕ)) × World
counts_after (err e, w) = (none, w)
counts_after (ok ds, w) = counted ds (count_jobs_by_state w)

unfoldable pub snapshot : World → Option (List QueueDepth × List (State × ℕ)) × World
snapshot w = counts_after (queue_depths w)

abbrev pub answer_stats : Option (List QueueDepth × List (State × ℕ)) × World → Response × World
answer_stats (some (ds, cs), w) = (ok_stats ds cs, w)
answer_stats (none, w) = (internal_error, w)

unfoldable pub handle_stats : World → Response × World
handle_stats w = answer_stats (snapshot w)

abbrev pub answer_runs : Result (List RunView) × World → Response × World
answer_runs (ok rs, w) = (ok_runs rs, w)
answer_runs (err e, w) = (internal_error, w)

unfoldable pub handle_recent_runs : Option ℤ → World → Response × World
handle_recent_runs limit w = answer_runs (list_recent_runs (limit_of limit) w)

abbrev pub answer_entries : Result (List DeadLetterEntry) × World → Response × World
answer_entries (ok es, w) = (ok_entries es, w)
answer_entries (err e, w) = (internal_error, w)

unfoldable pub handle_dead_letter : Option ℤ → World → Response × World
handle_dead_letter limit w = answer_entries (list_dead_letter (limit_of limit) w)

-- ===== src/Cli/Drain.antt =====
-- cmd/sluice-cli/main.go, cmdDrain.
pub mod Empty
pub mod Count
use jobit.Prelude.{ℕ, zero, suc, ◌+◌, ◌==◌, Option, none, some, List, [], ◌∷◌, if◌then◌else◌}
use jobit.World.{World, Bucket, Result, ok, err, llen, del}

-- A key that matches `queue:*`.
abbrev pub QueueKey : Type 0
QueueKey = Bucket × ℕ

-- `totalJobs` and `queueCount`.
pub record Totals : Type 0 where
  pub jobs : ℕ
  pub queues : ℕ

pub data Report : Type 0 where
  already_empty scan_failed : Report
  removed : Totals → Report

abbrev pub counted_in : ℕ → Totals → Totals
counted_in n s = record { jobs = s.jobs + n; queues = s.queues + 1 }

-- After DEL: an error is a warning.
abbrev pub deleted : ℕ → Totals → Result (Unit {0}) × World → Totals × World
deleted n s (ok _, w) = (counted_in n s, w)
deleted n s (err e, w) = (s, w)

-- After LLEN: `if err != nil || n == 0 { continue }`.
abbrev pub measured : QueueKey → Totals → Result ℕ × World → Totals × World
measured k s (ok zero, w) = (s, w)
measured (b, t) s (ok (suc n), w) = deleted (suc n) s (del b t w)
measured k s (err e, w) = (s, w)

unfoldable pub drain_key : QueueKey → Totals → World → Totals × World
drain_key (b, t) s w = measured (b, t) s (llen b t w)

unfoldable pub drain_keys : List QueueKey → Totals → World → Totals × World
drain_keys [] s w = (s, w)
drain_keys (k ∷ ks) s w = let (s', w') = drain_key k s w in drain_keys ks s' w'

abbrev pub report : Totals → Report
report s = if s.jobs == 0 then already_empty else removed s

-- The pages of SCAN until its cursor is 0; `none` is an error of SCAN.
unfoldable pub drain_pages : List (Option (List QueueKey)) → Totals → World → Report × World
drain_pages [] s w = (report s, w)
drain_pages (none ∷ pages) s w = (scan_failed, w)
drain_pages (some ks ∷ pages) s w = let (s', w') = drain_keys ks s w in drain_pages pages s' w'

unfoldable pub cmd_drain : List (Option (List QueueKey)) → World → Report × World
cmd_drain pages w = drain_pages pages (record { jobs = 0; queues = 0 }) w

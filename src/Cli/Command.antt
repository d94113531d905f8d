-- ===== src/Cli/Command.antt =====
-- cmd/sluice-cli/main.go, main and cmdQueueDepth: which command runs, and how the process ends.
use text.Mathlib.Text.{◌==◌ as str_eq}
use jobit.Prelude.{ℕ, String, Bool, Option, none, some, List, [], ◌∷◌, if◌then◌else◌}
use jobit.Prelude.Int.{ℤ, pos, negsuc}
use jobit.World.{
  World, DeadLetterEntry, Bucket, queue_1, queue_5, queue_10, Result, ok, err, fault, Call,
  redis_exec,
}
use jobit.Cli.{Exit, printed, fatal, cmd_replay, cmd_force_fail}
use jobit.Cli.Drain.{QueueKey, Report, scan_failed, cmd_drain}
use jobit.Cli.Reports.{Dump, cmd_dump_scheduler, cmd_list_dead}

-- A list has a length; LLEN of another value is an error.
abbrev pub bare_length : Option ℕ → Result ℕ
bare_length none = err fault
bare_length (some n) = ok n

-- LLEN of `queue:1`, `queue:5` or `queue:10`. No call of the program writes these keys, and the keys of
-- the tenants' queues are others: `bare` is what Redis holds there, `none` for a value that is no list.
unfoldable pub bare_llen : (bare : Bucket → Option ℕ) → Bucket → Call ℕ
bare_llen bare b = redis_exec (λ r. (r, bare_length (bare b)))

-- An error shows as -1.
abbrev pub shown_depth : Result ℕ → ℤ
shown_depth (ok n) = pos n
shown_depth (err e) = negsuc 0

unfoldable pub bare_depths : (Bucket → Option ℕ) → List Bucket → World → List (Bucket × ℤ) × World
bare_depths bare [] w = ([], w)
bare_depths bare (b ∷ bs) w =
    let (r, w') = bare_llen bare b w in
    let (ds, w'') = bare_depths bare bs w' in ((b, shown_depth r) ∷ ds, w'')

unfoldable pub cmd_queue_depth : (Bucket → Option ℕ) → World → List (Bucket × ℤ) × World
cmd_queue_depth bare w = bare_depths bare (queue_1 ∷ queue_5 ∷ queue_10 ∷ []) w

-- What the process shows before it ends.
pub data Shown : Type 0 where
  usage no_postgres unknown_command : Shown
  changed : Exit → Shown
  drained : Report → Shown
  dumped : Option Dump → Shown
  listed : Option (List DeadLetterEntry) → Shown
  depths : List (Bucket × ℤ) → Shown

abbrev pub is_shown : {A : Type 0} → Option A → ℕ
is_shown none = 1
is_shown (some a) = 0

-- The exit status.
abbrev pub status : Shown → ℕ
status usage = 1
status no_postgres = 1
status unknown_command = 1
status (changed fatal) = 1
status (changed printed) = 0
status (drained scan_failed) = 1
status (drained _) = 0
status (dumped d) = is_shown d
status (listed l) = is_shown l
status (depths ds) = 0

abbrev pub showing : {A : Type 0} → (A → Shown) → A × World → Shown × World
showing f (a, w) = (f a, w)

-- `uuid.Parse` of the first argument, where there is one.
abbrev pub first_id : (String → Option ℕ) → List String → Option ℕ
first_id parse_uuid [] = none
first_id parse_uuid (a ∷ _) = parse_uuid a

-- `pages` is what SCAN gives the commands that call it.
module _ (parse_uuid : String → Option ℕ) (pages : List (Option (List QueueKey)))
    (bare : Bucket → Option ℕ) where
  unfoldable pub dispatch : String → List String → World → Shown × World
  dispatch name args w =
      if str_eq name "replay"
      then showing changed (cmd_replay (first_id parse_uuid args) w)
      else if str_eq name "force-fail"
      then showing changed (cmd_force_fail (first_id parse_uuid args) w)
      else if str_eq name "drain"
      then showing drained (cmd_drain pages w)
      else if str_eq name "dump-scheduler"
      then showing dumped (cmd_dump_scheduler pages w)
      else if str_eq name "list-dead"
      then showing listed (cmd_list_dead w)
      else if str_eq name "queue-depth"
      then showing depths (cmd_queue_depth bare w)
      else (unknown_command, w)

  -- `connects` says that pgxpool.New gives no error; `args` is what follows the flags.
  unfoldable pub main : (connects : Bool) → (args : List String) → World → Shown × World
  main connects [] w = (usage, w)
  main connects (name ∷ args) w = if connects then dispatch name args w else (no_postgres, w)

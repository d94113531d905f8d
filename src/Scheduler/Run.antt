-- ===== src/Scheduler/Run.antt =====
-- internal/scheduler/scheduler.go, Run: the elections that one instance stands for, and the ticks of its
-- loops while it leads. A tick of one loop comes after a tick of another, in any order.
use jobit.Prelude.{ℕ, zero, suc, String, Bool, true, false, Option, none, some, List, [], ◌∷◌}
use jobit.Job.{Time}
use jobit.World.{World, Outcome}
use jobit.Storage.Partitions.{Partition, ensure_partitions}
use jobit.Scheduler.{
  Template, poll_scheduled_jobs, poll_failed_jobs, reap_stale_claims, promote_dead_jobs,
  reconcile_pending, expand_cron,
}

-- What makes a loop act: its ticker, or its start. `fresh` gives the ids of the jobs that a tick of
-- expandCron makes, `outcome` answers the statements of ensurePartitions.
pub data Tick : Type 0 where
  due_poll stale_reaper dead_letter_promoter pending_reconciler : Tick
  cron_expander : (fresh : ℕ → ℕ) → Tick
  partition_maintainer : (outcome : ℕ → Outcome) → Tick

-- The partitions of `job_runs`, and the rest.
abbrev pub Site : Type 0
Site = List Partition × World

-- What the elections of an instance meet: `term n` is the answer of its n-th Campaign, `none` for an
-- error, and else the ticks until the leader's context is done; `between n` is what the other processes
-- do while it stands by, and `among n k` what they do before its k-th tick.
pub record Reign : Type 0 where
  pub is_done : Time → Bool
  pub term : ℕ → Option (List Tick)
  pub between : ℕ → World → World
  pub among : ℕ → ℕ → World → World

-- Run has returned, or stands for election again.
pub data Standing : Type 0 where
  gone standby : Standing

module _ (next_run : String → Option (Time → Time)) (unmarshal : String → Option Template) where
  unfoldable pub tick : Tick → Site → Site
  tick due_poll (ps, w) = (ps, poll_failed_jobs (poll_scheduled_jobs w))
  tick stale_reaper (ps, w) = (ps, reap_stale_claims w)
  tick dead_letter_promoter (ps, w) = (ps, promote_dead_jobs w)
  tick pending_reconciler (ps, w) = (ps, reconcile_pending w)
  tick (cron_expander fresh) (ps, w) = (ps, expand_cron next_run unmarshal fresh w)
  tick (partition_maintainer outcome) (ps, w) = (ensure_partitions outcome w.clock ps, w)

  module _ (r : Reign) where
    -- From the k-th tick of the n-th term on.
    unfoldable pub lead : ℕ → ℕ → List Tick → Site → Site
    lead n k [] s = s
    lead n k (t ∷ ts) (ps, w) = lead n (suc k) ts (tick t (ps, r.among n k w))

    abbrev pub after_campaign :
        ℕ → Option (List Tick) → Site → (Site → Standing × Site) → Standing × Site
    after_campaign n none s rest = (gone, s)
    after_campaign n (some ts) s rest = rest (lead n 0 ts s)

    -- `elections` elections from the n-th on.
    unfoldable pub stand : ℕ → ℕ → Site → Standing × Site
    stand zero n s = (standby, s)
    stand (suc elections) n (ps, w) = elim (r.is_done w.clock) [
      | true ↦ (gone, (ps, w))
      | false ↦ after_campaign n (r.term n) (ps, r.between n w) (stand elections (suc n))
    ]

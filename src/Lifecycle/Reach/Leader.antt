-- ===== src/Lifecycle/Reach/Leader.antt =====
-- internal/scheduler/scheduler.go, Run: all that an instance of the scheduler does in its life is
-- operations on the table `jobs`.
use jobit.Prelude.{ℕ, zero, suc, refl, String, Bool, true, false, Option, none, some, List, [], ◌∷◌}
use jobit.Job.{Time}
use jobit.World.{World}
use jobit.Scheduler.{Template, poll_scheduled_jobs}
use jobit.Scheduler.Run.{
  Tick, due_poll, stale_reaper, dead_letter_promoter, pending_reconciler, cron_expander,
  partition_maintainer, Site, Reign, Standing, gone, tick, lead, after_campaign, stand,
}
use jobit.Lifecycle.Reach.{Reach}
use jobit.Lifecycle.Reach.Ticks.{ticks-Reach}
use jobit.Lifecycle.Reach.Cron.{expand_cron-Reach}

module _ (next_run : String → Option (Time → Time)) (unmarshal : String → Option Template) where
  pub tick-Reach : (t : Tick) (s : Site) → Reach s.1 (tick next_run unmarshal t s).1
  unfolding tick
  tick-Reach due_poll (ps, w) = Reach.also (ticks-Reach w).0 (ticks-Reach (poll_scheduled_jobs w)).1
  tick-Reach stale_reaper (ps, w) = (ticks-Reach w).2
  tick-Reach dead_letter_promoter (ps, w) = (ticks-Reach w).3
  tick-Reach pending_reconciler (ps, w) = (ticks-Reach w).4
  tick-Reach (cron_expander fresh) (ps, w) = expand_cron-Reach next_run unmarshal fresh w
  tick-Reach (partition_maintainer outcome) (ps, w) = Reach.idle refl

  module _ (r : Reign) (others : (n : ℕ) (v : World) → Reach v (r.between n v))
      (meanwhile : (n k : ℕ) (v : World) → Reach v (r.among n k v)) where
    lead-Reach :
        (n k : ℕ) (ts : List Tick) (s : Site) → Reach s.1 (lead next_run unmarshal r n k ts s).1
    unfolding lead
    lead-Reach n k [] s = Reach.idle refl
    lead-Reach n k (t ∷ ts) (ps, w) =
        let v = r.among n k w in
        Reach.also (meanwhile n k w) (
          Reach.also (tick-Reach t (ps, v))
            (lead-Reach n (suc k) ts (tick next_run unmarshal t (ps, v))))

    after_campaign-Reach :
        (n : ℕ) (term : Option (List Tick)) (s : Site) (rest : Site → Standing × Site)
        → ((v : Site) → Reach v.1 (rest v).1.1)
        → Reach s.1 (after_campaign next_run unmarshal r n term s rest).1.1
    after_campaign-Reach n none s rest h = Reach.idle refl
    after_campaign-Reach n (some ts) s rest h =
        Reach.also (lead-Reach n 0 ts s) (h (lead next_run unmarshal r n 0 ts s))

    -- Any number of elections and terms of an instance of the scheduler acts on the table `jobs` as a
    -- sequence of allowed operations: whichever loops tick, in whatever order, whatever the schedules
    -- say and however the servers answer, as long as what the other processes do in between does.
    pub stand-Reach :
        (elections n : ℕ) (s : Site) → Reach s.1 (stand next_run unmarshal r elections n s).1.1
    unfolding stand
    stand-Reach zero n s = Reach.idle refl
    stand-Reach (suc elections) n (ps, w) =
        go (r.is_done w.clock)
          (after_campaign next_run unmarshal r n (r.term n) (ps, r.between n w)
            (stand next_run unmarshal r elections (suc n)))
          (Reach.also (others n w) (
            after_campaign-Reach n (r.term n) (ps, r.between n w)
              (stand next_run unmarshal r elections (suc n)) (stand-Reach elections (suc n))))
      where
        go :
            (is_done : Bool) (p : Standing × Site)
            → Reach w p.1.1
            → Reach w
                (let q : Standing × Site = elim is_done [ true ↦ (gone, (ps, w)) | false ↦ p ] in
                  q).1.1
        go true p h = Reach.idle refl
        go false p h = h

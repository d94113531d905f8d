-- ===== src/Worker/Holding.antt =====
-- internal/worker/worker.go, process: a worker that holds the claim on its job keeps it over its own calls,
-- the heartbeat's included.
use jobit.Prelude.{
  ℕ, zero, suc, ◌≡◌, refl, sym, ◌∙◌, ap, Bool, true, false, holds, some, [], if◌then◌else◌,
}
use mathlib.Core.Path.{subst}
use mathlib.Core.Option
use jobit.Prelude.Int.{pos, ◌+ℤ◌}
use jobit.Job.{Job, Time}
use jobit.World.{World, Redis, healthy, exec, redis_exec, update_where}
use jobit.World.TableLaws.{UniqueKeys, UniqueKeys-update, by_key, by_key-update, updated}
use jobit.Storage.Bodies.{holds_claim, is_in_flight, update_jobs}
use jobit.Storage.Claims.{mark_running, extend_deadline, is_startable, start, move_deadline}
use jobit.Storage.Fencing.{id_of}
use jobit.Queue.{heartbeat, heartbeat_ttl}
use jobit.Worker.{attempt, under, attempt_going, beat, beats}

-- A world in which the worker's token holds the claim on the job, with its tries as they were, the
-- servers answer, and the worker's context is not done.
pub record IsHolding (ctx : Time → Bool) (id token : ℕ) (j : Job) (w : World) : Type 0 where
  pub answered : w.script ≡ []
  pub going : ctx w.clock ≡ false
  pub unique : UniqueKeys id_of w.db.jobs
  pub row : Job
  pub found : by_key id_of id w.db.jobs ≡ some row
  pub held : holds token row.claim_token ≡ true
  pub in_flight : is_in_flight row.state ≡ true
  pub attempt : row.attempt ≡ j.attempt
  pub max_retries : row.max_retries ≡ j.max_retries

pub healthy_id : (w : World) → w.script ≡ [] → healthy w ≡ w
healthy_id w e = ap (λ s. record w { script = s }) (sym e)

module _ (ctx : Time → Bool) (id token : ℕ) (j : Job) where
  -- An UPDATE of the state or of the deadline of claimed jobs.
  update-IsHolding :
      (p : Job → Bool) (f : Job → Job) (w : World)
      → ((x : Job) → (f x).id ≡ x.id)
      → ((x : Job) → (f x).claim_token ≡ x.claim_token)
      → ((x : Job) → (f x).attempt ≡ x.attempt)
      → ((x : Job) → (f x).max_retries ≡ x.max_retries)
      → ((x : Job) → is_in_flight x.state ≡ true → is_in_flight (f x).state ≡ true)
      → IsHolding ctx id token j w
      → IsHolding ctx id token j (record w { db = update_jobs p f w.db })
  update-IsHolding p f w same_id same_token same_attempt same_max flying h = go (p h.row) (
      by_key-update id_of p f (λ x e. same_id x) id w.db.jobs
      ∙ ap (Option.map (updated p f)) h.found)
    where
      go :
          (b : Bool)
          → by_key id_of id (update_where p f w.db.jobs) ≡ some (if b then f h.row else h.row)
          → IsHolding ctx id token j (record w { db = update_jobs p f w.db })
      go true e = record {
        answered = h.answered;
        going = h.going;
        unique = UniqueKeys-update id_of p f (λ x e. same_id x) w.db.jobs h.unique;
        row = f h.row;
        found = e;
        held = rw (same_token h.row) h.held;
        in_flight = flying h.row h.in_flight;
        attempt = same_attempt h.row ∙ h.attempt;
        max_retries = same_max h.row ∙ h.max_retries;
      }
      go false e = record {
        answered = h.answered;
        going = h.going;
        unique = UniqueKeys-update id_of p f (λ x e. same_id x) w.db.jobs h.unique;
        row = h.row;
        found = e;
        held = h.held;
        in_flight = h.in_flight;
        attempt = h.attempt;
        max_retries = h.max_retries;
      }

  redis-IsHolding :
      (r : Redis) (w : World)
      → IsHolding ctx id token j w
      → IsHolding ctx id token j (record w { redis = r })
  redis-IsHolding r w h = record {
    answered = h.answered;
    going = h.going;
    unique = h.unique;
    row = h.row;
    found = h.found;
    held = h.held;
    in_flight = h.in_flight;
    attempt = h.attempt;
    max_retries = h.max_retries;
  }

  pub healthy-IsHolding :
      (w : World) → IsHolding ctx id token j w → IsHolding ctx id token j (healthy w)
  healthy-IsHolding w h = record {
    answered = refl;
    going = h.going;
    unique = h.unique;
    row = h.row;
    found = h.found;
    held = h.held;
    in_flight = h.in_flight;
    attempt = h.attempt;
    max_retries = h.max_retries;
  }

  pub mark_running-IsHolding :
      (w : World)
      → IsHolding ctx id token j w
      → IsHolding ctx id token j (attempt (under ctx (mark_running id token)) (healthy w))
  unfolding mark_running exec
  mark_running-IsHolding w h =
      subst (IsHolding ctx id token j)
        (sym (attempt_going ctx (mark_running id token) (healthy w) h.going))
        (update-IsHolding (is_startable id token) start (healthy w) (λ x. refl) (λ x. refl)
          (λ x. refl) (λ x. refl) (λ x e. refl) (healthy-IsHolding w h))

  extend_deadline-IsHolding :
      (t : Time) (w : World)
      → IsHolding ctx id token j w
      → IsHolding ctx id token j (attempt (under ctx (extend_deadline id token t)) (healthy w))
  unfolding extend_deadline exec
  extend_deadline-IsHolding t w h =
      subst (IsHolding ctx id token j)
        (sym (attempt_going ctx (extend_deadline id token t) (healthy w) h.going))
        (update-IsHolding (holds_claim id token) (move_deadline t) (healthy w) (λ x. refl)
          (λ x. refl) (λ x. refl) (λ x. refl) (λ x e. e) (healthy-IsHolding w h))

  beat-healthy-IsHolding :
      (w : World)
      → IsHolding ctx id token j w
      → IsHolding ctx id token j (beat ctx id token (healthy w))
  unfolding beat heartbeat redis_exec
  beat-healthy-IsHolding w h =
      let v : World = attempt (heartbeat id token) (healthy w) in
      subst
        (λ u.
          IsHolding ctx id token j
            (attempt (under ctx (extend_deadline id token (u.clock +ℤ pos heartbeat_ttl))) u))
        (sym (attempt_going ctx (heartbeat id token) (healthy w) h.going))
        (extend_deadline-IsHolding (v.clock +ℤ pos heartbeat_ttl) v
          (redis-IsHolding v.redis (healthy w) (healthy-IsHolding w h)))

  pub beat-IsHolding :
      (w : World) → IsHolding ctx id token j w → IsHolding ctx id token j (beat ctx id token w)
  beat-IsHolding w h =
      subst (λ v. IsHolding ctx id token j (beat ctx id token v)) (healthy_id w h.answered)
        (beat-healthy-IsHolding w h)

  pub beats-IsHolding :
      (meanwhile : ℕ → World → World) (n : ℕ) (w : World)
      → ((k : ℕ) (v : World)
          → IsHolding ctx id token j v
          → IsHolding ctx id token j (meanwhile k v))
      → IsHolding ctx id token j w
      → IsHolding ctx id token j (beats ctx meanwhile n id token w)
  unfolding beats
  beats-IsHolding meanwhile zero w rely h = rely 0 w h
  beats-IsHolding meanwhile (suc n) w rely h =
      beats-IsHolding meanwhile n (beat ctx id token (meanwhile (suc n) w)) rely
        (beat-IsHolding (meanwhile (suc n) w) (rely (suc n) w h))

-- ===== src/Lifecycle/Moves.antt =====
-- The life of one job as an automaton on its state and its count of attempts, and the moves that the
-- row updates of the program make in it.
use jobit.Prelude.{ℕ, ◌+◌, ◌≡◌, ◌⊎◌, inl, inr, refl, String, true, Option, arith, Bool-cases}
use jobit.Prelude.Int.{pos, ◌≤ℤ◌, leb_ℤ}
use jobit.Job.{Job, pending, scheduled, claimed, running, succeeded, failed, dead, Time}
use jobit.Storage.Bodies
use jobit.Storage.Bodies.{
  is_in_flight, holds_claim, is_claimable, is_stale_row, failed_state, failed_run_at,
}
use jobit.Storage.Jobs.{reset}
use jobit.Storage.Claims
use jobit.Storage.Claims.{is_startable}
use jobit.Storage.Promote
use jobit.Storage.Promote.{is_in_state}
use jobit.Storage.Sound.{
  IsSound, claim-IsSound, start-IsSound, move_deadline-IsSound, succeed-IsSound,
  record_failure-IsSound, requeue-IsSound, promote-IsSound, promote_at-IsSound, reset-IsSound,
}
use jobit.Cli.{is_dead_row, is_failable, force_fail}

-- The automaton. A claim is the only way out of `pending` but the operator's; a try that ends without
-- success counts, and the job is dead once the count reaches `max_retries`.
pub data Move (x y : Job) : Type 0 where
  claim : x.state ≡ pending → y.state ≡ claimed → y.attempt ≡ x.attempt → Move x y
  start : x.state ≡ claimed → y.state ≡ running → y.attempt ≡ x.attempt → Move x y
  beat : is_in_flight x.state ≡ true → y.state ≡ x.state → y.attempt ≡ x.attempt → Move x y
  succeed : is_in_flight x.state ≡ true → y.state ≡ succeeded → y.attempt ≡ x.attempt → Move x y
  retry :
      is_in_flight x.state ≡ true
      → (y.state ≡ failed) ⊎ (y.state ≡ pending)
      → y.attempt ≡ x.attempt + 1
      → ¬ (x.max_retries ≤ℤ pos (x.attempt + 1))
      → Move x y
  exhaust :
      is_in_flight x.state ≡ true
      → y.state ≡ dead
      → y.attempt ≡ x.attempt + 1
      → x.max_retries ≤ℤ pos (x.attempt + 1)
      → Move x y
  release :
      (x.state ≡ scheduled) ⊎ (x.state ≡ failed)
      → y.state ≡ pending
      → y.attempt ≡ x.attempt
      → Move x y
  force :
      (x.state ≡ pending) ⊎ ((x.state ≡ failed) ⊎ (is_in_flight x.state ≡ true))
      → y.state ≡ dead
      → y.attempt ≡ x.attempt
      → Move x y
  replay : x.state ≡ dead → y.state ≡ pending → y.attempt ≡ 0 → Move x y

-- What an update may do to a row.
pub record RowStep (x y : Job) : Type 0 where
  pub same_id : y.id ≡ x.id
  pub same_tenant : y.tenant_id ≡ x.tenant_id
  pub same_limit : y.max_retries ≡ x.max_retries
  pub move : Move x y
  pub sound : IsSound x → IsSound y

module _ (j : Job) where
  pub claim-RowStep :
      (id : ℕ) (t : Time) (worker token : ℕ) (deadline : Time)
      → is_claimable id j ≡ true
      → RowStep j (Bodies.claim t worker token deadline j)
  claim-RowStep id t worker token deadline p = record {
    same_id = refl;
    same_tenant = refl;
    same_limit = refl;
    move = Move.claim (ground arith) refl refl;
    sound = claim-IsSound j id t worker token deadline p;
  }

  pub start-RowStep : (id token : ℕ) → is_startable id token j ≡ true → RowStep j (Claims.start j)
  start-RowStep id token p = record {
    same_id = refl;
    same_tenant = refl;
    same_limit = refl;
    move = Move.start (ground arith) refl refl;
    sound = start-IsSound j id token p;
  }

  pub beat-RowStep :
      (id token : ℕ) (deadline : Time)
      → holds_claim id token j ≡ true
      → RowStep j (Claims.move_deadline deadline j)
  beat-RowStep id token deadline p = record {
    same_id = refl;
    same_tenant = refl;
    same_limit = refl;
    move = Move.beat (ground arith) refl refl;
    sound = move_deadline-IsSound j id token deadline p;
  }

  pub succeed-RowStep :
      (id token : ℕ) (t : Time) → holds_claim id token j ≡ true → RowStep j (Claims.succeed t j)
  succeed-RowStep id token t p = record {
    same_id = refl;
    same_tenant = refl;
    same_limit = refl;
    move = Move.succeed (ground arith) refl refl;
    sound = succeed-IsSound j id token t p;
  }

-- The row that FailJob leaves, from the row that it has locked.
abbrev pub failed_row : String → Option Time → Job → Job
failed_row message next_run_at j =
    let n = j.attempt + 1 in
    Bodies.record_failure (failed_state n j.max_retries) n message
      (failed_run_at n j.max_retries next_run_at) j

module _ (j : Job) where
  pub failed_row-RowStep :
      (id token : ℕ) (message : String) (next_run_at : Option Time)
      → holds_claim id token j ≡ true
      → RowStep j (failed_row message next_run_at j)
  failed_row-RowStep id token message next_run_at p = record {
    same_id = refl;
    same_tenant = refl;
    same_limit = refl;
    move = elim (Bool-cases (leb_ℤ j.max_retries (pos (j.attempt + 1)))) [
      | inl e ↦ Move.exhaust (ground arith) (ground arith) refl (ground arith)
      | inr e ↦ Move.retry (ground arith) (inl (ground arith)) refl (ground arith)
    ];
    sound = record_failure-IsSound j id token message next_run_at p;
  }

  pub requeue-RowStep :
      (t : Time) (id : ℕ) → is_stale_row t id j ≡ true → RowStep j (Bodies.requeue j)
  requeue-RowStep t id p = record {
    same_id = refl;
    same_tenant = refl;
    same_limit = refl;
    move = elim (Bool-cases (leb_ℤ j.max_retries (pos (j.attempt + 1)))) [
      | inl e ↦ Move.exhaust (ground arith) (ground arith) refl (ground arith)
      | inr e ↦ Move.retry (ground arith) (inr (ground arith)) refl (ground arith)
    ];
    sound = requeue-IsSound j t id p;
  }

  pub promote-RowStep : (id : ℕ) → is_in_state scheduled id j ≡ true → RowStep j (Promote.promote j)
  promote-RowStep id p = record {
    same_id = refl;
    same_tenant = refl;
    same_limit = refl;
    move = Move.release (inl (ground arith)) refl refl;
    sound = promote-IsSound j id p;
  }

  pub promote_at-RowStep :
      (id : ℕ) (t : Time) → is_in_state failed id j ≡ true → RowStep j (Promote.promote_at t j)
  promote_at-RowStep id t p = record {
    same_id = refl;
    same_tenant = refl;
    same_limit = refl;
    move = Move.release (inr (ground arith)) refl refl;
    sound = promote_at-IsSound j id t p;
  }

  pub reset-RowStep : (id : ℕ) → is_dead_row id j ≡ true → RowStep j (reset j)
  reset-RowStep id p = record {
    same_id = refl;
    same_tenant = refl;
    same_limit = refl;
    move = Move.replay (ground arith) refl refl;
    sound = reset-IsSound j id j.tenant_id (ground arith);
  }

  pub force_fail-RowStep : (id : ℕ) → is_failable id j ≡ true → RowStep j (force_fail j)
  force_fail-RowStep id p = record {
    same_id = refl;
    same_tenant = refl;
    same_limit = refl;
    move = Move.force (ground arith) refl refl;
    sound = λ h. ground arith;
  }

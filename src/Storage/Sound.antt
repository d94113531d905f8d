-- ===== src/Storage/Sound.antt =====
-- internal/storage/storage.go: what holds of every row of `jobs`, and that each row update of the
-- program keeps it.
use Prim.Native.Nat.{max}
use jobit.Prelude.{ℕ, ◌+◌, ◌≤◌, ◌<◌, ◌≡◌, ◌⊎◌, String, true, Option, arith, is_some}
use jobit.Prelude.Int.{pos_part}
use jobit.Job.{Job, state_eq, pending, scheduled, succeeded, failed, dead, Time}
use jobit.Storage.Bodies.{
  is_in_flight, holds_claim, is_claimable, claim, failed_state, failed_run_at, record_failure,
  is_stale_row, requeue,
}
use jobit.Storage.Jobs.{inserted_row, reset, is_replayable}
use jobit.Storage.Claims.{is_startable, start, move_deadline, succeed}
use jobit.Storage.Promote.{is_in_state, promote, promote_at}

-- How often a job may be tried: at least once, and up to `max_retries`.
abbrev pub budget : Job → ℕ
budget j = max 1 (pos_part j.max_retries)

-- A row has a claim token and a deadline exactly while it is claimed or running, a completion time
-- exactly when it has succeeded, and has used up its budget of attempts only when it is dead.
pub record IsSound (j : Job) : Type 0 where
  pub claimed_in_flight : is_some j.claim_token ≡ is_in_flight j.state
  pub deadline_in_flight : is_some j.deadline ≡ is_in_flight j.state
  pub completed_succeeded : is_some j.completed_at ≡ state_eq j.state succeeded
  pub within_budget : j.attempt ≤ budget j
  pub tries_left : (state_eq j.state dead ≡ true) ⊎ (j.attempt < budget j)

-- What the API and the scheduler insert.
pub record IsNew (j : Job) : Type 0 where
  pub waiting : (j.state ≡ pending) ⊎ (j.state ≡ scheduled)
  pub untried : j.attempt ≡ 0

pub inserted_row-IsSound : (j : Job) → IsNew j → IsSound (inserted_row j)
inserted_row-IsSound j h = ground arith

module _ (j : Job) where
  pub reset-IsSound : (id t : ℕ) → is_replayable id t j ≡ true → IsSound j → IsSound (reset j)
  reset-IsSound id t p h = ground arith

  pub claim-IsSound :
      (id : ℕ) (t : Time) (worker token : ℕ) (deadline : Time)
      → is_claimable id j ≡ true
      → IsSound j
      → IsSound (claim t worker token deadline j)
  claim-IsSound id t worker token deadline p h = ground arith

  pub start-IsSound :
      (id token : ℕ) → is_startable id token j ≡ true → IsSound j → IsSound (start j)
  start-IsSound id token p h = ground arith

  pub move_deadline-IsSound :
      (id token : ℕ) (deadline : Time)
      → holds_claim id token j ≡ true
      → IsSound j
      → IsSound (move_deadline deadline j)
  move_deadline-IsSound id token deadline p h = ground arith

  pub succeed-IsSound :
      (id token : ℕ) (t : Time) → holds_claim id token j ≡ true → IsSound j → IsSound (succeed t j)
  succeed-IsSound id token t p h = ground arith

  pub record_failure-IsSound :
      (id token : ℕ) (message : String) (next_run_at : Option Time)
      → holds_claim id token j ≡ true
      → IsSound j
      → let n = j.attempt + 1 in
        IsSound (
          record_failure
            (failed_state n j.max_retries)
            n
            message
            (failed_run_at n j.max_retries next_run_at)
            j)
  record_failure-IsSound id token message next_run_at p h = ground arith

  pub requeue-IsSound :
      (t : Time) (id : ℕ) → is_stale_row t id j ≡ true → IsSound j → IsSound (requeue j)
  requeue-IsSound t id p h = ground arith

  pub promote-IsSound :
      (id : ℕ) → is_in_state scheduled id j ≡ true → IsSound j → IsSound (promote j)
  promote-IsSound id p h = ground arith

  pub promote_at-IsSound :
      (id : ℕ) (t : Time) → is_in_state failed id j ≡ true → IsSound j → IsSound (promote_at t j)
  promote_at-IsSound id t p h = ground arith

-- ===== src/Api/Socket.antt =====
-- internal/api/ws_handler.go, handleWebSocket: the snapshots that a dashboard gets, one for each tick.
use jobit.Prelude.{
  ℕ, zero, suc, Bool, true, false, Option, none, some, List, [], ◌∷◌, if◌then◌else◌,
}
use jobit.Job.{State, Time}
use jobit.World.{World}
use jobit.Api.{QueueDepth}
use jobit.Api.Stats.{snapshot}

pub record Message : Type 0 where
  pub queues : List QueueDepth
  pub jobs_by_state : List (State × ℕ)
  pub timestamp : Time

abbrev pub with_message : Message → List Message × World → List Message × World
with_message m (ms, w) = (m ∷ ms, w)

-- What a connection meets: `is_done n` says that the client has gone or the request's context is done
-- before the n-th tick, `writes n` that the n-th tick's message can be written, and `between n` is what the
-- processes do in the second before it.
module _ (is_done : ℕ → Bool) (writes : ℕ → Bool) (between : ℕ → World → World) where
  -- A query that fails is a warning; a write that fails ends the connection. `rest` are the ticks that
  -- follow.
  abbrev pub after_snapshot :
      ℕ
      → Option (List QueueDepth × List (State × ℕ)) × World
      → (World → List Message × World)
      → List Message × World
  after_snapshot n (none, w) rest = rest w
  after_snapshot n (some (ds, cs), w) rest =
      if writes n
      then with_message (record { queues = ds; jobs_by_state = cs; timestamp = w.clock }) (rest w)
      else ([], w)

  -- `ticks` ticks from the n-th on.
  unfoldable pub stream : (ticks : ℕ) → ℕ → World → List Message × World
  stream zero n w = ([], w)
  stream (suc ticks) n w = elim (is_done n) [
    | true ↦ ([], w)
    | false ↦ after_snapshot n (snapshot (between n w)) (stream ticks (suc n))
  ]

  -- `upgrades` says that the connection could be upgraded.
  unfoldable pub handle_web_socket : (upgrades : Bool) → (ticks : ℕ) → World → List Message × World
  handle_web_socket upgrades ticks w = if upgrades then stream ticks 0 w else ([], w)

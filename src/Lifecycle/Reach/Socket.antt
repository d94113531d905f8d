-- ===== src/Lifecycle/Reach/Socket.antt =====
-- internal/api/ws_handler.go: a dashboard's connection changes no job.
use jobit.Prelude.{ℕ, zero, suc, refl, Bool, true, false, Option, none, some, List, []}
use jobit.Job.{State}
use jobit.World.{World}
use jobit.Api.{QueueDepth}
use jobit.Api.Stats.{snapshot}
use jobit.Api.Socket.{Message, after_snapshot, stream, handle_web_socket}
use jobit.Lifecycle.Reach.{Reach}
use jobit.Lifecycle.Reach.Reads.{snapshot-Same}

module _ (is_done : ℕ → Bool) (writes : ℕ → Bool) (between : ℕ → World → World)
    (others : (n : ℕ) (w : World) → Reach w (between n w)) where
  after_snapshot-Reach :
      (n : ℕ) (p : Option (List QueueDepth × List (State × ℕ)) × World)
      (rest : World → List Message × World)
      → ((v : World) → Reach v (rest v).1)
      → Reach p.1 (after_snapshot is_done writes between n p rest).1
  after_snapshot-Reach n (none, w) rest h = h w
  after_snapshot-Reach n (some (ds, cs), w) rest h = go (writes n)
    where
      go :
          (b : Bool) → Reach w (after_snapshot is_done (λ k. b) between n (some (ds, cs), w) rest).1
      go true = h w
      go false = Reach.idle refl

  tested-Reach :
      (n : ℕ) (done_now : Bool) (rest : World → List Message × World) (w : World)
      → ((v : World) → Reach v (rest v).1)
      → Reach w
          (elim done_now as (λ x. List Message × World) [
            | true ↦ ([], w)
            | false ↦ after_snapshot is_done writes between n (snapshot (between n w)) rest
          ]).1
  tested-Reach n true rest w h = Reach.idle refl
  tested-Reach n false rest w h = Reach.also (others n w) (
      Reach.also (Reach.idle (snapshot-Same (between n w)))
        (after_snapshot-Reach n (snapshot (between n w)) rest h))

  stream-Reach : (ticks n : ℕ) (w : World) → Reach w (stream is_done writes between ticks n w).1
  unfolding stream
  stream-Reach zero n w = Reach.idle refl
  stream-Reach (suc ticks) n w =
      tested-Reach n (is_done n) (stream is_done writes between ticks (suc n)) w
        (λ v. stream-Reach ticks (suc n) v)

  -- A connection of any length acts on the table `jobs` as the other processes do between its ticks.
  pub handle_web_socket-Reach :
      (upgrades : Bool) (ticks : ℕ) (w : World)
      → Reach w (handle_web_socket is_done writes between upgrades ticks w).1
  unfolding handle_web_socket
  handle_web_socket-Reach true ticks w = stream-Reach ticks 0 w
  handle_web_socket-Reach false ticks w = Reach.idle refl

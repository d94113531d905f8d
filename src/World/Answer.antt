-- ===== src/World/Answer.antt =====
-- How Postgres and Redis answer. Each statement is answered by the next outcome of a script: it is
-- done; it is refused; or it is done and its answer is lost, so the caller sees an error; or it is
-- done while other open transactions hold locks on its rows, which SKIP LOCKED passes over: to a
-- statement without that clause this is `done`. Where the script has ended, statements are done.
use jobit.Prelude.{◌≡◌, List, [], ◌∷◌}

pub data Outcome : Type 0 where
  done refused lost skipped : Outcome

-- ErrNotFound, ErrDuplicate, ErrClaimConflict, and any error that wraps a server's; a context that is
-- done, a panic; and that the fuel of a loop ran out, which the program has no name for.
pub data Error : Type 0 where
  not_found duplicate claim_conflict fault cancelled panicked out_of_fuel : Error

pub data Result (A : Type 0) : Type 0 where
  ok : A → Result A
  err : Error → Result A

abbrev pub next_outcome : List Outcome → Outcome
next_outcome [] = done
next_outcome (o ∷ _) = o

abbrev pub later : List Outcome → List Outcome
later [] = []
later (_ ∷ os) = os

pub ok_injective : {A : Type 0} {a b : A} → ok a ≡ ok b → a ≡ b
ok_injective h = cc

-- ===== src/World/Tx.antt =====
-- The statements of one transaction.
use jobit.Prelude.{Option, none, List}
use jobit.World.Rows.{Db}
use jobit.World.Answer.{
  Outcome, done, refused, lost, skipped, fault, Result, err, next_outcome, later,
}

-- The body of a transaction goes on with a value on its own copy of the tables, or leaves with the
-- function's result; the deferred Rollback then drops the copy.
pub data Progress (R A : Type 0) : Type 0 where
  next : A → Db → List Outcome → Progress R A
  leave : R → List Outcome → Progress R A

abbrev pub Tx : Type 0 → Type 0 → Type 0
Tx R A = Db → List Outcome → Progress R A

abbrev pub tx_answer : {R A : Type 0} → Outcome → Db × A → List Outcome → Progress (Result R) A
tx_answer done (d, a) s = next a d s
tx_answer refused _ s = leave (err fault) s
tx_answer lost _ s = leave (err fault) s
tx_answer skipped (d, a) s = next a d s

unfoldable pub tx_exec : {R A : Type 0} → (Db → Db × A) → Tx (Result R) A
tx_exec f d s = tx_answer (next_outcome s) (f d) (later s)

-- The row that SELECT … FOR UPDATE SKIP LOCKED gives of the one that WHERE selects.
abbrev pub unless_locked : {B : Type 0} → Outcome → Option B → Option B
unless_locked skipped row = none
unless_locked done row = row
unless_locked refused row = row
unless_locked lost row = row

unfoldable pub tx_skip_locked : {R B : Type 0} → (Db → Option B) → Tx (Result R) (Option B)
tx_skip_locked f d s =
    tx_answer (next_outcome s) (d, unless_locked (next_outcome s) (f d)) (later s)

infixl 5 ◌>>=◌ ◌>>◌
abbrev pub ◌>>=◌ : {R A B : Type 0} → Tx R A → (A → Tx R B) → Tx R B
◌>>=◌ m f d s = elim (m d s) [ next a d' s' ↦ f a d' s' | leave r s' ↦ leave r s' ]

abbrev pub ◌>>◌ : {R A B : Type 0} → Tx R A → Tx R B → Tx R B
m >> k = m >>= λ _. k

abbrev pub pure : {R A : Type 0} → A → Tx R A
pure = next

-- `return` before the Commit.
abbrev pub leave_with : {R A : Type 0} → R → Tx R A
leave_with r d s = leave r s

-- ===== src/World/TxRules.antt =====
-- Rules for the bodies of transactions: what holds where a body goes on to the commit, and what
-- holds of the answer where it leaves.
use jobit.Prelude.{refl, Option, none, ◌≡◌, ◌⊎◌, inl, inr, List, [], ◌∷◌}
use jobit.World.Rows.{Db}
use jobit.World.Answer.{
  Outcome, done, refused, lost, skipped, fault, Result, ok, err, next_outcome, later,
}
use jobit.World.Tx.{Tx, Progress, next, leave, tx_exec, tx_skip_locked, ◌>>=◌}
use jobit.World.Exec.{World, transaction}
use jobit.World.Keeps.{Ended, transaction-Ended}

module _ {R A : Type 0} (onward : A → Db → Type 0) (leaving : R → Type 0) where
  abbrev pub Ensures : Progress R A → Type 0
  Ensures (next a d s) = onward a d
  Ensures (leave r s) = leaving r

-- A statement goes on from what it did, or fails.
pub tx_exec-Ensures :
    {R A : Type 0} (onward : A → Db → Type 0) (leaving : Result R → Type 0) (f : Db → Db × A)
    (d : Db) (s : List Outcome)
    → onward (f d).1 (f d).0
    → leaving (err fault)
    → Ensures onward leaving (tx_exec f d s)
unfolding tx_exec
tx_exec-Ensures onward leaving f d [] n l = n
tx_exec-Ensures onward leaving f d (done ∷ s) n l = n
tx_exec-Ensures onward leaving f d (refused ∷ s) n l = l
tx_exec-Ensures onward leaving f d (lost ∷ s) n l = l
tx_exec-Ensures onward leaving f d (skipped ∷ s) n l = n

-- A statement that something follows.
pub bind-Ensures :
    {R A B : Type 0} (onward : B → Db → Type 0) (leaving : Result R → Type 0) (f : Db → Db × A)
    (g : A → Tx (Result R) B) (d : Db) (s : List Outcome)
    → ((s' : List Outcome) → Ensures onward leaving (g (f d).1 (f d).0 s'))
    → leaving (err fault)
    → Ensures onward leaving ((tx_exec f >>= g) d s)
unfolding tx_exec
bind-Ensures onward leaving f g d [] n l = n []
bind-Ensures onward leaving f g d (done ∷ s) n l = n s
bind-Ensures onward leaving f g d (refused ∷ s) n l = l
bind-Ensures onward leaving f g d (lost ∷ s) n l = l
bind-Ensures onward leaving f g d (skipped ∷ s) n l = n s

-- A SELECT with SKIP LOCKED that something follows: its row may be held.
pub skip_locked-Ensures :
    {R B C : Type 0} (onward : C → Db → Type 0) (leaving : Result R → Type 0) (f : Db → Option B)
    (g : Option B → Tx (Result R) C) (d : Db) (s : List Outcome)
    → ((s' : List Outcome) → Ensures onward leaving (g (f d) d s'))
    → (next_outcome s ≡ skipped → (s' : List Outcome) → Ensures onward leaving (g none d s'))
    → leaving (err fault)
    → Ensures onward leaving ((tx_skip_locked f >>= g) d s)
unfolding tx_skip_locked
skip_locked-Ensures onward leaving f g d [] n k l = n []
skip_locked-Ensures onward leaving f g d (done ∷ s) n k l = n s
skip_locked-Ensures onward leaving f g d (refused ∷ s) n k l = l
skip_locked-Ensures onward leaving f g d (lost ∷ s) n k l = l
skip_locked-Ensures onward leaving f g d (skipped ∷ s) n k l = k refl s

-- The tables after a transaction: committed with what its body left, or as they were.
abbrev pub Settled :
    {A : Type 0} → (A → Db → Type 0) → (Result A → Type 0) → Db → Result A → Db → Type 0
Settled {A} onward leaving d r d' =
    ((a : A) × onward a d' × ((r ≡ ok a) ⊎ (r ≡ err fault)))
    ⊎ ((d' ≡ d) × (leaving r ⊎ (r ≡ err fault)))

-- `later w.script` answers the statements of the body.
pub transaction-Settled_at :
    {A : Type 0} (onward : A → Db → Type 0) (leaving : Result A → Type 0) (body : Tx (Result A) A)
    (w : World)
    → Ensures onward leaving (body w.db (later w.script))
    → Settled onward leaving w.db (transaction body w).0 (transaction body w).1.db
transaction-Settled_at {A} onward leaving body w h = go (transaction-Ended body w)
  where
    go :
        {r : Result A} {d' : Db}
        → Ended body w.db (later w.script) r d'
        → Settled onward leaving w.db r d'
    go (Ended.committed a s' e f) = inl (a, rw e at h, inl f)
    go (Ended.unanswered a s' e f) = inl (a, rw e at h, inr f)
    go (Ended.left s' e f) = inr (f, inl (rw e at h))
    go (Ended.aborted f e) = inr (e, inr f)

pub transaction-Settled :
    {A : Type 0} (onward : A → Db → Type 0) (leaving : Result A → Type 0) (body : Tx (Result A) A)
    (w : World)
    → ((s : List Outcome) → Ensures onward leaving (body w.db s))
    → Settled onward leaving w.db (transaction body w).0 (transaction body w).1.db
transaction-Settled onward leaving body w h =
    transaction-Settled_at onward leaving body w (h (later w.script))

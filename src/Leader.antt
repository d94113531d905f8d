-- ===== src/Leader.antt =====
-- internal/leader/leader.go: the election of the scheduler's leader, over etcd.
pub mod Exclusive
use jobit.Prelude.{ℕ, ◌≡◌, ◌≢◌, ◌⊎◌, Bool, true, false, Option, none, some, ◌==◌, if◌then◌else◌}

-- The calls of etcd's package `concurrency`, by the client that makes them, and what is said of them: a
-- session is one client's; who has been elected holds the election until it resigns, closes its session
-- or its lease expires, and no two sessions hold it at once; what is lost stays lost.
pub record Etcd : Type 1 where
  pub State : Type 0
  pub owner : ℕ → ℕ
  pub holds : State → ℕ → Bool
  pub is_lost : State → ℕ → Bool
  pub new_session : ℕ → State → Option ℕ × State
  pub elect : ℕ → State → Bool × State
  pub resign : ℕ → State → State
  pub close : ℕ → State → State
  pub Passes : State → State → Type 0

abbrev pub IsKept : (c : Etcd) → c.State → c.State → ℕ → Type 0
IsKept c e e' s =
    (c.holds e s ≡ true → (c.holds e' s ≡ true) ⊎ (c.is_lost e' s ≡ true))
    × (c.is_lost e s ≡ true → c.is_lost e' s ≡ true)

pub record Laws (c : Etcd) : Type 0 where
  pub exclusive : (e : c.State) (s t : ℕ) → c.holds e s ≡ true → c.holds e t ≡ true → s ≡ t
  pub owned : (i s : ℕ) (e : c.State) → (c.new_session i e).0 ≡ some s → c.owner s ≡ i
  pub elected : (s : ℕ) (e : c.State) → (c.elect s e).0 ≡ true → c.holds (c.elect s e).1 s ≡ true
  pub new_session_keeps : (i t : ℕ) (e : c.State) → IsKept c e (c.new_session i e).1 t
  pub elect_keeps : (s t : ℕ) (e : c.State) → IsKept c e (c.elect s e).1 t
  pub resign_keeps : (s t : ℕ) (e : c.State) → t ≢ s → IsKept c e (c.resign s e) t
  pub close_keeps : (s t : ℕ) (e : c.State) → t ≢ s → IsKept c e (c.close s e) t
  pub passes_keeps : (t : ℕ) (e e' : c.State) → c.Passes e e' → IsKept c e e' t

-- An instance of the scheduler: it does not lead; its leaderCtx is live; or that has been cancelled, and
-- `resign` is still to be called.
pub data Phase : Type 0 where
  standby : Phase
  leads ended : ℕ → Phase

module _ (c : Etcd) where
  abbrev pub after_elect : ℕ → Bool × c.State → Phase × c.State
  after_elect s (true, e) = (leads s, e)
  after_elect s (false, e) = (standby, c.close s e)

  abbrev pub after_session : Option ℕ × c.State → Phase × c.State
  after_session (none, e) = (standby, e)
  after_session (some s, e) = after_elect s (c.elect s e)

  -- Campaign: `standby` is its error.
  unfoldable pub campaign : ℕ → c.State → Phase × c.State
  campaign i e = after_session (c.new_session i e)

  -- The goroutine that waits for sess.Done().
  unfoldable pub watch : c.State → Phase → Phase
  watch e standby = standby
  watch e (leads s) = if c.is_lost e s then ended s else leads s
  watch e (ended s) = ended s

  -- The context of the process is done, and leaderCtx with it.
  abbrev pub cancel : Phase → Phase
  cancel standby = standby
  cancel (leads s) = ended s
  cancel (ended s) = ended s

  -- The function that Campaign returns.
  unfoldable pub give_up : Phase → c.State → Phase × c.State
  give_up standby e = (standby, e)
  give_up (leads s) e = (standby, c.close s (c.resign s e))
  give_up (ended s) e = (standby, c.close s (c.resign s e))

  pub record System : Type 0 where
    pub etcd : c.State
    pub phase : ℕ → Phase

  abbrev pub put : ℕ → Phase × c.State → System → System
  put i (p, e) y = record { etcd = e; phase = λ j. if j == i then p else y.phase j }

  pub data Step : System → System → Type 0 where
    campaigns : (i : ℕ) (y : System) → y.phase i ≡ standby → Step y (put i (campaign i y.etcd) y)
    watches : (i : ℕ) (y : System) → Step y (put i (watch y.etcd (y.phase i), y.etcd) y)
    cancels : (i : ℕ) (y : System) → Step y (put i (cancel (y.phase i), y.etcd) y)
    gives_up : (i : ℕ) (y : System) → Step y (put i (give_up (y.phase i) y.etcd) y)
    passes : (y : System) (e : c.State) → c.Passes y.etcd e → Step y (record y { etcd = e })

  -- From instances that all stand by.
  pub data Reachable : System → Type 0 where
    start : (e : c.State) → Reachable (record { etcd = e; phase = λ i. standby })
    step : (y z : System) → Reachable y → Step y z → Reachable z

-- ===== src/Leader/Exclusive.antt =====
-- internal/leader/leader.go: one leader at a time, but for those whose lease is lost.
use native.Mathlib.Decide.{ℕ_discrete}
use mathlib.Core.Path.{subst}
use jobit.Prelude.{
  ℕ, ◌≡◌, ◌≢◌, ◌⊎◌, inl, inr, refl, sym, ◌∙◌, ap, Bool, true, false, Option, none, some, arith,
  ◌==◌, ==_refl, if◌then◌else◌,
}
use jobit.Leader.{
  Etcd, IsKept, Laws, Phase, standby, leads, ended, after_elect, after_session, campaign, watch,
  cancel, give_up, System, put, Step, campaigns, watches, cancels, gives_up, passes, Reachable,
  start, step,
}

module _ (c : Etcd) (laws : Laws c) where
  IsKept-refl : (e : c.State) (t : ℕ) → IsKept c e e t
  IsKept-refl e t = (λ g. inl g, λ g. g)

  IsKept-trans :
      (e e' e'' : c.State) (t : ℕ) → IsKept c e e' t → IsKept c e' e'' t → IsKept c e e'' t
  IsKept-trans e e' e'' t (held, lost) (held', lost') =
      (λ h. elim (held h) [ inl g ↦ held' g | inr g ↦ inr (lost' g) ], λ h. lost' (lost h))

  -- What etcd says of an instance in a phase: its session is its own, and while its leaderCtx is live
  -- it holds the election, or has lost its lease.
  abbrev IsHeldBy : c.State → ℕ → Phase → Type 0
  IsHeldBy e i standby = Unit
  IsHeldBy e i (leads s) = (c.owner s ≡ i) × ((c.holds e s ≡ true) ⊎ (c.is_lost e s ≡ true))
  IsHeldBy e i (ended s) = c.owner s ≡ i

  abbrev IsHeld : System c → Type 0
  IsHeld y = (i : ℕ) → IsHeldBy y.etcd i (y.phase i)

  kept-IsHeldBy :
      (e e' : c.State) (i : ℕ) (p : Phase)
      → ((t : ℕ) → c.owner t ≡ i → IsKept c e e' t)
      → IsHeldBy e i p
      → IsHeldBy e' i p
  kept-IsHeldBy e e' i standby k h = tt
  kept-IsHeldBy e e' i (leads s) k (own, inl h) = (own, (k s own).0 h)
  kept-IsHeldBy e e' i (leads s) k (own, inr h) = (own, inr ((k s own).1 h))
  kept-IsHeldBy e e' i (ended s) k h = h

  -- A step of one instance that keeps what the others hold.
  put-IsHeld :
      (i : ℕ) (p : Phase) (e : c.State) (y : System c)
      → IsHeld y
      → IsHeldBy e i p
      → ((t : ℕ) → c.owner t ≢ i → IsKept c y.etcd e t)
      → IsHeld (put c i (p, e) y)
  put-IsHeld i p e y held own k j = elim (ℕ_discrete j i) [
    | yes same ↦
        subst (λ x. IsHeldBy e x (if x == i then p else y.phase x)) (sym same) (rw (==_refl i) own)
    | no other ↦
        let apart : (j == i) ≡ false = ground (arith, other) in
        rw apart
          (kept-IsHeldBy y.etcd e j (y.phase j) (λ t o. k t (λ q. other (sym o ∙ q))) (held j))
  ]

  not_own : (i s t : ℕ) → c.owner s ≡ i → c.owner t ≢ i → t ≢ s
  not_own i s t own other e = other (ap c.owner e ∙ own)

  elected-IsHeldBy :
      (i s : ℕ) (e : c.State) (b : Bool)
      → c.owner s ≡ i
      → (c.elect s e).0 ≡ b
      → IsHeldBy (after_elect c s (b, (c.elect s e).1)).1 i (after_elect c s (b, (c.elect s e).1)).0
        × ((t : ℕ) → c.owner t ≢ i → IsKept c e (after_elect c s (b, (c.elect s e).1)).1 t)
  elected-IsHeldBy i s e true own h =
      ((own, inl (laws.elected s e h)), λ t other. laws.elect_keeps s t e)
  elected-IsHeldBy i s e false own h = (
    tt,
    λ t other.
        IsKept-trans e (c.elect s e).1 (c.close s (c.elect s e).1) t (laws.elect_keeps s t e)
          (laws.close_keeps s t (c.elect s e).1 (not_own i s t own other)),
  )

  session-IsHeldBy :
      (i : ℕ) (e : c.State) (o : Option ℕ)
      → (c.new_session i e).0 ≡ o
      → let (p, e') = after_session c (o, (c.new_session i e).1) in
        IsHeldBy e' i p × ((t : ℕ) → c.owner t ≢ i → IsKept c e e' t)
  session-IsHeldBy i e none h = (tt, λ t other. laws.new_session_keeps i t e)
  session-IsHeldBy i e (some s) h =
      let e1 = (c.new_session i e).1 in
      let (held, k) = elected-IsHeldBy i s e1 (c.elect s e1).0 (laws.owned i s e h) refl in
      (held, λ t other. IsKept-trans e e1 _ t (laws.new_session_keeps i t e) (k t other))

  watch-IsHeldBy : (e : c.State) (i : ℕ) (p : Phase) → IsHeldBy e i p → IsHeldBy e i (watch c e p)
  unfolding watch
  watch-IsHeldBy e i standby h = tt
  watch-IsHeldBy e i (leads s) h = go (c.is_lost e s)
    where
      go : (b : Bool) → IsHeldBy e i (if b then ended s else leads s)
      go true = h.0
      go false = h
  watch-IsHeldBy e i (ended s) h = h

  cancel-IsHeldBy : (e : c.State) (i : ℕ) (p : Phase) → IsHeldBy e i p → IsHeldBy e i (cancel c p)
  cancel-IsHeldBy e i standby h = tt
  cancel-IsHeldBy e i (leads s) h = h.0
  cancel-IsHeldBy e i (ended s) h = h

  resigned_keeps :
      (i s : ℕ) (e : c.State)
      → c.owner s ≡ i
      → (t : ℕ) → c.owner t ≢ i
      → IsKept c e (c.close s (c.resign s e)) t
  resigned_keeps i s e own t other =
      let apart = not_own i s t own other in
      IsKept-trans e (c.resign s e) (c.close s (c.resign s e)) t (laws.resign_keeps s t e apart)
        (laws.close_keeps s t (c.resign s e) apart)

  give_up-IsHeld :
      (i : ℕ) (y : System c) (p : Phase)
      → IsHeld y
      → IsHeldBy y.etcd i p
      → IsHeld (put c i (give_up c p y.etcd) y)
  unfolding give_up
  give_up-IsHeld i y standby held h =
      put-IsHeld i standby y.etcd y held tt (λ t o. IsKept-refl y.etcd t)
  give_up-IsHeld i y (leads s) held h =
      put-IsHeld i standby _ y held tt (resigned_keeps i s y.etcd h.0)
  give_up-IsHeld i y (ended s) held h =
      put-IsHeld i standby _ y held tt (resigned_keeps i s y.etcd h)

  step-IsHeld : (y z : System c) → Step c y z → IsHeld y → IsHeld z
  unfolding campaign
  step-IsHeld _ _ (campaigns i y rests) held =
      let (own, k) = session-IsHeldBy i y.etcd (c.new_session i y.etcd).0 refl in
      put-IsHeld i _ _ y held own k
  step-IsHeld _ _ (watches i y) held =
      put-IsHeld i _ y.etcd y held (watch-IsHeldBy y.etcd i (y.phase i) (held i))
        (λ t o. IsKept-refl y.etcd t)
  step-IsHeld _ _ (cancels i y) held =
      put-IsHeld i _ y.etcd y held (cancel-IsHeldBy y.etcd i (y.phase i) (held i))
        (λ t o. IsKept-refl y.etcd t)
  step-IsHeld _ _ (gives_up i y) held = give_up-IsHeld i y (y.phase i) held (held i)
  step-IsHeld _ _ (passes y e p) held =
      λ i. kept-IsHeldBy y.etcd e i (y.phase i) (λ t o. laws.passes_keeps t y.etcd e p) (held i)

  Reachable-IsHeld : (y : System c) → Reachable c y → IsHeld y
  Reachable-IsHeld _ (start e) = λ i. tt
  Reachable-IsHeld _ (step y z r s) = step-IsHeld y z s (Reachable-IsHeld y r)

  both_hold :
      (e : c.State) (i j s t : ℕ)
      → IsHeldBy e i (leads s)
      → IsHeldBy e j (leads t)
      → c.is_lost e s ≡ false
      → c.is_lost e t ≡ false
      → i ≡ j
  both_hold e i j s t (own, inl g) (own', inl h) l m =
      sym own ∙ ap c.owner (laws.exclusive e s t g h) ∙ own'
  both_hold e i j s t (own, inr g) k l m = cc
  both_hold e i j s t k (own', inr h) l m = cc

  -- However campaigns, expiries, cancellations and resignations interleave, two instances whose
  -- leaderCtx are live are one, unless one of the two has lost its lease and has yet to see it.
  pub leads_exclusive :
      (y : System c) (i j s t : ℕ)
      → Reachable c y
      → y.phase i ≡ leads s
      → y.phase j ≡ leads t
      → c.is_lost y.etcd s ≡ false
      → c.is_lost y.etcd t ≡ false
      → i ≡ j
  leads_exclusive y i j s t r e f l m =
      let held = Reachable-IsHeld y r in
      both_hold y.etcd i j s t (subst (IsHeldBy y.etcd i) e (held i))
        (subst (IsHeldBy y.etcd j) f (held j)) l m

-- ===== src/World/OrderLaws.antt =====
-- Laws of ORDER BY.
use jobit.Prelude.{inl, inr, Bool, Bool-cases, List, [], ◌∷◌, All}
use jobit.World.Table.{insert_by, order_by}

module _ {A : Type 0} (P : A → Type 0) where
  pub All-insert_by :
      (before : A → A → Bool) (x : A) (xs : List A) → P x → All P xs → All P (insert_by before x xs)
  All-insert_by before x [] p h = (p, tt)
  All-insert_by before x (y ∷ ys) p h = elim (Bool-cases (before y x)) [
    | inl e ↦ rw e (h.0, All-insert_by before x ys p h.1)
    | inr e ↦ rw e (p, h)
  ]

  pub All-order_by : (before : A → A → Bool) (xs : List A) → All P xs → All P (order_by before xs)
  All-order_by before [] h = tt
  All-order_by before (x ∷ xs) h =
      All-insert_by before x (order_by before xs) h.0 (All-order_by before xs h.1)

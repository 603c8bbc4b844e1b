-- ===== src/Table/Order.antt =====
-- Selecting and ordering rows loses and adds none: a property of all rows is one of all results,
-- the results of a selection pass its test, and an ordering is a permutation.
use agentic_control_tower.Prelude.{◌≡◌, Bool, true, List, [], ◌∷◌, All, Bool-cases, inl, inr}
use mathlib.Core.List.{Perm}
use mathlib.Core.List.Perm
use agentic_control_tower.Table.{select, insert_row, order_by}

module _ {R : Type 0} where
  module _ (P : R → Type 0) where
    pub All-select :
        (p : R → Bool) (rows : List R) → All P rows → All (λ r. P r × (p r ≡ true)) (select p rows)
    unfolding select
    All-select p [] h = tt
    All-select p (r ∷ rows) h = elim (Bool-cases (p r)) [
      | inl e ↦ rw e ((h.0, e), All-select p rows h.1)
      | inr e ↦ rw e (All-select p rows h.1)
    ]

    All-insert_row :
        (before : R → R → Bool) (r : R) (rows : List R)
        → P r
        → All P rows
        → All P (insert_row before r rows)
    unfolding insert_row
    All-insert_row before r [] x h = (x, tt)
    All-insert_row before r (q ∷ rows) x h = elim (Bool-cases (before q r)) [
      | inl e ↦ rw e (h.0, All-insert_row before r rows x h.1)
      | inr e ↦ rw e (x, (h.0, h.1))
    ]

    pub All-order_by :
        (before : R → R → Bool) (rows : List R) → All P rows → All P (order_by before rows)
    unfolding order_by
    All-order_by before [] h = tt
    All-order_by before (r ∷ rows) h =
        All-insert_row before r (order_by before rows) h.0 (All-order_by before rows h.1)

  insert_row-perm :
      (before : R → R → Bool) (r : R) (rows : List R) → Perm (insert_row before r rows) (r ∷ rows)
  unfolding insert_row
  insert_row-perm before r [] = Perm.refl (r ∷ [])
  insert_row-perm before r (q ∷ rows) = elim (Bool-cases (before q r)) [
    | inl e ↦ rw e (Perm.trans (Perm.cons q (insert_row-perm before r rows)) (Perm.swap r q rows))
    | inr e ↦ rw e (Perm.refl (r ∷ q ∷ rows))
  ]

  pub order_by-perm : (before : R → R → Bool) (rows : List R) → Perm (order_by before rows) rows
  unfolding order_by
  order_by-perm before [] = Perm.refl []
  order_by-perm before (r ∷ rows) =
      Perm.trans (insert_row-perm before r (order_by before rows))
        (Perm.cons r (order_by-perm before rows))

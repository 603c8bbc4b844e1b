-- ===== src/Table.antt =====
-- The tables of the database: rows in the order of their insertion, under a text key. The
-- statements of the store are `SELECT … WHERE key = ?`, `SELECT … WHERE …`, `UPDATE … WHERE
-- key = ?`, `INSERT` and `ORDER BY … DESC`.
pub mod Laws
pub mod Order
pub mod Persist
use agentic_control_tower.Prelude.{
  ◌≡◌, String, Bool, true, false, Option, none, some, List, [], ◌∷◌, ◌++◌, if◌then◌else◌, ◌==◌,
}

module _ {R : Type 0} (key : R → String) where
  unfoldable pub find? : String → List R → Option R
  find? k [] = none
  find? k (r ∷ rows) = if key r == k then some r else find? k rows

  unfoldable pub update : String → (R → R) → List R → List R
  update k f [] = []
  update k f (r ∷ rows) = (if key r == k then f r else r) ∷ update k f rows

  unfoldable pub has_key : String → List R → Bool
  unfolding find?
  has_key k rows = elim (find? k rows) [ none ↦ false | some _ ↦ true ]

  -- PRIMARY KEY
  abbrev pub Unique : List R → Type 0
  Unique [] = Unit
  Unique (r ∷ rows) = (find? (key r) rows ≡ none) × Unique rows

module _ {R : Type 0} where
  unfoldable pub select : (R → Bool) → List R → List R
  select p [] = []
  select p (r ∷ rows) = let rest = select p rows in if p r then r ∷ rest else rest

  -- ORDER BY: `before a b` says that the sort key of `a` comes strictly first. Rows with equal
  -- keys stay in the order of their insertion.
  unfoldable pub insert_row : (R → R → Bool) → R → List R → List R
  insert_row before r [] = r ∷ []
  insert_row before r (q ∷ rows) =
      let rest = insert_row before r rows in if before q r then q ∷ rest else r ∷ q ∷ rows

  unfoldable pub order_by : (R → R → Bool) → List R → List R
  unfolding insert_row
  order_by before [] = []
  order_by before (r ∷ rows) = insert_row before r (order_by before rows)

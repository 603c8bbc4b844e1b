-- ===== src/Store/Sql.antt =====
-- The statements that several methods of store.py share, over a table of the state: `SELECT * …
-- WHERE key = ?` with and without the KeyError, `INSERT` under a primary key, and `UPDATE … WHERE
-- key = ?`.
pub mod Laws
use agentic_control_tower.Prelude.{String, Bool, Option, List, [], ◌∷◌, ◌++◌, not}
use agentic_control_tower.Exec.{gets, modify, require, or_key_error, integrity_error, ◌>>=◌, ◌>>◌}
use agentic_control_tower.Table.{find?, update, has_key, select, order_by}
use agentic_control_tower.Store.State.{Store, Action}

pub record Table (R : Type 0) : Type 0 where
  pub key : R → String
  pub rows : Store → List R
  pub put : Store → List R → Store

module _ {R : Type 0} (t : Table R) where
  abbrev pub row_at : String → Store → Option R
  row_at k s = find? t.key k (t.rows s)

  unfoldable pub fetch : String → Action R
  fetch k = do row ← gets (row_at k); or_key_error k row

  unfoldable pub exists : String → Action Bool
  exists k = gets (λ s. has_key t.key k (t.rows s))

  unfoldable pub insert : R → Action (Unit {0})
  insert r = do
    taken ← gets (λ s. has_key t.key (t.key r) (t.rows s))
    require (not taken) integrity_error
    modify (λ s. t.put s (t.rows s ++ r ∷ []))

  unfoldable pub update_where : String → (R → R) → Action (Unit {0})
  update_where k f = modify (λ s. t.put s (update t.key k f (t.rows s)))

  -- SELECT * … WHERE test ORDER BY … DESC
  unfoldable pub list_where : (R → Bool) → (R → R → Bool) → Action (List R)
  list_where test before = gets (λ s. order_by before (select test (t.rows s)))

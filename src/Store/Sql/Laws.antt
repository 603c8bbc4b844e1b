-- ===== src/Store/Sql/Laws.antt =====
-- How the shared statements change the state: a lookup not at all, an insertion by one row of a new
-- key, an update by the rows of its key.
use agentic_control_tower.Prelude.{
  ◌≡◌, refl, String, Bool, true, false, not, Option, none, some, [], ◌∷◌, ◌++◌,
}
use agentic_control_tower.Exec.{gets, modify, require, ◌>>=◌}
use agentic_control_tower.Exec.Along.{Preorder, Along, along_rules}
use agentic_control_tower.Exec.Returns.{
  Returns, after, gets-Returns, or_key_error-Returns, require-Returns,
}
use agentic_control_tower.Table.{find?, update, has_key}
use agentic_control_tower.Store.State.{Store}
use agentic_control_tower.Store.Sql.{Table, row_at, fetch, exists, insert, update_where, list_where}

module _ {R : Type 0} {P : Store → Store → Type 0} (p : Preorder P) (t : Table R) where
  pub Along-fetch : (k : String) → Along P (fetch t k)
  unfolding fetch
  Along-fetch k = search (along_rules, p)

  pub Along-exists : (k : String) → Along P (exists t k)
  unfolding exists
  Along-exists k = search (along_rules, p)

  pub Along-list_where :
      (test : R → Bool) (before : R → R → Bool) → Along P (list_where t test before)
  unfolding list_where
  Along-list_where test before = search (along_rules, p)

  pub Along-insert :
      (r : R)
      → ((s : Store) → find? t.key (t.key r) (t.rows s) ≡ none → P s (t.put s (t.rows s ++ r ∷ [])))
      → Along P (insert t r)
  unfolding insert ◌>>=◌ gets require modify has_key
  Along-insert r h = record { at = λ s. by_row s (find? t.key (t.key r) (t.rows s)) refl }
    where
      by_row :
          (s : Store) (o : Option R) → find? t.key (t.key r) (t.rows s) ≡ o → P s (insert t r s).1
      by_row s none e = rw (e, has_key) (h s e)
      by_row s (some q) e = rw (e, has_key) (p.same s)

  pub Along-update_where :
      (k : String) (f : R → R)
      → ((s : Store) → P s (t.put s (update t.key k f (t.rows s))))
      → Along P (update_where t k f)
  unfolding update_where modify
  Along-update_where k f h = record { at = h }

absent :
    {R : Type 0} (o : Option R) (taken : Bool)
    → taken ≡ elim o [ none ↦ false | some _ ↦ true ]
    → not taken ≡ true
    → o ≡ none
absent none taken is free = refl
absent (some r) true is free = cc
absent (some r) false is free = cc

module _ {R : Type 0} (t : Table R) where
  pub fetch-Returns :
      (k : String) {s s' : Store} {r : R}
      → Returns (fetch t k) s r s'
      → (row_at t k s ≡ some r) × (s' ≡ s)
  unfolding fetch
  fetch-Returns k h = after _ _ h λ found s₁ read h₁.
      let (found_is, same₁) = gets-Returns _ read in
      let (row_is, same) = or_key_error-Returns _ _ h₁ in (cc, cc)

  pub insert-Returns :
      (r : R) {s s' : Store} {u : Unit {0}}
      → Returns (insert t r) s u s'
      → (row_at t (t.key r) s ≡ none) × (s' ≡ t.put s (t.rows s ++ r ∷ []))
  unfolding insert has_key modify
  insert-Returns r {s = s} h = after _ _ h λ taken s₁ read h₁. after _ _ h₁ λ _ s₂ required h₂.
      let (taken_is, same₁) = gets-Returns _ read in
      let (free, same₂) = require-Returns _ _ required in
      let run = h₂.run in (absent (row_at t (t.key r) s) taken taken_is free, cc)

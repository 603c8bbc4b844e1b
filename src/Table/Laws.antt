-- ===== src/Table/Laws.antt =====
-- What a lookup returns after an insertion and after an update, and that keys stay unique.
use agentic_control_tower.Prelude.{
  ◌≡◌, refl, String, none, some, List, [], ◌∷◌, ◌++◌, arith, eq_iff, eq_refl, if◌then◌else◌, ◌==◌,
  All, All-imp,
}
use agentic_control_tower.Table.{find?, update, Unique}

module _ {R : Type 0} (key : R → String) where
  pub find?-append :
      (k : String) (rows : List R) (r : R)
      → find? key k (rows ++ r ∷ [])
        ≡ elim (find? key k rows) [ none ↦ if key r == k then some r else none | some q ↦ some q ]
  unfolding find?
  find?-append k [] r = refl
  find?-append k (q ∷ rows) r = ground (arith, find?-append k rows r)

  pub find?-key : (k : String) (rows : List R) (r : R) → find? key k rows ≡ some r → key r ≡ k
  unfolding find?
  find?-key k [] r h = cc
  find?-key k (q ∷ rows) r h = ground (arith, eq_iff (key q) k, find?-key k rows r)

  module _ (f : R → R) (keeps : (r : R) → key (f r) ≡ key r) where
    pub find?-update :
        (k j : String) (rows : List R)
        → find? key j (update key k f rows) ≡ (
            if k == j
            then elim (find? key j rows) [ none ↦ none | some r ↦ some (f r) ]
            else find? key j rows)
    unfolding find? update
    find?-update k j [] = ground arith
    find?-update k j (r ∷ rows) =
        ground
          (arith, keeps r, find?-update k j rows, eq_iff (key r) k, eq_iff (key r) j, eq_iff k j)

    pub update-Unique :
        (k : String) (rows : List R) → Unique key rows → Unique key (update key k f rows)
    unfolding update
    update-Unique k [] u = tt
    update-Unique k (r ∷ rows) u =
        ground (arith, keeps r, find?-update k (key r) rows, update-Unique k rows u.1)

  pub append-Unique :
      (rows : List R) (r : R)
      → find? key (key r) rows ≡ none
      → Unique key rows
      → Unique key (rows ++ r ∷ [])
  unfolding find?
  append-Unique [] r h u = (refl, tt)
  append-Unique (q ∷ rows) r h u = (
    ground (arith, find?-append (key q) rows r, eq_iff (key q) (key r), eq_iff (key r) (key q)),
    append-Unique rows r (ground arith) u.1,
  )

  -- Under unique keys a lookup by the key of a row finds that row.
  pub Unique-find? :
      (rows : List R) → Unique key rows → All (λ r. find? key (key r) rows ≡ some r) rows
  unfolding find?
  Unique-find? [] u = tt
  Unique-find? (r ∷ rows) u = (
    rw (eq_refl (key r)),
    All-imp (λ q h. ground (arith, eq_iff (key r) (key q), h, u.0)) rows (Unique-find? rows u.1),
  )

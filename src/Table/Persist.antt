-- ===== src/Table/Persist.antt =====
-- Rows that stay: every row of a table is found again under its key, and continues what it was.
use agentic_control_tower.Prelude.{
  ◌≡◌, refl, ◌∙◌, String, Bool, true, false, none, some, List, All, [], ◌∷◌, ◌++◌, ◌==◌,
  if◌then◌else◌,
}
use agentic_control_tower.Table.{find?, update}
use agentic_control_tower.Table.Laws.{find?-append, find?-update}

pub record Persists {R : Type 0} (key : R → String) (continues : R → R → Type 0) (xs ys : List R)
    : Type 0 where
  pub at :
      (k : String) (r : R)
      → find? key k xs ≡ some r
      → (q : R) × (find? key k ys ≡ some q) × continues r q

module _ {R : Type 0} (key : R → String) (continues : R → R → Type 0)
    (same : (r : R) → continues r r) where
  pub Persists-same : (xs ys : List R) → ys ≡ xs → Persists key continues xs ys
  Persists-same xs ys h = record { at = λ k r found. (r, rw h found, same r) }

  pub Persists-append :
      (xs : List R) (r : R) → find? key (key r) xs ≡ none → Persists key continues xs (xs ++ r ∷ [])
  Persists-append xs r fresh = record {
    at = λ k q found. (q, find?-append key k xs r ∙ rw found refl, same q);
  }

  pub Persists-update :
      (f : R → R) (keeps : (r : R) → key (f r) ≡ key r)
      → ((r : R) → continues r (f r))
      → (k : String) (xs : List R) → Persists key continues xs (update key k f xs)
  Persists-update f keeps next k xs = record {
    at = λ j r found.
        let (q, is_q, ok) = by_key (k == j) r in
        (q, find?-update key f keeps k j xs ∙ rw found is_q, ok);
  }
    where
      by_key :
          (b : Bool) (r : R)
          → (q : R) × ((if b then elim (some r) [ none ↦ none | some x ↦ some (f x) ] else some r)
              ≡ some q)
            × continues r q
      by_key true r = (f r, refl, next r)
      by_key false r = (r, refl, same r)

module _ {R : Type 0} (key : R → String) (continues : R → R → Type 0)
    (join : (p q r : R) → continues p q → continues q r → continues p r) where
  pub Persists-join :
      (xs ys zs : List R)
      → Persists key continues xs ys
      → Persists key continues ys zs
      → Persists key continues xs zs
  Persists-join xs ys zs f g = record {
    at = λ k r found.
        let (q, there, c) = f.at k r found in
        let (p, here, d) = g.at k q there in (p, here, join r q p c d);
  }

module _ {R : Type 0} (key : R → String) (P : R → Type 0) where
  pub All-update :
      (f : R → R)
      → ((r : R) → P r → P (f r))
      → (k : String) (xs : List R) → All P xs
      → All P (update key k f xs)
  unfolding update
  All-update f next k [] h = tt
  All-update f next k (r ∷ xs) h = (by_key (key r == k), All-update f next k xs h.1)
    where
      by_key : (b : Bool) → P (if b then f r else r)
      by_key true = next r h.0
      by_key false = h.0

  pub All-find? : (k : String) (xs : List R) (r : R) → All P xs → find? key k xs ≡ some r → P r
  unfolding find?
  All-find? k [] r h found = cc
  All-find? k (q ∷ xs) r h found = by_key (All-find? k xs r h.1) (key q == k) found
    where
      by_key :
          (find? key k xs ≡ some r → P r)
          → (b : Bool) → (if b then some q else find? key k xs) ≡ some r
          → P r
      by_key later true found = let same : q ≡ r = cc in rw same at h.0
      by_key later false found = later found

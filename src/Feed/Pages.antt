-- ===== src/Feed/Pages.antt =====
-- Reading the feed from the cursor of an event.
use agentic_control_tower.Prelude.{
  ◌≡◌, refl, ap, ◌∙◌, ◌<◌, ℕ, none, some, List, [], ◌∷◌, ◌++◌, All, ltb, arith,
}
use agentic_control_tower.World.{World, ℤ, pos}
use agentic_control_tower.Exec.{ok, gets}
use agentic_control_tower.Table.{select}
use agentic_control_tower.Store.Rows.{EventRow}
use agentic_control_tower.Store.State.{Store}
use agentic_control_tower.Store.Cursor.{
  cursor_text, cursor_sequence, after_last_colon, limit_rows, lt_ℕ,
}
use agentic_control_tower.Store.Cursor.RoundTrip.{cursor_sequence-cursor_text}
use agentic_control_tower.Store.Events.{list_events_after}

-- Each event has a greater number than those before it.
abbrev pub Increasing : List EventRow → Type 0
Increasing [] = Unit
Increasing (e ∷ rows) = All (λ x. e.sequence < x.sequence) rows × Increasing rows

All-here :
    (P : EventRow → Type 0) (xs : List EventRow) (e : EventRow) (ys : List EventRow)
    → All P (xs ++ e ∷ ys)
    → P e
All-here P [] e ys h = h.0
All-here P (x ∷ xs) e ys h = All-here P xs e ys h.1

select-kept :
    (n : ℕ) (rows : List EventRow)
    → All (λ x. n < x.sequence) rows
    → select (λ x. ltb n x.sequence) rows ≡ rows
unfolding select
select-kept n [] h = refl
select-kept n (x ∷ rows) h = let rest = select-kept n rows h.1 in let here = h.0 in ground arith

select-after :
    (xs : List EventRow) (e : EventRow) (ys : List EventRow)
    → Increasing (xs ++ e ∷ ys)
    → select (λ x. ltb e.sequence x.sequence) (xs ++ e ∷ ys) ≡ ys
unfolding select
select-after [] e ys h = let rest = select-kept e.sequence ys h.0 in ground arith
select-after (x ∷ xs) e ys h =
    let rest = select-after xs e ys h.1 in
    let before = All-here (λ y. x.sequence < y.sequence) xs e ys h.0 in ground arith

module _ (w : World) (s : Store) where
  -- Where the feed is in the order of its numbers, an event has the cursor that is written for its
  -- number, and `int` reads the printed digits, which hold no colon: reading on from the cursor of the
  -- event returns exactly the events after it, in their order, up to the limit, and writes nothing.
  pub list_events_after-cursor :
      (limit : ℤ) (xs : List EventRow) (e : EventRow) (ys : List EventRow)
      → s.event_envelopes ≡ xs ++ e ∷ ys
      → Increasing (xs ++ e ∷ ys)
      → e.cursor ≡ some (cursor_text w e.node_id e.sequence)
      → w.int (w.pad12 e.sequence) ≡ some (pos e.sequence)
      → after_last_colon (w.pad12 e.sequence) ≡ none
      → list_events_after w e.cursor limit s ≡ (ok (limit_rows limit ys), s)
  unfolding list_events_after gets
  list_events_after-cursor limit xs e ys feed increasing cursor digits colon =
      let read : cursor_sequence w e.cursor ≡ pos e.sequence =
        rw cursor (cursor_sequence-cursor_text w e.node_id e.sequence digits colon) in
      let selected =
        ap (λ (q : ℤ). select (λ x. lt_ℕ q x.sequence) s.event_envelopes) read
        ∙ ap (λ rows. select (λ x. ltb e.sequence x.sequence) rows) feed
        ∙ select-after xs e ys increasing in
      ap (λ (rows : List EventRow). (ok (limit_rows limit rows), s)) selected

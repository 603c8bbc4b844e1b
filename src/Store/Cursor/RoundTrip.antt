-- ===== src/Store/Cursor/RoundTrip.antt =====
-- A cursor that `create_event` writes reads back as the number of its event.
use Prim.Native.String.append
use Prim.Native.String.{◌++◌ as concat}
use text.Mathlib.TextEquality.{eq_iff}
use agentic_control_tower.Prelude.{ℕ, String, ◌≡◌, none, some, ◌==◌, Bool-cases, inl, inr}
use agentic_control_tower.World.{World, pos}
use agentic_control_tower.Store.Cursor.{after_last_colon, cursor_text, cursor_sequence}

after_last_colon-concat :
    (a d : String) → after_last_colon d ≡ none → after_last_colon (concat a (concat ":" d)) ≡ some d
unfolding after_last_colon
after_last_colon-concat String.[] d h =
    rw (append.nil (concat ":" d), append.cons, append.nil) (rw h)
after_last_colon-concat (String.◌∷◌ c a) d h =
    rw append.cons (rw (after_last_colon-concat a d h, after_last_colon))

no_colon_in_empty : (text : String) {d : String} → text ≡ "" → after_last_colon text ≡ some d → ⊥
unfolding after_last_colon
no_colon_in_empty String.[] e h = cc
no_colon_in_empty (String.◌∷◌ c rest) e h = cc

module _ (w : World) where
  -- Where `int` reads the twelve digits that `format` prints as the number that was printed, and
  -- the digits hold no colon, the cursor of any event of any node reads back as the number of the event.
  pub cursor_sequence-cursor_text :
      (node_id : String) (n : ℕ)
      → w.int (w.pad12 n) ≡ some (pos n)
      → after_last_colon (w.pad12 n) ≡ none
      → cursor_sequence w (some (cursor_text w node_id n)) ≡ pos n
  unfolding cursor_sequence cursor_text
  cursor_sequence-cursor_text node_id n digits colon =
      let text = cursor_text w node_id n in
      let tail = after_last_colon-concat node_id (w.pad12 n) colon in
      elim (Bool-cases (text == "")) [
        | inl e ↦ absurd (no_colon_in_empty text ((eq_iff text "").0 e) tail)
        | inr e ↦ rw e (rw tail (rw digits))
      ]

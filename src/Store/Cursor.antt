-- ===== src/Store/Cursor.antt =====
-- Event cursors: the text that `create_event` writes and `_cursor_sequence` of store.py.
pub mod RoundTrip
use Prim.Native.Char.{code}
use Prim.Native.String.{◌++◌ as concat}
use agentic_control_tower.Prelude.{
  ℕ, String, Bool, true, false, Option, none, some, List, ltb, eqb, take, if◌then◌else◌, truthy,
}
use agentic_control_tower.World.{World, ℤ, pos, negsuc}

-- `text.rsplit(":", 1)[1]`, and `none` for the IndexError of a text with no colon.
unfoldable pub after_last_colon : String → Option String
after_last_colon String.[] = none
after_last_colon (String.◌∷◌ c rest) =
    let here : Option String = if eqb (code c) b':' then some rest else none in
    elim (after_last_colon rest) [ some found ↦ some found | none ↦ here ]

abbrev pub lt_ℕ : ℤ → ℕ → Bool
lt_ℕ (pos n) m = ltb n m
lt_ℕ (negsuc n) m = true

-- LIMIT: a negative limit is none.
abbrev pub limit_rows : {A : Type 0} → ℤ → List A → List A
limit_rows (pos n) rows = take n rows
limit_rows (negsuc n) rows = rows

module _ (w : World) where
  unfoldable pub cursor_text : String → ℕ → String
  cursor_text node_id sequence = concat node_id (concat ":" (w.pad12 sequence))

  abbrev pub or_zero : Option ℤ → ℤ
  or_zero none = pos 0
  or_zero (some n) = n

  abbrev pub parsed : Option String → ℤ
  parsed none = pos 0
  parsed (some digits) = or_zero (w.int digits)

  abbrev pub cursor_value : Option String → ℤ
  cursor_value none = pos 0
  cursor_value (some cursor) = parsed (after_last_colon cursor)

  unfoldable pub cursor_sequence : Option String → ℤ
  unfolding after_last_colon
  cursor_sequence cursor = if truthy cursor then cursor_value cursor else pos 0

-- ===== src/Store/Events.antt =====
-- Event envelopes: `create_event`, `list_events_after` and the cursors of store.py. The table is
-- kept by its INTEGER PRIMARY KEY, so its rows stand in the order of `sequence`.
use agentic_control_tower.Prelude.{suc, String, Option, none, some, List, [], ◌∷◌, ◌++◌, not}
use agentic_control_tower.World.{World, ℤ}
use agentic_control_tower.Json.{Json}
use agentic_control_tower.Exec.{gets, modify, require, or_key_error, integrity_error, ◌>>=◌, ◌>>◌}
use agentic_control_tower.Table.{find?, has_key, select}
use agentic_control_tower.Store.Rows.{EventRow}
use agentic_control_tower.Store.State.{Action}
use agentic_control_tower.Store.Security.{now_utc, new_id}
use agentic_control_tower.Store.Cursor.{cursor_text, cursor_sequence, lt_ℕ, limit_rows}

unfoldable pub get_event_by_id : String → Action EventRow
get_event_by_id id = do
  row ← gets (λ s. find? (λ e. e.event_id) id s.event_envelopes)
  or_key_error id row

module _ (w : World) where
  -- INSERT INTO event_envelopes, and the UPDATE that writes the cursor of the new row: `event_id` is
  -- UNIQUE, `sequence` is the next number.
  unfoldable pub insert_event : EventRow → Action (Unit {0})
  unfolding cursor_text
  insert_event row = do
    taken ← gets (λ s. has_key (λ e. e.event_id) row.event_id s.event_envelopes)
    require (not taken) integrity_error
    modify λ s. record s {
      event_envelopes =
          s.event_envelopes
          ++ record row {
            sequence = suc s.event_sequence;
            cursor = some (cursor_text w row.node_id (suc s.event_sequence));
          }
            ∷ [];
      event_sequence = suc s.event_sequence;
    }

  unfoldable pub create_event :
      String → String → Json → Option String → Option String → Action EventRow
  create_event node_id event_type payload agent_id session_id = do
    event_id ← new_id w "evt"
    occurred_at ← now_utc w
    insert_event (record {
      sequence = 0;
      event_id = event_id;
      cursor = none;
      node_id = node_id;
      agent_id = agent_id;
      session_id = session_id;
      event_type = event_type;
      severity = "info";
      occurred_at = occurred_at;
      payload = payload;
    })
    get_event_by_id event_id

  unfoldable pub list_events_after : Option String → ℤ → Action (List EventRow)
  list_events_after after limit = gets λ s.
      limit_rows limit (select (λ e. lt_ℕ (cursor_sequence w after) e.sequence) s.event_envelopes)

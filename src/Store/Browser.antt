-- ===== src/Store/Browser.antt =====
-- Browser assistance sessions of store.py.
use agentic_control_tower.Prelude.{ℕ, String, Option, List, [], ◌∷◌, ◌++◌, ◌==◌, ◌||◌, coalesce}
use agentic_control_tower.World.{World}
use agentic_control_tower.Exec.{◌>>=◌, ◌>>◌}
use agentic_control_tower.Store.SessionRows.{BrowserSessionRow}
use agentic_control_tower.Store.State.{Action}
use agentic_control_tower.Store.Security.{iso_lt, now_utc, new_id}
use agentic_control_tower.Store.Sql.{Table, fetch, insert, update_where, list_where}
use agentic_control_tower.Store.Operators.{text_matches}
use agentic_control_tower.Store.Assistance.{stamp}

abbrev pub browser_sessions : Table BrowserSessionRow
browser_sessions = record {
  key = λ q. q.browser_session_id;
  rows = λ s. s.browser_assistance_sessions;
  put = λ s rows. record s { browser_assistance_sessions = rows };
}

unfoldable pub get_browser_assistance_session : String → Action BrowserSessionRow
get_browser_assistance_session session_id = fetch browser_sessions session_id

unfoldable pub list_browser_assistance_sessions : Option String → Action (List BrowserSessionRow)
list_browser_assistance_sessions state =
    list_where browser_sessions (λ q. text_matches state q.state)
      (λ a b. iso_lt b.updated_at a.updated_at)

-- What the UPDATE of `update_browser_assistance_state` writes into the row.
unfoldable pub browser_moved : String → Option String → ℕ → BrowserSessionRow → BrowserSessionRow
browser_moved state summary now q = record q {
  state = state;
  return_summary = coalesce summary q.return_summary;
  updated_at = now;
  returned_at = coalesce (stamp (state == "returned_to_agent") now) q.returned_at;
  closed_at = coalesce (stamp (state == "closed" || state == "failed") now) q.closed_at;
}

-- What the UPDATE of `add_browser_assistance_note` writes into the row.
abbrev pub noted : List String → ℕ → BrowserSessionRow → BrowserSessionRow
noted notes now q = record q {
  user_action_notes = notes;
  updated_at = now;
  state = "user_controlling";
}

module _ (w : World) where
  -- The session that the caller describes; the identifier and the times are filled in.
  unfoldable pub create_browser_assistance_session : BrowserSessionRow → Action BrowserSessionRow
  create_browser_assistance_session q = do
    session_id ← new_id w "bas"
    now ← now_utc w
    insert browser_sessions
        (record q { browser_session_id = session_id; created_at = now; updated_at = now })
    get_browser_assistance_session session_id

  unfoldable pub add_browser_assistance_note : String → String → Action BrowserSessionRow
  add_browser_assistance_note session_id note = do
    session ← get_browser_assistance_session session_id
    now ← now_utc w
    update_where browser_sessions session_id (noted (session.user_action_notes ++ note ∷ []) now)
    get_browser_assistance_session session_id

  unfoldable pub update_browser_assistance_state :
      String → String → Option String → Action BrowserSessionRow
  update_browser_assistance_state session_id state return_summary = do
    now ← now_utc w
    update_where browser_sessions session_id (browser_moved state return_summary now)
    get_browser_assistance_session session_id

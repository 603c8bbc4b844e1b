-- ===== src/Store/Assistance.antt =====
-- Assistance (TUA) requests, sessions and messages of store.py.
use agentic_control_tower.Prelude.{
  ℕ, String, Bool, Option, none, some, List, [], ◌∷◌, ◌==◌, ◌&&◌, ◌||◌, coalesce, if◌then◌else◌,
}
use agentic_control_tower.World.{World}
use agentic_control_tower.Exec.{pure, ◌>>=◌, ◌>>◌}
use agentic_control_tower.Store.SessionRows.{
  AssistanceRequestRow, AssistanceSessionRow, AssistanceMessageRow,
}
use agentic_control_tower.Store.State.{Action}
use agentic_control_tower.Store.Security.{iso_lt, now_utc, new_id}
use agentic_control_tower.Store.Sql.{Table, fetch, insert, update_where, list_where}
use agentic_control_tower.Store.Operators.{text_matches}

abbrev pub assistance_requests : Table AssistanceRequestRow
assistance_requests = record {
  key = λ q. q.request_id;
  rows = λ s. s.assistance_requests;
  put = λ s rows. record s { assistance_requests = rows };
}

abbrev pub assistance_sessions : Table AssistanceSessionRow
assistance_sessions = record {
  key = λ q. q.assistance_session_id;
  rows = λ s. s.assistance_sessions;
  put = λ s rows. record s { assistance_sessions = rows };
}

abbrev pub assistance_messages : Table AssistanceMessageRow
assistance_messages = record {
  key = λ m. m.message_id;
  rows = λ s. s.assistance_messages;
  put = λ s rows. record s { assistance_messages = rows };
}

-- The session with its messages, as `get_assistance_session` returns it.
pub record AssistanceSession : Type 0 where
  pub row : AssistanceSessionRow
  pub messages : List AssistanceMessageRow

unfoldable pub get_assistance_request : String → Action AssistanceRequestRow
get_assistance_request request_id = fetch assistance_requests request_id

unfoldable pub list_assistance_requests : Option String → Action (List AssistanceRequestRow)
list_assistance_requests state =
    list_where assistance_requests (λ q. text_matches state q.state)
      (λ a b. iso_lt b.updated_at a.updated_at)

unfoldable pub list_assistance_messages : String → Action (List AssistanceMessageRow)
list_assistance_messages session_id =
    list_where assistance_messages (λ m. m.assistance_session_id == session_id)
      (λ a b. iso_lt a.created_at b.created_at)

unfoldable pub get_assistance_session : String → Action AssistanceSession
get_assistance_session session_id = do
  row ← fetch assistance_sessions session_id
  messages ← list_assistance_messages session_id
  pure (record { row = row; messages = messages })

unfoldable pub with_messages : List AssistanceSessionRow → Action (List AssistanceSession)
with_messages [] = pure []
with_messages (row ∷ rows) = do
  messages ← list_assistance_messages row.assistance_session_id
  rest ← with_messages rows
  pure (record { row = row; messages = messages } ∷ rest)

unfoldable pub list_assistance_sessions :
    Option String → Option String → Action (List AssistanceSession)
list_assistance_sessions request_id state = do
  rows ←
      list_where assistance_sessions
        (λ q. text_matches request_id q.request_id && text_matches state q.state)
        (λ a b. iso_lt b.updated_at a.updated_at)
  with_messages rows

unfoldable pub get_assistance_message : String → Action AssistanceMessageRow
get_assistance_message message_id = fetch assistance_messages message_id

-- `now if test else None`
abbrev pub stamp : Bool → ℕ → Option ℕ
stamp test now = if test then some now else none

-- What the UPDATE of `update_assistance_session_state` writes into the row.
unfoldable pub assistance_moved :
    String → Option String → ℕ → AssistanceSessionRow → AssistanceSessionRow
assistance_moved state summary now q = record q {
  state = state;
  return_summary = coalesce summary q.return_summary;
  updated_at = now;
  returned_at = coalesce (stamp (state == "returned_to_agent") now) q.returned_at;
  closed_at = coalesce (stamp (state == "closed" || state == "cancelled") now) q.closed_at;
}

module _ (w : World) where
  -- The request that the caller describes; the identifier and the times are filled in.
  unfoldable pub create_assistance_request : AssistanceRequestRow → Action AssistanceRequestRow
  create_assistance_request q = do
    request_id ← new_id w "tua_req"
    now ← now_utc w
    insert assistance_requests
        (record q { request_id = request_id; created_at = now; updated_at = now })
    get_assistance_request request_id

  unfoldable pub create_assistance_session : AssistanceSessionRow → Action AssistanceSession
  create_assistance_session q = do
    session_id ← new_id w "tua"
    now ← now_utc w
    insert assistance_sessions
        (record q { assistance_session_id = session_id; created_at = now; updated_at = now })
    update_where assistance_requests q.request_id
        (λ r. record r { state = "active"; updated_at = now })
    get_assistance_session session_id

  unfoldable pub update_assistance_session_state :
      String → String → Option String → Action AssistanceSession
  update_assistance_session_state session_id state return_summary = do
    now ← now_utc w
    update_where assistance_sessions session_id (assistance_moved state return_summary now)
    get_assistance_session session_id

  unfoldable pub create_assistance_message :
      String → String → String → String → Action AssistanceMessageRow
  create_assistance_message session_id sender_type sender_id body = do
    message_id ← new_id w "tua_msg"
    now ← now_utc w
    insert assistance_messages (record {
      message_id = message_id;
      assistance_session_id = session_id;
      sender_type = sender_type;
      sender_id = sender_id;
      body = body;
      created_at = now;
    })
    get_assistance_message message_id

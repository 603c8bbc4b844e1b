-- ===== src/History/Sessions.antt =====
-- The store's methods of the operator's sessions write none of the tables the history speaks of.
use agentic_control_tower.Prelude.{refl, String, Option, List, [], ◌∷◌}
use agentic_control_tower.World.{World}
use agentic_control_tower.Exec.Along.{Along}
use agentic_control_tower.Store.SessionRows.{
  AssistanceRequestRow, AssistanceMessageRow, VoiceMessageRow, OperatorSessionRow,
  AssistanceSessionRow, BrowserSessionRow, VoiceSessionRow,
}
use agentic_control_tower.Store.Operators.{
  operator_sessions, NewOperatorSession, create_operator_session, get_operator_session,
  list_operator_sessions, update_operator_session_state,
}
use agentic_control_tower.Store.Assistance.{
  assistance_messages, create_assistance_request, get_assistance_request, list_assistance_requests,
  create_assistance_session, get_assistance_session, list_assistance_messages,
  update_assistance_session_state, with_messages, create_assistance_message, get_assistance_message,
  list_assistance_sessions,
}
use agentic_control_tower.Store.Browser.{
  create_browser_assistance_session, get_browser_assistance_session,
  list_browser_assistance_sessions, add_browser_assistance_note, update_browser_assistance_state,
}
use agentic_control_tower.Store.Voice.{
  voice_messages, create_voice_session, get_voice_session, list_voice_messages, closing_time,
  update_voice_session_state, create_voice_message, get_voice_message,
}
use agentic_control_tower.Runtime.{set_agent_runtime_state}
use agentic_control_tower.History.{History}
use agentic_control_tower.Store.Sql.{insert, update_where}
use agentic_control_tower.Store.Sql.Laws.{Along-fetch, Along-list_where}
use agentic_control_tower.Store.Lasting.{IsWaiting}
use agentic_control_tower.History.Primitives.{other-History, clock_rules}
use agentic_control_tower.History.Stores.{create_event-History}
use agentic_control_tower.History.SessionTables.{last_rules, requests_insert-History}
use agentic_control_tower.History.Tables.{
  IsOther, insert-History, update-History, upsert_agent-History,
}

assistance_messages-IsOther : IsOther assistance_messages
assistance_messages-IsOther = record {
  same = λ s rows. record {
    approvals = refl;
    audit = refl;
    nonces = refl;
    devices = refl;
    requests = refl;
    assistance = refl;
    browser = refl;
    voice = refl;
  };
}

voice_messages-IsOther : IsOther voice_messages
voice_messages-IsOther = record {
  same = λ s rows. record {
    approvals = refl;
    audit = refl;
    nonces = refl;
    devices = refl;
    requests = refl;
    assistance = refl;
    browser = refl;
    voice = refl;
  };
}

operator_sessions-IsOther : IsOther operator_sessions
operator_sessions-IsOther = record {
  same = λ s rows. record {
    approvals = refl;
    audit = refl;
    nonces = refl;
    devices = refl;
    requests = refl;
    assistance = refl;
    browser = refl;
    voice = refl;
  };
}

module _ (w : World) where
  messages_insert-History :
      (m : AssistanceMessageRow) → Along (History w) (insert assistance_messages m)
  messages_insert-History m = insert-History w assistance_messages assistance_messages-IsOther m

  voice_messages_insert-History :
      (m : VoiceMessageRow) → Along (History w) (insert voice_messages m)
  voice_messages_insert-History m = insert-History w voice_messages voice_messages-IsOther m

  operators_update-History :
      (id : String) (f : OperatorSessionRow → OperatorSessionRow)
      → Along (History w) (update_where operator_sessions id f)
  operators_update-History id f = update-History w operator_sessions operator_sessions-IsOther id f

ruleset session_rules = (
  clock_rules, last_rules, Along-fetch, Along-list_where, messages_insert-History,
  voice_messages_insert-History, operators_update-History, other-History,
)

module _ (w : World) where
  pub get_assistance_request-History : (id : String) → Along (History w) (get_assistance_request id)
  unfolding get_assistance_request
  get_assistance_request-History id = search session_rules depth 8

  pub list_assistance_requests-History :
      (state : Option String) → Along (History w) (list_assistance_requests state)
  unfolding list_assistance_requests
  list_assistance_requests-History state = search session_rules depth 8

  pub get_assistance_session-History : (id : String) → Along (History w) (get_assistance_session id)
  unfolding get_assistance_session list_assistance_messages
  get_assistance_session-History id = search session_rules depth 10

  list_assistance_messages-History : (id : String) → Along (History w) (list_assistance_messages id)
  unfolding list_assistance_messages
  list_assistance_messages-History id = search session_rules

  with_messages-History :
      (rows : List AssistanceSessionRow) → Along (History w) (with_messages rows)
  unfolding with_messages
  with_messages-History [] = search session_rules
  with_messages-History (row ∷ rows) =
      let rest = with_messages-History rows in
      search (session_rules, list_assistance_messages-History) depth 10

  pub list_assistance_sessions-History :
      (request_id state : Option String)
      → Along (History w) (list_assistance_sessions request_id state)
  unfolding list_assistance_sessions
  list_assistance_sessions-History request_id state =
      search (session_rules, with_messages-History) depth 8

  pub create_assistance_request-History :
      (q : AssistanceRequestRow) → IsWaiting q → Along (History w) (create_assistance_request w q)
  unfolding create_assistance_request
  create_assistance_request-History q waiting =
      search (session_rules, requests_insert-History, get_assistance_request-History) depth 12

  pub create_assistance_session-History :
      (q : AssistanceSessionRow) → Along (History w) (create_assistance_session w q)
  unfolding create_assistance_session
  create_assistance_session-History q =
      search (session_rules, get_assistance_session-History) depth 14

  pub update_assistance_session_state-History :
      (id state : String) (summary : Option String)
      → Along (History w) (update_assistance_session_state w id state summary)
  unfolding update_assistance_session_state
  update_assistance_session_state-History id state summary =
      search (session_rules, get_assistance_session-History) depth 12

  pub create_assistance_message-History :
      (id type sender body : String)
      → Along (History w) (create_assistance_message w id type sender body)
  unfolding create_assistance_message get_assistance_message
  create_assistance_message-History id type sender body = search session_rules depth 12

  pub get_browser_assistance_session-History :
      (id : String) → Along (History w) (get_browser_assistance_session id)
  unfolding get_browser_assistance_session
  get_browser_assistance_session-History id = search session_rules depth 8

  pub list_browser_assistance_sessions-History :
      (state : Option String) → Along (History w) (list_browser_assistance_sessions state)
  unfolding list_browser_assistance_sessions
  list_browser_assistance_sessions-History state = search session_rules depth 8

  pub create_browser_assistance_session-History :
      (q : BrowserSessionRow) → Along (History w) (create_browser_assistance_session w q)
  unfolding create_browser_assistance_session
  create_browser_assistance_session-History q =
      search (session_rules, get_browser_assistance_session-History) depth 12

  pub add_browser_assistance_note-History :
      (id note : String) → Along (History w) (add_browser_assistance_note w id note)
  unfolding add_browser_assistance_note
  add_browser_assistance_note-History id note =
      search (session_rules, get_browser_assistance_session-History) depth 12

  pub update_browser_assistance_state-History :
      (id state : String) (summary : Option String)
      → Along (History w) (update_browser_assistance_state w id state summary)
  unfolding update_browser_assistance_state
  update_browser_assistance_state-History id state summary =
      search (session_rules, get_browser_assistance_session-History) depth 12

  pub get_voice_session-History : (id : String) → Along (History w) (get_voice_session id)
  unfolding get_voice_session list_voice_messages
  get_voice_session-History id = search session_rules depth 10

  pub create_voice_session-History :
      (v : VoiceSessionRow) → Along (History w) (create_voice_session w v)
  unfolding create_voice_session
  create_voice_session-History v = search (session_rules, get_voice_session-History) depth 12

  closing_time-History : (state : String) → Along (History w) (closing_time w state)
  unfolding closing_time
  closing_time-History state = search session_rules depth 12

  pub update_voice_session_state-History :
      (id state : String) → Along (History w) (update_voice_session_state w id state)
  unfolding update_voice_session_state
  update_voice_session_state-History id state =
      search (session_rules, get_voice_session-History, closing_time-History) depth 12

  pub create_voice_message-History :
      (id sender body mode : String)
      → Along (History w) (create_voice_message w id sender body mode)
  unfolding create_voice_message get_voice_message
  create_voice_message-History id sender body mode = search session_rules depth 12

  pub create_operator_session-History :
      (n : NewOperatorSession) → Along (History w) (create_operator_session w n)
  unfolding create_operator_session get_operator_session
  create_operator_session-History n = search session_rules depth 12

  pub update_operator_session_state-History :
      (id state : String) (owner summary : Option String)
      → Along (History w) (update_operator_session_state w id state owner summary)
  unfolding update_operator_session_state get_operator_session
  update_operator_session_state-History id state owner summary = search session_rules depth 12

  pub list_operator_sessions-History :
      (type state agent : Option String)
      → Along (History w) (list_operator_sessions type state agent)
  unfolding list_operator_sessions
  list_operator_sessions-History type state agent = search session_rules depth 8

  pub set_agent-History :
      (node_id agent_id : String) (session : Option String) (status : String) (tool : Option String)
      → Along (History w) (set_agent_runtime_state w node_id agent_id session status tool)
  unfolding set_agent_runtime_state
  set_agent-History node_id agent_id session status tool =
      search (clock_rules, upsert_agent-History, create_event-History) depth 10

pub ruleset session_methods = (
  get_assistance_request-History, list_assistance_requests-History, get_assistance_session-History,
  list_assistance_sessions-History, create_assistance_session-History,
  update_assistance_session_state-History, create_assistance_message-History,
  get_browser_assistance_session-History, list_browser_assistance_sessions-History,
  create_browser_assistance_session-History, add_browser_assistance_note-History,
  update_browser_assistance_state-History, get_voice_session-History, create_voice_session-History,
  update_voice_session_state-History, create_voice_message-History, create_operator_session-History,
  update_operator_session_state-History, list_operator_sessions-History,
)

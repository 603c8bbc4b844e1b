-- ===== src/History/SessionCalls.antt =====
-- Every call of the operator's sessions keeps the history.
use agentic_control_tower.World.{World}
use agentic_control_tower.Exec.{forget}
use agentic_control_tower.Exec.Along.{Along}
use agentic_control_tower.Store.State.{Action, Settings}
use agentic_control_tower.Signing.{HttpRequest}
use agentic_control_tower.Calls.Sessions.{SessionCall, handle_session}
use agentic_control_tower.History.{History}
use agentic_control_tower.History.Primitives.{clock_rules}
use agentic_control_tower.History.Assistance.{
  add_browser_assistance_event-History, close_browser_assistance_session-History,
  close_tua_session-History, close_voice_session-History, create_browser_assistance_session-History,
  create_tua_message-History, create_tua_request-History, create_tua_session-History,
  create_voice_message-History, create_voice_session-History,
  get_browser_assistance_session-History, get_tua_request-History, get_tua_session-History,
  get_voice_session-History, list_browser_assistance_sessions-History,
  list_operator_session_rows-History, list_tua_requests-History,
  return_browser_assistance_control-History, return_tua_control-History, runtime_handoff-History,
  runtime_handoff_result-History,
}
use agentic_control_tower.History.Terminals
use agentic_control_tower.History.Terminals.{stream-History, frame-History, output_ended-History}

module _ (w : World) (settings : Settings) (r : HttpRequest) where
  forget-History : {A : Type 0} {m : Action A} → Along (History w) m → Along (History w) (forget m)
  forget-History h = search (clock_rules, h)

  pub handle_session-History :
      (call : SessionCall) → Along (History w) (handle_session w settings r call)
  unfolding handle_session
  handle_session-History (SessionCall.list_operator_session_rows a b c) =
      forget-History (list_operator_session_rows-History w settings r a b c)
  handle_session-History (SessionCall.create_tua_request a) =
      forget-History (create_tua_request-History w settings r a)
  handle_session-History (SessionCall.list_tua_requests a) =
      forget-History (list_tua_requests-History w settings r a)
  handle_session-History (SessionCall.get_tua_request a) =
      forget-History (get_tua_request-History w settings r a)
  handle_session-History (SessionCall.create_tua_session a b) =
      forget-History (create_tua_session-History w settings r a b)
  handle_session-History (SessionCall.get_tua_session a) =
      forget-History (get_tua_session-History w settings r a)
  handle_session-History (SessionCall.create_tua_message a b) =
      forget-History (create_tua_message-History w settings r a b)
  handle_session-History (SessionCall.return_tua_control a b) =
      forget-History (return_tua_control-History w settings r a b)
  handle_session-History (SessionCall.close_tua_session a) =
      forget-History (close_tua_session-History w settings r a)
  handle_session-History (SessionCall.create_browser_assistance_session a) =
      forget-History (create_browser_assistance_session-History w settings r a)
  handle_session-History (SessionCall.list_browser_assistance_sessions a) =
      forget-History (list_browser_assistance_sessions-History w settings r a)
  handle_session-History (SessionCall.get_browser_assistance_session a) =
      forget-History (get_browser_assistance_session-History w settings r a)
  handle_session-History (SessionCall.add_browser_assistance_event a b) =
      forget-History (add_browser_assistance_event-History w settings r a b)
  handle_session-History (SessionCall.return_browser_assistance_control a b) =
      forget-History (return_browser_assistance_control-History w settings r a b)
  handle_session-History (SessionCall.close_browser_assistance_session a) =
      forget-History (close_browser_assistance_session-History w settings r a)
  handle_session-History (SessionCall.create_voice_session a) =
      forget-History (create_voice_session-History w settings r a)
  handle_session-History (SessionCall.get_voice_session a) =
      forget-History (get_voice_session-History w settings r a)
  handle_session-History (SessionCall.create_voice_message a b c) =
      forget-History (create_voice_message-History w settings r a b c)
  handle_session-History (SessionCall.close_voice_session a) =
      forget-History (close_voice_session-History w settings r a)
  handle_session-History (SessionCall.runtime_handoff a) =
      forget-History (runtime_handoff-History w settings r a)
  handle_session-History (SessionCall.runtime_handoff_result a b) =
      forget-History (runtime_handoff_result-History w settings r a b)
  handle_session-History (SessionCall.tui_create_session a) =
      forget-History (Terminals.create_tui_session-History w settings r a)
  handle_session-History (SessionCall.tui_create_attach_token a) =
      forget-History (Terminals.create_tui_attach_token-History w settings r a)
  handle_session-History (SessionCall.tui_list_sessions a) =
      forget-History (Terminals.list_tui_sessions-History w settings r a)
  handle_session-History (SessionCall.tui_get_session a) =
      forget-History (Terminals.get_tui_session-History w settings r a)
  handle_session-History (SessionCall.tui_detach_session a) =
      forget-History (Terminals.detach_tui_session-History w settings r a)
  handle_session-History (SessionCall.tui_close_session a) =
      forget-History (Terminals.close_tui_session-History w settings r a)
  handle_session-History (SessionCall.tui_stream a b) = forget-History (stream-History w a b)
  handle_session-History (SessionCall.tui_output_ended a) =
      forget-History (output_ended-History w a)
  handle_session-History (SessionCall.tui_frame a b c) = forget-History (frame-History w a b c)

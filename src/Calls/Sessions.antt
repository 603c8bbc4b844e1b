-- ===== src/Calls/Sessions.antt =====
-- The endpoints of the operator's sessions as calls. A frame of a terminal's stream is a call by itself:
-- it names the session and the device of the token with which the stream was opened. The end of a
-- terminal's process is a call as well.
use agentic_control_tower.Prelude.{String, Option}
use agentic_control_tower.World.{World}
use agentic_control_tower.Exec.{forget}
use agentic_control_tower.Store.State.{Action, Settings}
use agentic_control_tower.Signing.{HttpRequest}
use agentic_control_tower.Assistance
use agentic_control_tower.Assistance.Tua
use agentic_control_tower.Assistance.Tua.{HelpPayload}
use agentic_control_tower.Assistance.Browsing
use agentic_control_tower.Assistance.Speech
use agentic_control_tower.Assistance.Speech.{VoicePayload}
use agentic_control_tower.Assistance.Handoffs
use agentic_control_tower.Assistance.Handoffs.{HandoffRequest}
use agentic_control_tower.Tui.{output_ended}
use agentic_control_tower.Tui.Endpoints
use agentic_control_tower.Tui.Endpoints.{TuiPayload, Frame, open_stream, handle_tui_frame}

pub data SessionCall : Type 0 where
  list_operator_session_rows : Option String → Option String → Option String → SessionCall
  create_tua_request : HelpPayload → SessionCall
  list_tua_requests : Option String → SessionCall
  get_tua_request : String → SessionCall
  create_tua_session : String → Option String → SessionCall
  get_tua_session : String → SessionCall
  create_tua_message : String → String → SessionCall
  return_tua_control : String → String → SessionCall
  close_tua_session : String → SessionCall
  create_browser_assistance_session : HelpPayload → SessionCall
  list_browser_assistance_sessions : Option String → SessionCall
  get_browser_assistance_session : String → SessionCall
  add_browser_assistance_event : String → String → SessionCall
  return_browser_assistance_control : String → String → SessionCall
  close_browser_assistance_session : String → SessionCall
  create_voice_session : VoicePayload → SessionCall
  get_voice_session : String → SessionCall
  create_voice_message : String → String → String → SessionCall
  close_voice_session : String → SessionCall
  runtime_handoff : HandoffRequest → SessionCall
  runtime_handoff_result : String → String → SessionCall
  tui_create_session : TuiPayload → SessionCall
  tui_create_attach_token : String → SessionCall
  tui_list_sessions : Option String → SessionCall
  tui_get_session : String → SessionCall
  tui_detach_session : String → SessionCall
  tui_close_session : String → SessionCall
  tui_stream : String → Option String → SessionCall
  tui_frame : String → String → Frame → SessionCall
  tui_output_ended : String → SessionCall

module _ (w : World) (settings : Settings) (r : HttpRequest) where
  unfoldable pub handle_session : SessionCall → Action (Unit {0})
  handle_session (list_operator_session_rows a b c) =
      forget (Assistance.list_operator_session_rows w settings r a b c)
  handle_session (create_tua_request a) = forget (Tua.create_tua_request w settings r a)
  handle_session (list_tua_requests a) = forget (Tua.list_tua_requests w settings r a)
  handle_session (get_tua_request a) = forget (Tua.get_tua_request w settings r a)
  handle_session (create_tua_session a b) = forget (Tua.create_tua_session w settings r a b)
  handle_session (get_tua_session a) = forget (Tua.get_tua_session w settings r a)
  handle_session (create_tua_message a b) = forget (Tua.create_tua_message w settings r a b)
  handle_session (return_tua_control a b) = forget (Tua.return_tua_control w settings r a b)
  handle_session (close_tua_session a) = forget (Tua.close_tua_session w settings r a)
  handle_session (create_browser_assistance_session a) =
      forget (Browsing.create_browser_assistance_session w settings r a)
  handle_session (list_browser_assistance_sessions a) =
      forget (Browsing.list_browser_assistance_sessions w settings r a)
  handle_session (get_browser_assistance_session a) =
      forget (Browsing.get_browser_assistance_session w settings r a)
  handle_session (add_browser_assistance_event a b) =
      forget (Browsing.add_browser_assistance_event w settings r a b)
  handle_session (return_browser_assistance_control a b) =
      forget (Browsing.return_browser_assistance_control w settings r a b)
  handle_session (close_browser_assistance_session a) =
      forget (Browsing.close_browser_assistance_session w settings r a)
  handle_session (create_voice_session a) = forget (Speech.create_voice_session w settings r a)
  handle_session (get_voice_session a) = forget (Speech.get_voice_session w settings r a)
  handle_session (create_voice_message a b c) =
      forget (Speech.create_voice_message w settings r a b c)
  handle_session (close_voice_session a) = forget (Speech.close_voice_session w settings r a)
  handle_session (runtime_handoff a) = forget (Handoffs.runtime_handoff w settings r a)
  handle_session (runtime_handoff_result a b) =
      forget (Handoffs.runtime_handoff_result w settings r a b)
  handle_session (tui_create_session a) = forget (Endpoints.create_tui_session w settings r a)
  handle_session (tui_create_attach_token a) =
      forget (Endpoints.create_tui_attach_token w settings r a)
  handle_session (tui_list_sessions a) = forget (Endpoints.list_tui_sessions w settings r a)
  handle_session (tui_get_session a) = forget (Endpoints.get_tui_session w settings r a)
  handle_session (tui_detach_session a) = forget (Endpoints.detach_tui_session w settings r a)
  handle_session (tui_close_session a) = forget (Endpoints.close_tui_session w settings r a)
  handle_session (tui_stream a b) = forget (open_stream w a b)
  handle_session (tui_output_ended a) = forget (output_ended w a)
  handle_session (tui_frame a b c) = forget (handle_tui_frame w a b c)

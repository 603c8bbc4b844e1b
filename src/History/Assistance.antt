-- ===== src/History/Assistance.antt =====
-- The endpoints of the operator's sessions keep the history.
use agentic_control_tower.Store.Lasting.{IsWaiting}
use agentic_control_tower.Prelude.{refl, inl, String, Option}
use agentic_control_tower.World.{World}
use agentic_control_tower.Json.{Json}
use agentic_control_tower.Exec.Along.{Along}
use agentic_control_tower.Store.State.{Settings}
use agentic_control_tower.Store.Assistance.{AssistanceSession, create_assistance_request}
use agentic_control_tower.Capabilities.{VerifiedDevice}
use agentic_control_tower.Signing.{HttpRequest}
use agentic_control_tower.Assistance.{
  Subject, update_operator_session_if_exists, announce, require_capability, audit_subject,
  list_operator_session_rows,
}
use agentic_control_tower.Assistance.Tua
use agentic_control_tower.Assistance.Tua.{
  HelpPayload, requested_assistance, get_assistance_request_or_404, get_assistance_session_or_404,
  write_initial_message,
}
use agentic_control_tower.Assistance.Browsing
use agentic_control_tower.Assistance.Browsing.{get_browser_session_or_404}
use agentic_control_tower.Assistance.Speech
use agentic_control_tower.Assistance.Speech.{VoicePayload, get_voice_session_or_404}
use agentic_control_tower.Assistance.Handoffs
use agentic_control_tower.Assistance.Handoffs.{
  HandoffRequest, audit_handoff, tua_result, check_handoff, request_handoff, runtime_handoff,
  runtime_handoff_result,
}
use agentic_control_tower.History.{History}
use agentic_control_tower.History.Primitives.{clock_rules}
use agentic_control_tower.History.Callers.{endpoint_rules}
use agentic_control_tower.History.Sessions.{
  session_methods, create_assistance_request-History, get_assistance_session-History,
  create_assistance_message-History, set_agent-History,
}

requested-IsWaiting :
    (of_node : String) (p : HelpPayload) → IsWaiting (requested_assistance of_node p)
requested-IsWaiting of_node p = inl refl

module _ (w : World) where
  requested-History :
      (of_node : String) (p : HelpPayload)
      → Along (History w) (create_assistance_request w (requested_assistance of_node p))
  requested-History of_node p =
      create_assistance_request-History w (requested_assistance of_node p)
        (requested-IsWaiting of_node p)

  request_or_404-History : (id : String) → Along (History w) (get_assistance_request_or_404 id)
  unfolding get_assistance_request_or_404
  request_or_404-History id = search (clock_rules, session_methods)

  session_or_404-History : (id : String) → Along (History w) (get_assistance_session_or_404 id)
  unfolding get_assistance_session_or_404
  session_or_404-History id = search (clock_rules, session_methods)

  browser_or_404-History : (id : String) → Along (History w) (get_browser_session_or_404 id)
  unfolding get_browser_session_or_404
  browser_or_404-History id = search (clock_rules, session_methods)

  voice_or_404-History : (id : String) → Along (History w) (get_voice_session_or_404 id)
  unfolding get_voice_session_or_404
  voice_or_404-History id = search (clock_rules, session_methods)

  pub mirror-History :
      (id state : String) (owner summary : Option String)
      → Along (History w) (update_operator_session_if_exists w id state owner summary)
  unfolding update_operator_session_if_exists
  mirror-History id state owner summary = search (clock_rules, session_methods)

  announce-History :
      (q : Subject) (event_type : String) (payload : Json)
      → Along (History w) (announce w q event_type payload)
  unfolding announce
  announce-History q event_type payload = search endpoint_rules

  initial_message-History :
      (dev : VerifiedDevice) (message : Option String) (session : AssistanceSession)
      → Along (History w) (write_initial_message w dev message session)
  unfolding write_initial_message
  initial_message-History dev message session =
      search (clock_rules, create_assistance_message-History, get_assistance_session-History) depth
        10

module _ (w : World) (settings : Settings) (r : HttpRequest) where
  pub require_capability-History :
      (dev : VerifiedDevice) (capability : String) (of_node of_agent : Option String)
      → Along (History w) (require_capability w settings r dev capability of_node of_agent)
  unfolding require_capability
  require_capability-History dev capability of_node of_agent = search endpoint_rules

  audit_subject-History :
      (type actor : String) (q : Subject) (event_type : String) (payload : Json)
      → Along (History w) (audit_subject w settings r type actor q event_type payload)
  unfolding audit_subject
  audit_subject-History type actor q event_type payload = search endpoint_rules

ruleset assistance_rules = (
  endpoint_rules, session_methods, requested-History, request_or_404-History,
  session_or_404-History, browser_or_404-History, voice_or_404-History, mirror-History,
  announce-History, initial_message-History, require_capability-History, audit_subject-History,
)

module _ (w : World) (settings : Settings) (r : HttpRequest) where
  pub create_tua_request-History :
      (p : HelpPayload) → Along (History w) (Tua.create_tua_request w settings r p)
  unfolding Tua.create_tua_request
  create_tua_request-History p = search assistance_rules depth 22

  pub list_tua_requests-History :
      (state : Option String) → Along (History w) (Tua.list_tua_requests w settings r state)
  unfolding Tua.list_tua_requests
  list_tua_requests-History state = search assistance_rules depth 22

  pub get_tua_request-History :
      (id : String) → Along (History w) (Tua.get_tua_request w settings r id)
  unfolding Tua.get_tua_request
  get_tua_request-History id = search assistance_rules depth 22

  pub create_tua_session-History :
      (id : String) (message : Option String)
      → Along (History w) (Tua.create_tua_session w settings r id message)
  unfolding Tua.create_tua_session
  create_tua_session-History id message = search assistance_rules depth 22

  pub get_tua_session-History :
      (id : String) → Along (History w) (Tua.get_tua_session w settings r id)
  unfolding Tua.get_tua_session
  get_tua_session-History id = search assistance_rules depth 22

  pub create_tua_message-History :
      (id body : String) → Along (History w) (Tua.create_tua_message w settings r id body)
  unfolding Tua.create_tua_message
  create_tua_message-History id body = search assistance_rules depth 22

  pub return_tua_control-History :
      (id summary : String) → Along (History w) (Tua.return_tua_control w settings r id summary)
  unfolding Tua.return_tua_control
  return_tua_control-History id summary = search assistance_rules depth 22

  pub close_tua_session-History :
      (id : String) → Along (History w) (Tua.close_tua_session w settings r id)
  unfolding Tua.close_tua_session
  close_tua_session-History id = search assistance_rules depth 22

  pub create_browser_assistance_session-History :
      (p : HelpPayload)
      → Along (History w) (Browsing.create_browser_assistance_session w settings r p)
  unfolding Browsing.create_browser_assistance_session
  create_browser_assistance_session-History p = search assistance_rules depth 22

  pub list_browser_assistance_sessions-History :
      (state : Option String)
      → Along (History w) (Browsing.list_browser_assistance_sessions w settings r state)
  unfolding Browsing.list_browser_assistance_sessions
  list_browser_assistance_sessions-History state = search assistance_rules depth 22

  pub get_browser_assistance_session-History :
      (id : String) → Along (History w) (Browsing.get_browser_assistance_session w settings r id)
  unfolding Browsing.get_browser_assistance_session
  get_browser_assistance_session-History id = search assistance_rules depth 22

  pub add_browser_assistance_event-History :
      (id note : String)
      → Along (History w) (Browsing.add_browser_assistance_event w settings r id note)
  unfolding Browsing.add_browser_assistance_event
  add_browser_assistance_event-History id note = search assistance_rules depth 22

  pub return_browser_assistance_control-History :
      (id summary : String)
      → Along (History w) (Browsing.return_browser_assistance_control w settings r id summary)
  unfolding Browsing.return_browser_assistance_control
  return_browser_assistance_control-History id summary = search assistance_rules depth 22

  pub close_browser_assistance_session-History :
      (id : String) → Along (History w) (Browsing.close_browser_assistance_session w settings r id)
  unfolding Browsing.close_browser_assistance_session
  close_browser_assistance_session-History id = search assistance_rules depth 22

  pub create_voice_session-History :
      (p : VoicePayload) → Along (History w) (Speech.create_voice_session w settings r p)
  unfolding Speech.create_voice_session
  create_voice_session-History p = search assistance_rules depth 22

  pub get_voice_session-History :
      (id : String) → Along (History w) (Speech.get_voice_session w settings r id)
  unfolding Speech.get_voice_session
  get_voice_session-History id = search assistance_rules depth 22

  pub create_voice_message-History :
      (id body mode : String)
      → Along (History w) (Speech.create_voice_message w settings r id body mode)
  unfolding Speech.create_voice_message
  create_voice_message-History id body mode = search assistance_rules depth 22

  pub close_voice_session-History :
      (id : String) → Along (History w) (Speech.close_voice_session w settings r id)
  unfolding Speech.close_voice_session
  close_voice_session-History id = search assistance_rules depth 22

  pub list_operator_session_rows-History :
      (type state agent : Option String)
      → Along (History w) (list_operator_session_rows w settings r type state agent)
  unfolding list_operator_session_rows
  list_operator_session_rows-History type state agent = search assistance_rules depth 8

module _ (w : World) where
  tua_result-History : (id : String) → Along (History w) (tua_result id)
  unfolding tua_result
  tua_result-History id = search assistance_rules depth 10

  check_handoff-History : (kind ref : String) → Along (History w) (check_handoff kind ref)
  unfolding check_handoff
  check_handoff-History kind ref = search (assistance_rules, tua_result-History) depth 16

module _ (w : World) (settings : Settings) (id actor : String) where
  audit_handoff-History :
      (by event_type : String) (q : Subject) (payload : Json)
      → Along (History w) (audit_handoff w settings id actor by event_type q payload)
  unfolding audit_handoff
  audit_handoff-History by event_type q payload = search endpoint_rules

  tua_handoff-History :
      (p : HelpPayload) → Along (History w) (Handoffs.create_tua_request w settings id actor p)
  unfolding Handoffs.create_tua_request
  tua_handoff-History p =
      search (assistance_rules, set_agent-History, audit_handoff-History) depth 16

  browser_handoff-History :
      (p : HelpPayload)
      → Along (History w) (Handoffs.create_browser_assistance_session w settings id actor p)
  unfolding Handoffs.create_browser_assistance_session
  browser_handoff-History p =
      search (assistance_rules, set_agent-History, audit_handoff-History) depth 18

  voice_handoff-History :
      (p : VoicePayload) (of_node : Option String) (context : Json)
      → Along (History w) (Handoffs.create_voice_session w settings id actor p of_node context)
  unfolding Handoffs.create_voice_session
  voice_handoff-History p of_node context =
      search (assistance_rules, audit_handoff-History) depth 16

  request_handoff-History :
      (h : HandoffRequest) → Along (History w) (request_handoff w settings id actor h)
  unfolding request_handoff
  request_handoff-History h =
      search (clock_rules, tua_handoff-History, browser_handoff-History, voice_handoff-History)
        depth 16

module _ (w : World) (settings : Settings) (r : HttpRequest) where
  pub runtime_handoff-History :
      (h : HandoffRequest) → Along (History w) (runtime_handoff w settings r h)
  unfolding runtime_handoff
  runtime_handoff-History h = search (endpoint_rules, request_handoff-History) depth 10

  pub runtime_handoff_result-History :
      (kind ref : String) → Along (History w) (runtime_handoff_result w settings r kind ref)
  unfolding runtime_handoff_result
  runtime_handoff_result-History kind ref = search (endpoint_rules, check_handoff-History) depth 10

-- ===== src/Assistance/Browsing.antt =====
-- The endpoints of browser assistance sessions in app.py.
use Prim.Native.String.{count}
use agentic_control_tower.Prelude.{String, Option, none, some, List, [], ◌∷◌, or_else}
use agentic_control_tower.World.{World}
use agentic_control_tower.Json.{dict, str, num}
use agentic_control_tower.Exec.{pure, http, on_key_error, ◌>>=◌, ◌>>◌}
use agentic_control_tower.Store.SessionRows.{BrowserSessionRow}
use agentic_control_tower.Store.State.{Action, Settings}
use agentic_control_tower.Store.Operators.{create_operator_session}
use agentic_control_tower.Store.Browser
use agentic_control_tower.Store.Browser.{
  add_browser_assistance_note, update_browser_assistance_state,
}
use agentic_control_tower.Signing.{HttpRequest, verify_signed_request}
use agentic_control_tower.LocalBinding.{verify_hermes_local_request}
use agentic_control_tower.Assistance.{
  Subject, require_capability, audit_subject, announce, update_operator_session_if_exists,
  mission_id_from_context,
}
use agentic_control_tower.Assistance.Tua.{HelpPayload}

abbrev pub of_browser : BrowserSessionRow → Subject
of_browser q = record {
  node_id = q.node_id;
  agent_id = q.agent_id;
  session_id = some q.session_id;
  voice_session_id = none;
}

abbrev pub requested_browser : String → HelpPayload → BrowserSessionRow
requested_browser node_id p = record {
  browser_session_id = "";
  node_id = node_id;
  agent_id = p.agent_id;
  session_id = p.session_id;
  approval_id = p.approval_id;
  reason = p.reason;
  state = "requested";
  context_redacted = p.context_redacted;
  user_action_notes = [];
  return_summary = none;
  created_at = 0;
  updated_at = 0;
  returned_at = none;
  closed_at = none;
}

unfoldable pub get_browser_session_or_404 : String → Action BrowserSessionRow
get_browser_session_or_404 session_id =
    on_key_error (Browser.get_browser_assistance_session session_id)
      (http 404 "browser assistance session not found")

module _ (w : World) (settings : Settings) (r : HttpRequest) where
  unfoldable pub create_browser_assistance_session : HelpPayload → Action BrowserSessionRow
  create_browser_assistance_session p = do
    verify_hermes_local_request w settings r
    let node_id = or_else p.node_id settings.node_id
    let subject : Subject = record {
      node_id = node_id;
      agent_id = p.agent_id;
      session_id = some p.session_id;
      voice_session_id = none;
    }
    q ← Browser.create_browser_assistance_session w (requested_browser node_id p)
    audit_subject w settings r "hermes" p.agent_id subject "browser_assistance_requested"
        (dict (("browser_session_id", str q.browser_session_id) ∷ []))
    create_operator_session w (record {
      session_id = q.browser_session_id;
      session_type = "browser_assistance";
      agent_id = q.agent_id;
      mission_id = mission_id_from_context p.context_redacted;
      state = q.state;
      owner_device_id = none;
      capability_requirements = "browser_assistance" ∷ [];
      context = p.context_redacted;
    })
    announce w subject "browser_assistance.requested"
        (dict (("browser_session_id", str q.browser_session_id) ∷ []))
    pure q

  unfoldable pub list_browser_assistance_sessions : Option String → Action (List BrowserSessionRow)
  list_browser_assistance_sessions state = do
    verify_signed_request w settings r
    Browser.list_browser_assistance_sessions state

  unfoldable pub get_browser_assistance_session : String → Action BrowserSessionRow
  get_browser_assistance_session session_id = do
    verify_signed_request w settings r
    get_browser_session_or_404 session_id

  unfoldable pub add_browser_assistance_event : String → String → Action BrowserSessionRow
  add_browser_assistance_event session_id note = do
    dev ← verify_signed_request w settings r
    q ← get_browser_session_or_404 session_id
    require_capability w settings r dev "browser_assistance" (some q.node_id) (some q.agent_id)
    updated ← add_browser_assistance_note w session_id note
    audit_subject w settings r "device" dev.device_id (of_browser q)
        "browser_assistance_event_recorded" (dict (("note_length", num (count note)) ∷ []))
    announce w (of_browser q) "browser_assistance.event"
        (dict (("browser_session_id", str session_id) ∷ []))
    update_operator_session_if_exists w session_id "user_controlling" (some dev.device_id) none
    pure updated

  unfoldable pub return_browser_assistance_control : String → String → Action BrowserSessionRow
  return_browser_assistance_control session_id summary = do
    dev ← verify_signed_request w settings r
    q ← get_browser_session_or_404 session_id
    require_capability w settings r dev "browser_assistance" (some q.node_id) (some q.agent_id)
    updated ← update_browser_assistance_state w session_id "returned_to_agent" (some summary)
    audit_subject w settings r "device" dev.device_id (of_browser q)
        "browser_assistance_returned_to_agent" (dict (("summary_length", num (count summary)) ∷ []))
    announce w (of_browser q) "browser_assistance.returned_to_agent"
        (dict (("browser_session_id", str session_id) ∷ []))
    update_operator_session_if_exists w session_id "returned_to_agent" (some dev.device_id)
        (some summary)
    pure updated

  unfoldable pub close_browser_assistance_session : String → Action BrowserSessionRow
  close_browser_assistance_session session_id = do
    dev ← verify_signed_request w settings r
    q ← get_browser_session_or_404 session_id
    require_capability w settings r dev "browser_assistance" (some q.node_id) (some q.agent_id)
    updated ← update_browser_assistance_state w session_id "closed" none
    audit_subject w settings r "device" dev.device_id (of_browser q) "browser_assistance_closed"
        (dict [])
    announce w (of_browser q) "browser_assistance.closed"
        (dict (("browser_session_id", str session_id) ∷ []))
    update_operator_session_if_exists w session_id "closed" (some dev.device_id) none
    pure updated

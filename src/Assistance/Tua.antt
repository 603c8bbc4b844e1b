-- ===== src/Assistance/Tua.antt =====
-- The endpoints of assistance (TUA) requests and sessions in app.py.
use Prim.Native.String.{count}
use agentic_control_tower.Prelude.{
  String, Option, none, some, List, [], ◌∷◌, or_else, truthy, if◌then◌else◌,
}
use agentic_control_tower.World.{World}
use agentic_control_tower.Json.{Json, dict, str, num}
use agentic_control_tower.Exec.{pure, http, on_key_error, on_option, ◌>>=◌, ◌>>◌}
use agentic_control_tower.Store.SessionRows.{
  AssistanceRequestRow, AssistanceSessionRow, AssistanceMessageRow,
}
use agentic_control_tower.Store.State.{Action, Settings}
use agentic_control_tower.Store.Operators.{create_operator_session}
use agentic_control_tower.Store.Assistance.{
  AssistanceSession, create_assistance_request, get_assistance_request, list_assistance_requests,
  create_assistance_session, get_assistance_session, update_assistance_session_state,
  create_assistance_message,
}
use agentic_control_tower.Signing.{HttpRequest, verify_signed_request}
use agentic_control_tower.LocalBinding.{verify_hermes_local_request}
use agentic_control_tower.Capabilities.{VerifiedDevice}
use agentic_control_tower.Assistance.{
  Subject, require_capability, audit_subject, announce, update_operator_session_if_exists,
  mission_id_from_context,
}

-- CreateAssistanceRequest and CreateBrowserAssistanceSessionRequest, which have the same fields.
pub record HelpPayload : Type 0 where
  pub agent_id : String
  pub session_id : String
  pub reason : String
  pub node_id : Option String
  pub approval_id : Option String
  pub context_redacted : Json

abbrev pub of_session : AssistanceSessionRow → Subject
of_session q = record {
  node_id = q.node_id;
  agent_id = q.agent_id;
  session_id = some q.session_id;
  voice_session_id = none;
}

abbrev pub requested_assistance : String → HelpPayload → AssistanceRequestRow
requested_assistance node_id p = record {
  request_id = "";
  node_id = node_id;
  agent_id = p.agent_id;
  session_id = p.session_id;
  approval_id = p.approval_id;
  reason = p.reason;
  state = "requested";
  context_redacted = p.context_redacted;
  created_at = 0;
  updated_at = 0;
}

unfoldable pub get_assistance_request_or_404 : String → Action AssistanceRequestRow
get_assistance_request_or_404 request_id =
    on_key_error (get_assistance_request request_id) (http 404 "TUA request not found")

unfoldable pub get_assistance_session_or_404 : String → Action AssistanceSession
get_assistance_session_or_404 session_id =
    on_key_error (get_assistance_session session_id) (http 404 "TUA session not found")

module _ (w : World) where
  -- `if payload.initial_message:` write it and read the session again.
  unfoldable pub write_initial_message :
      VerifiedDevice → Option String → AssistanceSession → Action AssistanceSession
  write_initial_message dev message session =
      on_option (if truthy message then message else none) (pure session) (λ body. do
        create_assistance_message w session.row.assistance_session_id "user" dev.device_id body
        get_assistance_session session.row.assistance_session_id)

module _ (w : World) (settings : Settings) (r : HttpRequest) where
  unfoldable pub create_tua_request : HelpPayload → Action AssistanceRequestRow
  create_tua_request p = do
    verify_hermes_local_request w settings r
    let node_id = or_else p.node_id settings.node_id
    let subject : Subject = record {
      node_id = node_id;
      agent_id = p.agent_id;
      session_id = some p.session_id;
      voice_session_id = none;
    }
    q ← create_assistance_request w (requested_assistance node_id p)
    audit_subject w settings r "hermes" p.agent_id subject "tua_request_created"
        (dict (("request_id", str q.request_id) ∷ []))
    announce w subject "tua.requested" (dict (("request_id", str q.request_id) ∷ []))
    pure q

  unfoldable pub list_tua_requests : Option String → Action (List AssistanceRequestRow)
  list_tua_requests state = do verify_signed_request w settings r; list_assistance_requests state

  unfoldable pub get_tua_request : String → Action AssistanceRequestRow
  get_tua_request request_id = do
    verify_signed_request w settings r
    get_assistance_request_or_404 request_id

  unfoldable pub create_tua_session : String → Option String → Action AssistanceSession
  create_tua_session request_id initial_message = do
    dev ← verify_signed_request w settings r
    q ← get_assistance_request_or_404 request_id
    require_capability w settings r dev "tua" (some q.node_id) (some q.agent_id)
    created ← create_assistance_session w (record {
      assistance_session_id = "";
      request_id = request_id;
      node_id = q.node_id;
      agent_id = q.agent_id;
      session_id = q.session_id;
      state = "active";
      created_by_device_id = dev.device_id;
      return_summary = none;
      created_at = 0;
      updated_at = 0;
      returned_at = none;
      closed_at = none;
    })
    session ← write_initial_message w dev initial_message created
    let row = session.row
    audit_subject w settings r "device" dev.device_id (of_session row) "tua_session_created"
        (dict (("assistance_session_id", str row.assistance_session_id) ∷ []))
    create_operator_session w (record {
      session_id = row.assistance_session_id;
      session_type = "tua";
      agent_id = row.agent_id;
      mission_id = mission_id_from_context q.context_redacted;
      state = row.state;
      owner_device_id = some dev.device_id;
      capability_requirements = "tua" ∷ [];
      context = q.context_redacted;
    })
    announce w (of_session row) "tua.session.created"
        (dict (("assistance_session_id", str row.assistance_session_id) ∷ []))
    pure session

  unfoldable pub get_tua_session : String → Action AssistanceSession
  get_tua_session session_id = do
    verify_signed_request w settings r
    get_assistance_session_or_404 session_id

  unfoldable pub create_tua_message : String → String → Action AssistanceMessageRow
  create_tua_message session_id body = do
    dev ← verify_signed_request w settings r
    session ← get_assistance_session_or_404 session_id
    let row = session.row
    require_capability w settings r dev "tua" (some row.node_id) (some row.agent_id)
    message ← create_assistance_message w session_id "user" dev.device_id body
    audit_subject w settings r "device" dev.device_id (of_session row) "tua_message_created"
        (dict (("message_id", str message.message_id) ∷ ("body_length", num (count body)) ∷ []))
    announce w (of_session row) "tua.message.created" (
        dict
          (("assistance_session_id", str session_id) ∷ ("message_id", str message.message_id) ∷ []))
    pure message

  unfoldable pub return_tua_control : String → String → Action AssistanceSession
  return_tua_control session_id summary = do
    dev ← verify_signed_request w settings r
    session ← get_assistance_session_or_404 session_id
    let row = session.row
    require_capability w settings r dev "tua" (some row.node_id) (some row.agent_id)
    updated ← update_assistance_session_state w session_id "returned_to_agent" (some summary)
    audit_subject w settings r "device" dev.device_id (of_session row) "tua_returned_to_agent"
        (dict (("summary_length", num (count summary)) ∷ []))
    announce w (of_session row) "tua.returned_to_agent"
        (dict (("assistance_session_id", str session_id) ∷ []))
    update_operator_session_if_exists w session_id "returned_to_agent" (some dev.device_id)
        (some summary)
    pure updated

  unfoldable pub close_tua_session : String → Action AssistanceSession
  close_tua_session session_id = do
    dev ← verify_signed_request w settings r
    session ← get_assistance_session_or_404 session_id
    let row = session.row
    require_capability w settings r dev "tua" (some row.node_id) (some row.agent_id)
    updated ← update_assistance_session_state w session_id "closed" none
    audit_subject w settings r "device" dev.device_id (of_session row) "tua_session_closed"
        (dict [])
    announce w (of_session row) "tua.closed" (dict (("assistance_session_id", str session_id) ∷ []))
    update_operator_session_if_exists w session_id "closed" (some dev.device_id) none
    pure updated

-- ===== src/Assistance/Handoffs.antt =====
-- The handoffs of HermesRuntimeAdapter in runtime_adapter.py: a runtime asks for an operator's
-- guidance, for a browser review or for a voice prompt, and polls the result. The endpoints of app.py
-- that call them return the adapter's results.
use agentic_control_tower.Prelude.{
  String, true, Option, none, some, List, [], ◌∷◌, map, or_else, ◌==◌, if◌then◌else◌,
}
use Prim.Native.String.{◌++◌ as concat}
use agentic_control_tower.World.{World}
use agentic_control_tower.Json.{Json, dict, str, bool}
use agentic_control_tower.Exec.{pure, raise, http, ◌>>=◌, ◌>>◌}
use agentic_control_tower.Store.SessionRows.{
  AssistanceRequestRow, AssistanceMessageRow, BrowserSessionRow, VoiceMessageRow,
}
use agentic_control_tower.Store.State.{Action, Settings}
use agentic_control_tower.Store.Audit.{append_audit_event}
use agentic_control_tower.Store.Operators.{create_operator_session}
use agentic_control_tower.Store.Assistance.{
  AssistanceSession, create_assistance_request, list_assistance_sessions,
}
use agentic_control_tower.Store.Browser
use agentic_control_tower.Store.Voice
use agentic_control_tower.Store.Voice.{VoiceSession}
use agentic_control_tower.Capabilities.{require_runtime_capability}
use agentic_control_tower.Signing.{HttpRequest, request_id}
use agentic_control_tower.LocalBinding.{verify_hermes_local_request}
use agentic_control_tower.Runtime.{set_agent_runtime_state, first?}
use agentic_control_tower.Assistance.{Subject, announce, mission_id_from_context, refs_of}
use agentic_control_tower.Assistance.Tua.{
  HelpPayload, requested_assistance, get_assistance_request_or_404,
}
use agentic_control_tower.Assistance.Browsing.{requested_browser, get_browser_session_or_404}
use agentic_control_tower.Assistance.Speech.{VoicePayload, active_voice, get_voice_session_or_404}

-- RuntimeTuaResult
pub record TuaResult : Type 0 where
  pub request : AssistanceRequestRow
  pub sessions : List AssistanceSession
  pub latest_session : Option AssistanceSession
  pub return_summary : Option String

-- RuntimeHandoffRequest
pub record HandoffRequest : Type 0 where
  pub handoff_kind : String
  pub actor_ref : String
  pub work_ref : Option String
  pub reason : String
  pub node_ref : Option String
  pub clearance_ref : Option String
  pub context_redacted : Json
  pub mode : Option String

-- RuntimeHandoffHandle
pub record HandoffHandle : Type 0 where
  pub handoff_ref : String
  pub state : String

pub data HandoffMessage : Type 0 where
  assistance_message : AssistanceMessageRow → HandoffMessage
  voice_message : VoiceMessageRow → HandoffMessage

-- RuntimeHandoffResult
pub record HandoffResult : Type 0 where
  pub handoff_ref : String
  pub state : String
  pub return_summary : Option String
  pub messages : List HandoffMessage

abbrev pub subject_of : String → String → Option String → Option String → Subject
subject_of node_id agent_id session_id voice_session_id = record {
  node_id = node_id;
  agent_id = agent_id;
  session_id = session_id;
  voice_session_id = voice_session_id;
}

abbrev pub session_messages : Option AssistanceSession → List HandoffMessage
session_messages none = []
session_messages (some session) = map assistance_message session.messages

abbrev pub session_summary : Option AssistanceSession → Option String
session_summary none = none
session_summary (some session) = session.row.return_summary

-- `latest` is the first of the sessions, which are listed by their last update, latest first.
unfoldable pub tua_result : String → Action TuaResult
tua_result request_id = do
  request ← get_assistance_request_or_404 request_id
  sessions ← list_assistance_sessions (some request_id) none
  pure (record {
    request = request;
    sessions = sessions;
    latest_session = first? sessions;
    return_summary = session_summary (first? sessions);
  })

unfoldable pub check_handoff : String → String → Action HandoffResult
check_handoff handoff_kind handoff_ref =
    if handoff_kind == "operator_guidance"
    then (do
      result ← tua_result handoff_ref
      pure (record {
        handoff_ref = result.request.request_id;
        state = result.request.state;
        return_summary = result.return_summary;
        messages = session_messages result.latest_session;
      }))
    else if handoff_kind == "browser_review"
    then (do
      q ← get_browser_session_or_404 handoff_ref
      pure (record {
        handoff_ref = q.browser_session_id;
        state = q.state;
        return_summary = q.return_summary;
        messages = [];
      }))
    else if handoff_kind == "voice_prompt"
    then (do
      session ← get_voice_session_or_404 handoff_ref
      pure (record {
        handoff_ref = session.row.voice_session_id;
        state = session.row.state;
        return_summary = none;
        messages = map voice_message session.messages;
      }))
    else raise (http 422 "unknown handoff kind")

module _ (w : World) (settings : Settings) (given_id actor_id : String) where
  unfoldable pub audit_handoff : String → String → Subject → Json → Action (Unit {0})
  audit_handoff actor event_type q payload = do
    append_audit_event w event_type "hermes" actor q.node_id given_id payload (refs_of q)
    pure tt

  unfoldable pub create_tua_request : HelpPayload → Action AssistanceRequestRow
  create_tua_request p = do
    let node_id = or_else p.node_id settings.node_id
    let subject = subject_of node_id p.agent_id (some p.session_id) none
    require_runtime_capability w settings "tua" given_id actor_id (some node_id) (some p.agent_id)
    q ← create_assistance_request w (requested_assistance node_id p)
    set_agent_runtime_state w node_id p.agent_id (some p.session_id) "waiting_assistance" none
    audit_handoff p.agent_id "tua_request_created" subject
        (dict (("request_id", str q.request_id) ∷ []))
    announce w subject "tua.requested" (dict (("request_id", str q.request_id) ∷ []))
    pure q

  unfoldable pub create_browser_assistance_session : HelpPayload → Action BrowserSessionRow
  create_browser_assistance_session p = do
    let node_id = or_else p.node_id settings.node_id
    let subject = subject_of node_id p.agent_id (some p.session_id) none
    require_runtime_capability w settings "browser_assistance" given_id actor_id (some node_id)
        (some p.agent_id)
    q ← Browser.create_browser_assistance_session w (requested_browser node_id p)
    create_operator_session w (record {
      session_id = q.browser_session_id;
      session_type = "browser_assistance";
      agent_id = p.agent_id;
      mission_id = mission_id_from_context p.context_redacted;
      state = "requested";
      owner_device_id = none;
      capability_requirements = "browser_assistance" ∷ [];
      context = p.context_redacted;
    })
    set_agent_runtime_state w node_id p.agent_id (some p.session_id) "waiting_assistance" none
    audit_handoff p.agent_id "browser_assistance_requested" subject
        (dict (("browser_session_id", str q.browser_session_id) ∷ []))
    announce w subject "browser_assistance.requested"
        (dict (("browser_session_id", str q.browser_session_id) ∷ []))
    pure q

  -- The context comes beside the other fields of RuntimeCreateVoiceSessionRequest.
  unfoldable pub create_voice_session : VoicePayload → Option String → Json → Action VoiceSession
  create_voice_session p node_ref context_redacted = do
    let node_id = or_else node_ref settings.node_id
    require_runtime_capability w settings "voice" given_id actor_id (some node_id) (some p.agent_id)
    session ← Voice.create_voice_session w (active_voice node_id (concat "runtime:" actor_id) p)
    let v = session.row
    let subject = subject_of node_id p.agent_id p.session_id (some v.voice_session_id)
    create_operator_session w (record {
      session_id = v.voice_session_id;
      session_type = "voice";
      agent_id = p.agent_id;
      mission_id = mission_id_from_context context_redacted;
      state = "active";
      owner_device_id = none;
      capability_requirements = "voice" ∷ [];
      context = context_redacted;
    })
    audit_handoff actor_id "voice_session_created" subject
        (dict (("mode", str p.mode) ∷ ("runtime_created", bool true) ∷ []))
    announce w subject "voice.session.created"
        (dict (("voice_session_id", str v.voice_session_id) ∷ ("mode", str p.mode) ∷ []))
    pure session

  -- The first two kinds name a session; the voice prompt may do without.
  unfoldable pub request_handoff : HandoffRequest → Action HandoffHandle
  request_handoff h =
      if h.handoff_kind == "operator_guidance"
      then (do
        q ← create_tua_request (record {
          agent_id = h.actor_ref;
          session_id = or_else h.work_ref "";
          reason = h.reason;
          node_id = h.node_ref;
          approval_id = h.clearance_ref;
          context_redacted = h.context_redacted;
        })
        pure (record { handoff_ref = q.request_id; state = q.state }))
      else if h.handoff_kind == "browser_review"
      then (do
        q ← create_browser_assistance_session (record {
          agent_id = h.actor_ref;
          session_id = or_else h.work_ref "";
          reason = h.reason;
          node_id = h.node_ref;
          approval_id = h.clearance_ref;
          context_redacted = h.context_redacted;
        })
        pure (record { handoff_ref = q.browser_session_id; state = q.state }))
      else if h.handoff_kind == "voice_prompt"
      then (do
        session ←
            create_voice_session
              (record {
                agent_id = h.actor_ref;
                session_id = h.work_ref;
                mode = or_else h.mode "text_fallback";
              })
              h.node_ref h.context_redacted
        pure (record { handoff_ref = session.row.voice_session_id; state = session.row.state }))
      else raise (http 422 "unknown handoff kind")

module _ (w : World) (settings : Settings) (r : HttpRequest) where
  -- `runtime_tua_request`, `runtime_browser_assistance_session` and `runtime_voice_session` of app.py
  -- fill in the kind.
  unfoldable pub runtime_handoff : HandoffRequest → Action HandoffHandle
  runtime_handoff h = do
    verify_hermes_local_request w settings r
    id ← request_id w r
    request_handoff w settings id h.actor_ref h

  -- `runtime_tua_result`, `runtime_browser_assistance_result` and `runtime_voice_result`
  unfoldable pub runtime_handoff_result : String → String → Action HandoffResult
  runtime_handoff_result handoff_kind handoff_ref = do
    verify_hermes_local_request w settings r
    check_handoff handoff_kind handoff_ref

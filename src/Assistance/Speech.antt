-- ===== src/Assistance/Speech.antt =====
-- The endpoints of voice sessions in app.py.
use Prim.Native.String.{count}
use agentic_control_tower.Prelude.{String, Option, none, some, [], ◌∷◌}
use agentic_control_tower.World.{World}
use agentic_control_tower.Json.{dict, str, num, opt}
use agentic_control_tower.Exec.{pure, http, on_key_error, ◌>>=◌, ◌>>◌}
use agentic_control_tower.Store.SessionRows.{VoiceSessionRow, VoiceMessageRow}
use agentic_control_tower.Store.State.{Action, Settings}
use agentic_control_tower.Store.Operators.{create_operator_session}
use agentic_control_tower.Store.Voice
use agentic_control_tower.Store.Voice.{VoiceSession, update_voice_session_state}
use agentic_control_tower.Signing.{HttpRequest, verify_signed_request}
use agentic_control_tower.Assistance.{
  Subject, require_capability, audit_subject, announce, update_operator_session_if_exists,
}

-- CreateVoiceSessionRequest
pub record VoicePayload : Type 0 where
  pub agent_id : String
  pub session_id : Option String
  pub mode : String

abbrev pub of_voice : VoiceSessionRow → Option String → Subject
of_voice v voice_session_id = record {
  node_id = v.node_id;
  agent_id = v.agent_id;
  session_id = v.session_id;
  voice_session_id = voice_session_id;
}

abbrev pub active_voice : String → String → VoicePayload → VoiceSessionRow
active_voice node_id created_by p = record {
  voice_session_id = "";
  node_id = node_id;
  agent_id = p.agent_id;
  session_id = p.session_id;
  created_by_device_id = created_by;
  mode = p.mode;
  state = "active";
  created_at = 0;
  closed_at = none;
}

unfoldable pub get_voice_session_or_404 : String → Action VoiceSession
get_voice_session_or_404 session_id =
    on_key_error (Voice.get_voice_session session_id) (http 404 "voice session not found")

module _ (w : World) (settings : Settings) (r : HttpRequest) where
  unfoldable pub create_voice_session : VoicePayload → Action VoiceSession
  create_voice_session p = do
    dev ← verify_signed_request w settings r
    require_capability w settings r dev "voice" none (some p.agent_id)
    session ← Voice.create_voice_session w (active_voice settings.node_id dev.device_id p)
    let v = session.row
    let subject = of_voice v (some v.voice_session_id)
    audit_subject w settings r "device" dev.device_id subject "voice_session_created"
        (dict (("mode", str p.mode) ∷ []))
    create_operator_session w (record {
      session_id = v.voice_session_id;
      session_type = "voice";
      agent_id = v.agent_id;
      mission_id = none;
      state = v.state;
      owner_device_id = some dev.device_id;
      capability_requirements = "voice" ∷ [];
      context = dict (("hermes_session_id", opt p.session_id) ∷ ("mode", str p.mode) ∷ []);
    })
    announce w subject "voice.session.created"
        (dict (("voice_session_id", str v.voice_session_id) ∷ ("mode", str p.mode) ∷ []))
    pure session

  unfoldable pub get_voice_session : String → Action VoiceSession
  get_voice_session session_id = do
    verify_signed_request w settings r
    get_voice_session_or_404 session_id

  unfoldable pub create_voice_message : String → String → String → Action VoiceMessageRow
  create_voice_message session_id body input_mode = do
    dev ← verify_signed_request w settings r
    session ← get_voice_session_or_404 session_id
    let v = session.row
    let subject = of_voice v (some session_id)
    require_capability w settings r dev "voice" (some v.node_id) (some v.agent_id)
    message ← Voice.create_voice_message w session_id "user" body input_mode
    audit_subject w settings r "device" dev.device_id subject "voice_message_created"
        (dict (("input_mode", str input_mode) ∷ ("body_length", num (count body)) ∷ []))
    announce w subject "voice.message.created" (
        dict (
          ("voice_session_id", str session_id)
          ∷ ("voice_message_id", str message.voice_message_id)
          ∷ []))
    pure message

  unfoldable pub close_voice_session : String → Action VoiceSession
  close_voice_session session_id = do
    dev ← verify_signed_request w settings r
    session ← get_voice_session_or_404 session_id
    let v = session.row
    let subject = of_voice v (some session_id)
    require_capability w settings r dev "voice" (some v.node_id) (some v.agent_id)
    updated ← update_voice_session_state w session_id "closed"
    audit_subject w settings r "device" dev.device_id subject "voice_session_closed" (dict [])
    announce w subject "voice.session.closed" (dict (("voice_session_id", str session_id) ∷ []))
    update_operator_session_if_exists w session_id "closed" (some dev.device_id) none
    pure updated

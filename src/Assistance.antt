-- ===== src/Assistance.antt =====
-- The sessions in which an operator helps an agent: what the endpoints of app.py share, and the
-- operator sessions that mirror them. The children are the endpoints of assistance (TUA) requests, of
-- browser assistance and of voice sessions, and the handoffs of runtime_adapter.py.
pub mod Tua
pub mod Browsing
pub mod Speech
pub mod Handoffs
pub mod Mirror
pub mod Control
pub mod Changes
use agentic_control_tower.Prelude.{String, Option, none, some, List, [], ◌∷◌, ◌==◌, if◌then◌else◌}
use agentic_control_tower.World.{World}
use agentic_control_tower.Json.{Json, obj, Fields, end, field, str}
use agentic_control_tower.Exec.{pure, suppress_key_error, ◌>>=◌, ◌>>◌}
use agentic_control_tower.Store.Rows.{Refs}
use agentic_control_tower.Store.SessionRows.{OperatorSessionRow}
use agentic_control_tower.Store.State.{Action, Settings}
use agentic_control_tower.Store.Audit.{append_audit_event, no_refs}
use agentic_control_tower.Store.Events.{create_event}
use agentic_control_tower.Store.Operators.{list_operator_sessions, update_operator_session_state}
use agentic_control_tower.Capabilities.{VerifiedDevice, require_device_capability}
use agentic_control_tower.Signing.{HttpRequest, request_id, verify_signed_request}

-- What the audit event and the envelope of a session say of it.
pub record Subject : Type 0 where
  pub node_id : String
  pub agent_id : String
  pub session_id : Option String
  pub voice_session_id : Option String

abbrev pub refs_of : Subject → Refs
refs_of q = record no_refs {
  agent_id = some q.agent_id;
  session_id = q.session_id;
  voice_session_id = q.voice_session_id;
}

-- `dict.get`
abbrev pub get_field : String → Fields → Option Json
get_field k end = none
get_field k (field k' v rest) = if k' == k then some v else get_field k rest

-- `value if isinstance(value, str) and value else None`
abbrev pub non_empty_text : Option Json → Option String
non_empty_text (some (Json.str s)) = if s == "" then none else some s
non_empty_text _ = none

unfoldable pub mission_id_from_context : Json → Option String
mission_id_from_context (Json.obj fields) = non_empty_text (get_field "mission_id" fields)
mission_id_from_context _ = none

module _ (w : World) where
  unfoldable pub update_operator_session_if_exists :
      String → String → Option String → Option String → Action (Unit {0})
  update_operator_session_if_exists session_id state owner_device_id return_summary =
      suppress_key_error
        (update_operator_session_state w session_id state owner_device_id return_summary)

  unfoldable pub announce : Subject → String → Json → Action (Unit {0})
  announce q event_type payload = do
    create_event w q.node_id event_type payload (some q.agent_id) q.session_id
    pure tt

module _ (w : World) (settings : Settings) (r : HttpRequest) where
  -- `require_device_capability(…, request_id=_request_id(request), …)`
  unfoldable pub require_capability :
      VerifiedDevice → String → Option String → Option String → Action (Unit {0})
  require_capability dev capability node_id agent_id = do
    id ← request_id w r
    require_device_capability w settings dev capability id node_id agent_id

  -- `append_audit_event(…, request_id=_request_id(request), …)`
  unfoldable pub audit_subject : String → String → Subject → String → Json → Action (Unit {0})
  audit_subject actor_type actor_id q event_type payload = do
    id ← request_id w r
    append_audit_event w event_type actor_type actor_id q.node_id id payload (refs_of q)
    pure tt

  unfoldable pub list_operator_session_rows :
      Option String → Option String → Option String → Action (List OperatorSessionRow)
  list_operator_session_rows session_type state agent_id = do
    verify_signed_request w settings r
    list_operator_sessions session_type state agent_id

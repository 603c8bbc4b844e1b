-- ===== src/Runtime/Context.antt =====
-- `register_context` of runtime_adapter.py and its endpoint: a runtime says which agent it runs, in which
-- session and on which mission.
use agentic_control_tower.Prelude.{
  String, Option, none, some, List, [], ◌∷◌, ◌==◌, or_else, contains, if◌then◌else◌,
}
use agentic_control_tower.World.{World}
use agentic_control_tower.Json.{dict, str, opt}
use agentic_control_tower.Exec.{pure, gets, ◌>>=◌, ◌>>◌}
use agentic_control_tower.Store.Rows.{Capability, AgentRow}
use agentic_control_tower.Store.SessionRows.{SessionRow, MissionRow}
use agentic_control_tower.Store.State.{Action, Settings}
use agentic_control_tower.Store.Audit.{append_audit_event, no_refs}
use agentic_control_tower.Store.Events.{create_event}
use agentic_control_tower.Store.Agents.{agent_at, upsert_agent}
use agentic_control_tower.Store.Missions.{upsert_session, upsert_mission}
use agentic_control_tower.Signing.{HttpRequest, request_id}
use agentic_control_tower.LocalBinding.{verify_hermes_local_request}
use agentic_control_tower.Runtime.{either_text}

-- RuntimeContextRequest
pub record ContextPayload : Type 0 where
  pub agent_id : String
  pub display_name : Option String
  pub agent_status : String
  pub mission_id : Option String
  pub mission_state : String
  pub session_id : Option String
  pub mission_title : Option String
  pub mission_summary : Option String
  pub current_tool : Option String
  pub current_target : Option String
  pub node_id : Option String
  pub capabilities : List Capability

-- RuntimeContextResponse
pub record ContextResponse : Type 0 where
  pub agent : AgentRow
  pub mission : Option MissionRow
  pub session : Option SessionRow

abbrev pub session_status_from_mission : String → String
session_status_from_mission mission_state =
    if contains mission_state ("completed" ∷ "cancelled" ∷ "failed" ∷ [])
    then mission_state
    else if contains mission_state
        ("waiting_approval" ∷ "waiting_assistance" ∷ "user_controlling" ∷ [])
    then "blocked"
    else "active"

abbrev pub given_capabilities : List Capability → List Capability → List Capability
given_capabilities [] old = old
given_capabilities (c ∷ rest) old = c ∷ rest

-- The agent that is written, from the payload and the agent that `_existing_agent` finds.
unfoldable pub agent_in_context : String → ContextPayload → Option AgentRow → AgentRow
agent_in_context node_id p none = record {
  agent_id = p.agent_id;
  node_id = node_id;
  display_name = or_else p.display_name p.agent_id;
  agent_kind = some "primary";
  status = p.agent_status;
  active_session_id = p.session_id;
  current_tool = p.current_tool;
  current_target = p.current_target;
  tags = [];
  capabilities = p.capabilities;
  last_seen_at = 0;
}
agent_in_context node_id p (some a) = record {
  agent_id = p.agent_id;
  node_id = node_id;
  display_name = or_else p.display_name (or_else (some a.display_name) p.agent_id);
  agent_kind = either_text a.agent_kind (some "primary");
  status = p.agent_status;
  active_session_id = p.session_id;
  current_tool = p.current_tool;
  current_target = p.current_target;
  tags = a.tags;
  capabilities = given_capabilities p.capabilities a.capabilities;
  last_seen_at = 0;
}

abbrev pub session_in_context : String → String → ContextPayload → SessionRow
session_in_context node_id session_id p = record {
  session_id = session_id;
  node_id = node_id;
  agent_id = p.agent_id;
  conversation_id = none;
  status = session_status_from_mission p.mission_state;
  title = p.mission_title;
  summary = p.mission_summary;
  current_plan = none;
  current_tool = p.current_tool;
  current_target = p.current_target;
  started_at = 0;
  updated_at = none;
  ended_at = none;
}

abbrev pub mission_in_context : String → String → ContextPayload → MissionRow
mission_in_context node_id mission_id p = record {
  mission_id = mission_id;
  node_id = node_id;
  agent_id = p.agent_id;
  session_id = p.session_id;
  state = p.mission_state;
  title = p.mission_title;
  summary = p.mission_summary;
  created_at = 0;
  updated_at = 0;
}

module _ (w : World) (node_id : String) (p : ContextPayload) where
  -- `if payload.session_id:`
  unfoldable pub register_session : Option String → Action (Option SessionRow)
  register_session none = pure none
  register_session (some session_id) = if session_id == "" then pure none else (do
    session ← upsert_session w (session_in_context node_id session_id p)
    pure (some session))

  -- `if payload.mission_id:`
  unfoldable pub register_mission : Option String → Action (Option MissionRow)
  register_mission none = pure none
  register_mission (some mission_id) = if mission_id == "" then pure none else (do
    mission ← upsert_mission w (mission_in_context node_id mission_id p)
    create_event w node_id "mission.state"
        (dict (("mission_id", str mission_id) ∷ ("state", str p.mission_state) ∷ []))
        (some p.agent_id) p.session_id
    pure (some mission))

module _ (w : World) (settings : Settings) where
  unfoldable pub register_context : ContextPayload → String → Action ContextResponse
  register_context p request_id = do
    let node_id = or_else p.node_id settings.node_id
    existing ← gets (λ s. agent_at node_id p.agent_id s.agents)
    agent ← upsert_agent w (agent_in_context node_id p existing)
    session ← register_session w node_id p p.session_id
    mission ← register_mission w node_id p p.mission_id
    append_audit_event w "runtime_context_registered" "hermes" p.agent_id node_id request_id
        (dict (
          ("mission_id", opt p.mission_id)
          ∷ ("agent_status", str p.agent_status)
          ∷ ("mission_state", str p.mission_state)
          ∷ []))
        (record no_refs { agent_id = some p.agent_id; session_id = p.session_id })
    create_event w node_id "agent.status"
        (dict (("agent_id", str p.agent_id) ∷ ("status", str p.agent_status) ∷ []))
        (some p.agent_id) p.session_id
    pure (record { agent = agent; mission = mission; session = session })

  unfoldable pub runtime_register_context : HttpRequest → ContextPayload → Action ContextResponse
  runtime_register_context r p = do
    verify_hermes_local_request w settings r
    id ← request_id w r
    register_context p id

-- ===== src/Runtime.antt =====
-- The approvals of HermesRuntimeAdapter in runtime_adapter.py, and the endpoints of app.py that
-- local runtimes call.
pub mod Context
pub mod Still
pub mod Asked
use agentic_control_tower.Prelude.{
  ℕ, String, Option, none, some, List, [], ◌∷◌, or_else, truthy, if◌then◌else◌,
}
use agentic_control_tower.World.{World}
use agentic_control_tower.Json.{Json, dict, str}
use agentic_control_tower.Exec.{pure, gets, ◌>>=◌, ◌>>◌}
use agentic_control_tower.Store.Rows.{
  ApprovalState, pending, cancelled, is_pending, AgentRow, ResponseRow, DecisionType,
}
use agentic_control_tower.Store.State.{Action, Settings}
use agentic_control_tower.Store.Security.{new_id, expires_in}
use agentic_control_tower.Store.Audit.{append_audit_event}
use agentic_control_tower.Store.Events.{create_event}
use agentic_control_tower.Store.Agents.{agent_at, upsert_agent}
use agentic_control_tower.Store.Approvals.{Approval, create_approval}
use agentic_control_tower.Store.Responses.{list_approval_responses}
use agentic_control_tower.Capabilities.{require_runtime_capability}
use agentic_control_tower.Signing.{HttpRequest, request_id}
use agentic_control_tower.LocalBinding.{verify_hermes_local_request}
use agentic_control_tower.Approvals.{
  approval_options_from_scopes, close_approval, get_approval_or_404, refs_of, risk_text, scan,
}
use agentic_control_tower.Approvals.Endpoints.{ToolPayload, scope_of, action_id_of}

-- RuntimeApprovalResult
pub record ApprovalResult : Type 0 where
  pub approval_id : String
  pub state : ApprovalState
  pub selected_scope : Option String
  pub decided_at : Option ℕ
  pub decision_metadata : Json
  pub responses : List ResponseRow

-- RuntimeClearanceDecision
pub record ClearanceDecision : Type 0 where
  pub clearance_ref : String
  pub state : ApprovalState
  pub selected_scope : Option String
  pub decision_type : Option DecisionType
  pub alternate_directive : Option String
  pub user_message : Option String

abbrev pub first? : {A : Type 0} → List A → Option A
first? [] = none
first? (a ∷ rest) = some a

-- `new or old` for optional texts
abbrev pub either_text : Option String → Option String → Option String
either_text new old = if truthy new then new else old

-- The agent as `_existing_agent` finds it, with the status and the tool of the new state.
unfoldable pub agent_in_state :
    String → String → Option String → String → Option String → Option AgentRow → AgentRow
agent_in_state node_id agent_id session_id status tool none = record {
  agent_id = agent_id;
  node_id = node_id;
  display_name = agent_id;
  agent_kind = some "primary";
  status = status;
  active_session_id = session_id;
  current_tool = either_text tool none;
  current_target = none;
  tags = [];
  capabilities = [];
  last_seen_at = 0;
}
agent_in_state node_id agent_id session_id status tool (some a) = record {
  agent_id = agent_id;
  node_id = node_id;
  display_name = or_else (some a.display_name) agent_id;
  agent_kind = either_text a.agent_kind (some "primary");
  status = status;
  active_session_id = session_id;
  current_tool = either_text tool a.current_tool;
  current_target = a.current_target;
  tags = a.tags;
  capabilities = a.capabilities;
  last_seen_at = 0;
}

module _ (w : World) where
  unfoldable pub set_agent_runtime_state :
      String → String → Option String → String → Option String → Action (Unit {0})
  unfolding agent_in_state
  set_agent_runtime_state node_id agent_id session_id status tool = do
    existing ← gets (λ s. agent_at node_id agent_id s.agents)
    upsert_agent w (agent_in_state node_id agent_id session_id status tool existing)
    create_event w node_id "agent.status"
        (dict (("agent_id", str agent_id) ∷ ("status", str status) ∷ [])) (some agent_id) session_id
    pure tt

  unfoldable pub approval_result : String → Action ApprovalResult
  approval_result approval_id = do
    scan w "runtime_result_poll"
    a ← get_approval_or_404 w approval_id
    responses ← list_approval_responses approval_id
    pure (record {
      approval_id = a.approval_id;
      state = a.state;
      selected_scope = scope_of a;
      decided_at = a.decided_at;
      decision_metadata = a.decision_metadata;
      responses = responses;
    })

  abbrev pub decision_of : ApprovalResult → ClearanceDecision
  decision_of result =
      let latest : Option ResponseRow = first? result.responses in
      record {
        clearance_ref = result.approval_id;
        state = result.state;
        selected_scope = result.selected_scope;
        decision_type = elim latest [ none ↦ none | some l ↦ some l.decision_type ];
        alternate_directive = elim latest [ none ↦ none | some l ↦ l.alternate_directive ];
        user_message = elim latest [ none ↦ none | some l ↦ l.user_message ];
      }

  unfoldable pub check_clearance : String → Action ClearanceDecision
  check_clearance clearance_ref = do
    result ← approval_result clearance_ref
    pure (decision_of result)

  unfoldable pub cancel_if_pending : Approval → String → String → Action (Unit {0})
  cancel_if_pending a request_id actor_id =
      if is_pending a.state
      then close_approval w a cancelled "runtime_cancelled" "hermes" actor_id request_id
      else pure tt

  unfoldable pub cancel_approval : String → String → String → Action ApprovalResult
  cancel_approval approval_id request_id actor_id = do
    a ← get_approval_or_404 w approval_id
    cancel_if_pending a request_id actor_id
    approval_result approval_id

  unfoldable pub cancel_clearance : String → String → String → Action ClearanceDecision
  cancel_clearance clearance_ref request_id actor_ref = do
    cancel_approval clearance_ref request_id actor_ref
    check_clearance clearance_ref

module _ (w : World) (settings : Settings) (r : HttpRequest) where
  unfoldable pub request_approval : String → ToolPayload → Action Approval
  request_approval given_id p = do
    let node_id = or_else p.node_id settings.node_id
    let category = or_else p.risk_category "unknown_action"
    approval_id ← new_id w "appr"
    action_id ← action_id_of w settings r p.action_id
    expires_at ← expires_in w p.expires_in_seconds
    a ← create_approval w (record {
      approval_id = approval_id;
      action_id = action_id;
      node_id = node_id;
      agent_id = p.agent_id;
      session_id = p.session_id;
      requested_tool = p.requested_tool;
      risk_level = p.risk_level;
      risk_category = some category;
      summary = p.summary;
      full_payload_redacted = p.payload_redacted;
      resource_scope = p.resource_scope;
      state = pending;
      options = approval_options_from_scopes p.suggested_scopes;
      expires_at = expires_at;
    })
    set_agent_runtime_state w node_id p.agent_id (some p.session_id) "waiting_approval"
        (some p.requested_tool)
    append_audit_event w "approval_requested" "hermes" p.agent_id node_id given_id
        (dict (
          ("requested_tool", str p.requested_tool)
          ∷ ("risk_level", str (risk_text p.risk_level))
          ∷ ("risk_category", str category)
          ∷ []))
        (refs_of a)
    create_event w node_id "approval.requested"
        (dict (
          ("approval_id", str approval_id)
          ∷ ("state", str "pending")
          ∷ ("risk_level", str (risk_text p.risk_level))
          ∷ []))
        (some p.agent_id) (some p.session_id)
    pure a

  unfoldable pub runtime_approval_requested : ToolPayload → Action Approval
  runtime_approval_requested p = do
    verify_hermes_local_request w settings r
    first_id ← request_id w r
    require_runtime_capability w settings "approvals" first_id p.agent_id p.node_id
        (some p.agent_id)
    id ← request_id w r
    request_approval id p

  -- The endpoint returns the adapter's result, and the decision is made from it.
  unfoldable pub runtime_approval_result : String → Action ClearanceDecision
  runtime_approval_result approval_id = do
    verify_hermes_local_request w settings r
    check_clearance w approval_id

  unfoldable pub runtime_cancel_approval : String → Action ClearanceDecision
  runtime_cancel_approval approval_id = do
    verify_hermes_local_request w settings r
    id ← request_id w r
    cancel_clearance w approval_id id "runtime"

-- ===== src/Approvals/Endpoints.antt =====
-- The approval endpoints of app.py, each with the dependency that verifies its caller.
use agentic_control_tower.Prelude.{
  ℕ, String, Bool, true, false, Option, none, some, List, [], ◌∷◌, ◌==◌, length, if◌then◌else◌,
}
use agentic_control_tower.World.{World, ℤ}
use agentic_control_tower.Json.{Json, dict, str, opt, num, arr, items}
use agentic_control_tower.Exec.{pure, http, require, on_option, ◌>>=◌, ◌>>◌}
use agentic_control_tower.Store.Rows.{
  ApprovalState, approved, denied, expired, cancelled, RiskLevel, ResponseRow, DecisionType,
  approve_once, approve_session, approve_agent, deny, modified, needs_info, propose_policy,
}
use agentic_control_tower.Store.State.{Action, Settings}
use agentic_control_tower.Store.Security.{new_id, expires_in}
use agentic_control_tower.Store.Audit.{append_audit_event}
use agentic_control_tower.Store.Events.{create_event}
use agentic_control_tower.Store.Approvals.{Approval, list_approvals}
use agentic_control_tower.Store.Responses.{
  create_approval_response, create_approval_policy_proposal,
}
use agentic_control_tower.Capabilities.{VerifiedDevice, require_device_capability}
use agentic_control_tower.Signing.{HttpRequest, request_id, verify_signed_request}
use agentic_control_tower.LocalBinding.{verify_hermes_local_request}
use agentic_control_tower.Approvals.{
  ApprovalPayload, DecisionResponse, approval_options_from_scopes, create_approval_request,
  expire_pending_approvals, get_approval_or_404, transition_approval, refs_of,
}

-- HermesApprovalRequestedRequest
pub record ToolPayload : Type 0 where
  pub requested_tool : String
  pub risk_level : RiskLevel
  pub summary : String
  pub payload_redacted : Json
  pub agent_id : String
  pub session_id : String
  pub expires_in_seconds : ℤ
  pub suggested_scopes : List String
  pub action_id : Option String
  pub node_id : Option String
  pub risk_category : Option String
  pub resource_scope : Option String

-- ApprovalStatusResponse
pub record ApprovalStatus : Type 0 where
  pub approval_id : String
  pub state : ApprovalState
  pub selected_scope : Option String
  pub decided_at : Option ℕ
  pub decision_metadata : Json

-- CreateApprovalResponseRequest
pub record ResponsePayload : Type 0 where
  pub decision_type : DecisionType
  pub user_message : Option String
  pub alternate_directive : Option String
  pub constraints : List Json
  pub confirmation_phrase : Option String

abbrev pub decision_text : DecisionType → String
decision_text approve_once = "approve_once"
decision_text approve_session = "approve_session"
decision_text approve_agent = "approve_agent"
decision_text deny = "deny"
decision_text modified = "modified"
decision_text needs_info = "needs_info"
decision_text propose_policy = "propose_policy"

abbrev pub scope_of : Approval → Option String
scope_of a = elim a.state [ approved ↦ a.decision_scope | _ ↦ none ]

abbrev pub is_proposal : DecisionType → Bool
is_proposal propose_policy = true
is_proposal _ = false

-- The state, the decision and the scope of the decision types that end the approval.
abbrev pub transition_of : DecisionType → Option (ApprovalState × String × String)
transition_of approve_once = some (approved, "approve", "once")
transition_of approve_session = some (approved, "approve", "session")
transition_of approve_agent = some (approved, "approve", "agent")
transition_of deny = some (denied, "deny", "once")
transition_of _ = none

abbrev pub response_event : DecisionType → String
response_event needs_info = "approval.needs_info"
response_event _ = "approval.response.created"

abbrev pub is_phrase : Option String → Bool
is_phrase none = false
is_phrase (some phrase) = phrase == "PROPOSE POLICY"

module _ (w : World) (settings : Settings) (r : HttpRequest) where
  unfoldable pub create_approval : ApprovalPayload → Action Approval
  create_approval payload = do
    verify_hermes_local_request w settings r
    create_approval_request w settings r payload

  -- The identifier of the action is drawn before the request, as the payload is built first.
  unfoldable pub action_id_of : Option String → Action String
  action_id_of none = new_id w "act"
  action_id_of (some a) = if a == "" then new_id w "act" else pure a

  unfoldable pub hermes_approval_requested : ToolPayload → Action Approval
  hermes_approval_requested p = do
    verify_hermes_local_request w settings r
    action_id ← action_id_of p.action_id
    expires_at ← expires_in w p.expires_in_seconds
    create_approval_request w settings r (record {
      action_id = action_id;
      node_id = p.node_id;
      agent_id = p.agent_id;
      session_id = p.session_id;
      requested_tool = p.requested_tool;
      risk_level = p.risk_level;
      risk_category = p.risk_category;
      summary = p.summary;
      full_payload_redacted = p.payload_redacted;
      resource_scope = p.resource_scope;
      options = approval_options_from_scopes p.suggested_scopes;
      expires_at = expires_at;
    })

  unfoldable pub hermes_approval_status : String → Action ApprovalStatus
  hermes_approval_status approval_id = do
    verify_hermes_local_request w settings r
    expire_pending_approvals w
    a ← get_approval_or_404 w approval_id
    pure (record {
      approval_id = a.approval_id;
      state = a.state;
      selected_scope = scope_of a;
      decided_at = a.decided_at;
      decision_metadata = a.decision_metadata;
    })

  unfoldable pub list_all_approvals : Option ApprovalState → Action (List Approval)
  list_all_approvals state = do
    verify_signed_request w settings r
    expire_pending_approvals w
    list_approvals state

  unfoldable pub read_approval : String → Action Approval
  read_approval approval_id = do
    verify_signed_request w settings r
    expire_pending_approvals w
    get_approval_or_404 w approval_id

  unfoldable pub require_approval_capability : VerifiedDevice → String → Action (Unit {0})
  require_approval_capability dev approval_id = do
    a ← get_approval_or_404 w approval_id
    id ← request_id w r
    require_device_capability w settings dev "approvals" id (some a.node_id) (some a.agent_id)

  -- The body that the five decision endpoints share, after the verification of the device.
  unfoldable pub decide_as :
      VerifiedDevice
      → String
      → ApprovalState
      → Option String
      → Option String
      → Action DecisionResponse
  decide_as dev approval_id target decision scope = do
    require_approval_capability dev approval_id
    id ← request_id w r
    transition_approval w approval_id target id dev.device_id decision scope

  -- `payload.decision` is "approve" or "deny".
  unfoldable pub decide_approval : String → Bool → String → Action DecisionResponse
  decide_approval approval_id approve scope = do
    dev ← verify_signed_request w settings r
    decide_as dev approval_id (if approve then approved else denied)
        (some (if approve then "approve" else "deny")) (some scope)

  unfoldable pub approve_approval_once : String → Action DecisionResponse
  approve_approval_once approval_id = do
    dev ← verify_signed_request w settings r
    decide_as dev approval_id approved (some "approve") (some "once")

  unfoldable pub deny_approval : String → Action DecisionResponse
  deny_approval approval_id = do
    dev ← verify_signed_request w settings r
    decide_as dev approval_id denied (some "deny") (some "once")

  unfoldable pub expire_approval : String → Action DecisionResponse
  expire_approval approval_id = do
    dev ← verify_signed_request w settings r
    decide_as dev approval_id expired none none

  unfoldable pub cancel_approval : String → Action DecisionResponse
  cancel_approval approval_id = do
    dev ← verify_signed_request w settings r
    decide_as dev approval_id cancelled none none

  unfoldable pub propose : VerifiedDevice → String → ResponsePayload → Action (Option String)
  propose dev approval_id p = do
    require (is_phrase p.confirmation_phrase)
        (http 400 "policy proposal requires explicit confirmation phrase")
    proposal ←
        create_approval_policy_proposal w approval_id dev.device_id "proposed"
          "Proposal only; no permanent allow policy was activated." (arr (items p.constraints))
    pure (some proposal.policy_proposal_id)

  unfoldable pub follow_up : VerifiedDevice → String → DecisionType → Action (Unit {0})
  follow_up dev approval_id decision_type =
      on_option (transition_of decision_type) (pure tt) λ (target, decision, scope). do
        id ← request_id w r
        transition_approval w approval_id target id dev.device_id (some decision) (some scope)
        pure tt

  unfoldable pub respond : VerifiedDevice → String → ResponsePayload → Action ResponseRow
  respond dev approval_id p = do
    a ← get_approval_or_404 w approval_id
    first_id ← request_id w r
    require_device_capability w settings dev "approvals" first_id (some a.node_id) (some a.agent_id)
    proposal_id ← (if is_proposal p.decision_type then propose dev approval_id p else pure none)
    response ←
        create_approval_response w approval_id p.decision_type dev.device_id p.user_message
          p.alternate_directive (arr (items p.constraints)) proposal_id
    follow_up dev approval_id p.decision_type
    id ← request_id w r
    append_audit_event w "approval_response_created" "device" dev.device_id a.node_id id
        (dict (
          ("decision_type", str (decision_text p.decision_type))
          ∷ ("constraint_count", num (length p.constraints))
          ∷ ("policy_proposal_id", opt proposal_id)
          ∷ []))
        (refs_of a)
    create_event w a.node_id (response_event p.decision_type)
        (dict (
          ("approval_id", str approval_id)
          ∷ ("approval_response_id", str response.approval_response_id)
          ∷ ("decision_type", str (decision_text p.decision_type))
          ∷ []))
        (some a.agent_id) (some a.session_id)
    pure response

  unfoldable pub create_response : String → ResponsePayload → Action ResponseRow
  create_response approval_id p = do
    dev ← verify_signed_request w settings r
    respond dev approval_id p

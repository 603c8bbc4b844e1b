-- ===== src/Approvals.antt =====
-- The approval endpoints of app.py: requests, decisions, responses and the expiry scan.
pub mod Guard
pub mod Endpoints
pub mod Authority
pub mod Options
pub mod Refusals
use agentic_control_tower.Prelude.{
  ℕ, String, Bool, true, false, Option, none, some, List, [], ◌∷◌, ◌++◌, ◌==◌, leb, or_else,
  contains, truthy, if◌then◌else◌,
}
use agentic_control_tower.World.{World, ℤ}
use agentic_control_tower.Json.{Json, dict, str, opt, null}
use agentic_control_tower.Exec.{
  pure, raise, http, gets, require, on_key_error, for_each, ◌>>=◌, ◌>>◌,
}
use agentic_control_tower.Store.Rows.{
  ApprovalState, pending, approved, denied, expired, cancelled, RiskLevel, low, medium, high,
  critical, is_pending, Refs,
}
use agentic_control_tower.Store.State.{Action, Settings}
use agentic_control_tower.Store.Security.{now_utc, new_id, expires_in}
use agentic_control_tower.Store.Audit.{append_audit_event, no_refs}
use agentic_control_tower.Store.Events.{create_event}
use agentic_control_tower.Signing.{HttpRequest, request_id as id_of_request}
use agentic_control_tower.Store.Approvals.{
  Approval, NewApproval, create_approval, get_approval, list_approvals, resolve_approval,
}

abbrev pub state_text : ApprovalState → String
state_text pending = "pending"
state_text approved = "approved"
state_text denied = "denied"
state_text expired = "expired"
state_text cancelled = "cancelled"

abbrev pub risk_text : RiskLevel → String
risk_text low = "low"
risk_text medium = "medium"
risk_text high = "high"
risk_text critical = "critical"

-- CreateApprovalRequest
pub record ApprovalPayload : Type 0 where
  pub action_id : String
  pub node_id : Option String
  pub agent_id : String
  pub session_id : String
  pub requested_tool : String
  pub risk_level : RiskLevel
  pub risk_category : Option String
  pub summary : String
  pub full_payload_redacted : Json
  pub resource_scope : Option String
  pub options : List String
  pub expires_at : ℕ

pub record DecisionResponse : Type 0 where
  pub approval_id : String
  pub state : ApprovalState
  pub applied_scope : Option String

abbrev pub refs_of : Approval → Refs
refs_of a = record no_refs {
  agent_id = some a.agent_id;
  session_id = some a.session_id;
  approval_id = some a.approval_id;
}

-- `scope_options`
abbrev pub option_of_scope : String → Option String
option_of_scope scope =
    if scope == "once"
    then some "approve_once"
    else if scope == "session"
    then some "approve_for_session"
    else if scope == "agent"
    then some "approve_for_agent"
    else if scope == "permanent"
    then some "approve_permanent"
    else none

unfoldable pub options_of_scopes : List String → List String
options_of_scopes [] = []
options_of_scopes (scope ∷ scopes) =
    let rest = options_of_scopes scopes in
    elim (option_of_scope scope) [ none ↦ rest | some option ↦ option ∷ rest ]

abbrev pub with_deny : List String → List String
with_deny [] = "deny" ∷ []
with_deny (o ∷ options) = o ∷ options ++ "deny" ∷ []

unfoldable pub approval_options_from_scopes : List String → List String
unfolding options_of_scopes
approval_options_from_scopes scopes = with_deny (options_of_scopes scopes)

-- `payload.options or ["deny"]`
abbrev pub options_or_deny : List String → List String
options_or_deny [] = "deny" ∷ []
options_or_deny (o ∷ options) = o ∷ options

abbrev pub is_decision : ApprovalState → Bool
is_decision approved = true
is_decision denied = true
is_decision _ = false

abbrev pub transition_event : ApprovalState → String
transition_event approved = "approval_decision"
transition_event denied = "approval_decision"
transition_event expired = "approval_expired"
transition_event cancelled = "approval_cancelled"
transition_event pending = ""

module _ (w : World) where
  unfoldable pub create_approval_request :
      Settings → HttpRequest → ApprovalPayload → Action Approval
  create_approval_request settings r payload = do
    let node_id = or_else payload.node_id settings.node_id
    let category = or_else payload.risk_category "unknown_action"
    approval_id ← new_id w "appr"
    approval ← create_approval w (record {
      approval_id = approval_id;
      action_id = payload.action_id;
      node_id = node_id;
      agent_id = payload.agent_id;
      session_id = payload.session_id;
      requested_tool = payload.requested_tool;
      risk_level = payload.risk_level;
      risk_category = some category;
      summary = payload.summary;
      full_payload_redacted = payload.full_payload_redacted;
      resource_scope = payload.resource_scope;
      state = pending;
      options = options_or_deny payload.options;
      expires_at = payload.expires_at;
    })
    id ← id_of_request w r
    append_audit_event w "approval_requested" "hermes" payload.agent_id node_id id
        (dict (
          ("requested_tool", str payload.requested_tool)
          ∷ ("risk_level", str (risk_text payload.risk_level))
          ∷ ("risk_category", str category)
          ∷ []))
        (refs_of approval)
    create_event w node_id "approval.requested"
        (dict (
          ("approval_id", str approval_id)
          ∷ ("state", str "pending")
          ∷ ("risk_level", str (risk_text payload.risk_level))
          ∷ []))
        (some payload.agent_id) (some payload.session_id)
    pure approval

  -- The three calls that end an approval without a decision of a device: the row, the audit event
  -- and the event envelope.
  unfoldable pub close_approval :
      Approval → ApprovalState → String → String → String → String → Action (Unit {0})
  close_approval a state reason actor_type actor_id request_id = do
    resolve_approval w a.approval_id state none none (dict (("reason", str reason) ∷ []))
    append_audit_event w (transition_event state) actor_type actor_id a.node_id request_id
        (dict (("reason", str reason) ∷ [])) (refs_of a)
    create_event w a.node_id "approval.resolved"
        (dict (("approval_id", str a.approval_id) ∷ ("state", str (state_text state)) ∷ []))
        (some a.agent_id) (some a.session_id)
    pure tt

  -- The writes of the loop's body, for an approval that is due.
  unfoldable pub expire_one : String → Approval → Action (Unit {0})
  expire_one reason a = do
    resolve_approval w a.approval_id expired none none (dict (("reason", str reason) ∷ []))
    request_id ← new_id w "req"
    append_audit_event w "approval_expired" "gateway" "gateway" a.node_id request_id
        (dict (("reason", str reason) ∷ [])) (refs_of a)
    create_event w a.node_id "approval.resolved"
        (dict (("approval_id", str a.approval_id) ∷ ("state", str "expired") ∷ []))
        (some a.agent_id) (some a.session_id)
    pure tt

  unfoldable pub expire_if_due : String → Approval → Action (Unit {0})
  expire_if_due reason a = do
    now ← now_utc w
    if leb a.expires_at now then expire_one reason a else pure tt

  -- The scan of app.py and that of runtime_adapter.py differ in the reason that they write.
  unfoldable pub scan : String → Action (Unit {0})
  scan reason = do due ← list_approvals (some pending); for_each due (expire_if_due reason)

  unfoldable pub expire_pending_approvals : Action (Unit {0})
  unfolding scan
  expire_pending_approvals = scan "expiry_scan"

  unfoldable pub get_approval_or_404 : String → Action Approval
  get_approval_or_404 id = on_key_error (get_approval id) (http 404 "approval not found")

  -- `target_state in {"approved", "denied"} and parse_utc(expires_at) <= now_utc()`
  unfoldable pub decided_late : ApprovalState → ℕ → Action Bool
  decided_late target expires_at =
      if is_decision target then (do now ← now_utc w; pure (leb expires_at now)) else pure false

  unfoldable pub apply_decision :
      Approval
      → ApprovalState
      → String
      → String
      → Option String
      → Option String
      → Action DecisionResponse
  apply_decision a target request_id actor decision scope = do
    resolve_approval w a.approval_id target scope (some actor)
        (dict (("decision", opt decision) ∷ ("state", str (state_text target)) ∷ []))
    append_audit_event w (transition_event target) "device" actor a.node_id request_id
        (dict (
          ("decision", opt decision)
          ∷ ("scope", opt scope)
          ∷ ("state", str (state_text target))
          ∷ []))
        (refs_of a)
    create_event w a.node_id "approval.resolved"
        (dict (
          ("approval_id", str a.approval_id)
          ∷ ("state", str (state_text target))
          ∷ ("scope", opt scope)
          ∷ []))
        (some a.agent_id) (some a.session_id)
    pure (record { approval_id = a.approval_id; state = target; applied_scope = scope })

  -- What follows the test of the expiry.
  unfoldable pub settle :
      Approval
      → ApprovalState
      → String
      → String
      → Option String
      → Option String
      → Bool
      → Action DecisionResponse
  settle a target request_id actor decision scope late =
      if late
      then (do
        close_approval a expired "decision_after_expiry" "gateway" "gateway" request_id
        raise (http 409 "approval expired"))
      else apply_decision a target request_id actor decision scope

  unfoldable pub transition_approval :
      String
      → ApprovalState
      → String
      → String
      → Option String
      → Option String
      → Action DecisionResponse
  transition_approval approval_id target request_id actor decision scope = do
    a ← get_approval_or_404 approval_id
    require (is_pending a.state) (http 409 "approval is not pending")
    late ← decided_late target a.expires_at
    settle a target request_id actor decision scope late

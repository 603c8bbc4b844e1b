-- ===== src/Store/Approvals.antt =====
-- Approval requests: `create_approval`, `get_approval`, `list_approvals`, `resolve_approval` and
-- `_approval_from_row` of store.py.
use agentic_control_tower.Prelude.{ℕ, String, Bool, true, Option, none, some, List, [], map}
use agentic_control_tower.World.{World}
use agentic_control_tower.Json.{Json, dict}
use agentic_control_tower.Exec.{pure, ◌>>=◌, ◌>>◌}
use agentic_control_tower.Store.Rows.{
  ApprovalState, pending, approved, denied, expired, cancelled, RiskLevel, ApprovalRow,
}
use agentic_control_tower.Store.State.{Action}
use agentic_control_tower.Store.Security.{iso_lt, now_utc, content_hash}
use agentic_control_tower.Store.Sql.{Table, fetch, insert, update_where, list_where}

abbrev pub approvals : Table ApprovalRow
approvals = record {
  key = λ a. a.approval_id;
  rows = λ s. s.approval_requests;
  put = λ s rows. record s { approval_requests = rows };
}

-- What `get_approval` returns: a row without `payload_hash`, `decision_actor_device_id` and
-- `requested_at`.
pub record Approval : Type 0 where
  pub approval_id : String
  pub action_id : String
  pub node_id : String
  pub agent_id : String
  pub session_id : String
  pub requested_tool : String
  pub risk_level : RiskLevel
  pub risk_category : Option String
  pub summary : String
  pub full_payload_redacted : Json
  pub resource_scope : Option String
  pub state : ApprovalState
  pub options : List String
  pub decision_scope : Option String
  pub decision_metadata : Json
  pub expires_at : ℕ
  pub decided_at : Option ℕ

abbrev pub approval_from_row : ApprovalRow → Approval
approval_from_row row = record {
  approval_id = row.approval_id;
  action_id = row.action_id;
  node_id = row.node_id;
  agent_id = row.agent_id;
  session_id = row.session_id;
  requested_tool = row.requested_tool;
  risk_level = row.risk_level;
  risk_category = row.risk_category;
  summary = row.summary;
  full_payload_redacted = row.full_payload_redacted;
  resource_scope = row.resource_scope;
  state = row.state;
  options = row.options;
  decision_scope = row.decision_scope;
  decision_metadata = row.decision_metadata;
  expires_at = row.expires_at;
  decided_at = row.decided_at;
}

-- The keys of the dictionary that the callers of `create_approval` set.
pub record NewApproval : Type 0 where
  pub approval_id : String
  pub action_id : String
  pub node_id : String
  pub agent_id : String
  pub session_id : String
  pub requested_tool : String
  pub risk_level : RiskLevel
  pub risk_category : Option String
  pub summary : String
  pub full_payload_redacted : Json
  pub resource_scope : Option String
  pub state : ApprovalState
  pub options : List String
  pub expires_at : ℕ

unfoldable pub get_approval : String → Action Approval
get_approval approval_id = do row ← fetch approvals approval_id; pure (approval_from_row row)

abbrev pub same_state : ApprovalState → ApprovalState → Bool
same_state pending pending = true
same_state approved approved = true
same_state denied denied = true
same_state expired expired = true
same_state cancelled cancelled = true
same_state _ _ = Bool.false

-- `if state: WHERE state = ?`
abbrev pub in_state : Option ApprovalState → ApprovalRow → Bool
in_state none row = true
in_state (some state) row = same_state row.state state

unfoldable pub list_approvals : Option ApprovalState → Action (List Approval)
list_approvals state = do
  rows ← list_where approvals (in_state state) (λ a b. iso_lt b.requested_at a.requested_at)
  pure (map approval_from_row rows)

-- What the UPDATE of `resolve_approval` writes into the row.
abbrev pub resolved :
    ApprovalState → Option String → Option String → Json → ℕ → ApprovalRow → ApprovalRow
resolved state scope actor metadata decided_at row = record row {
  state = state;
  decision_scope = scope;
  decision_actor_device_id = actor;
  decision_metadata = metadata;
  decided_at = some decided_at;
}

module _ (w : World) where
  unfoldable pub create_approval : NewApproval → Action Approval
  create_approval a = do
    requested_at ← now_utc w
    insert approvals (record {
      approval_id = a.approval_id;
      action_id = a.action_id;
      node_id = a.node_id;
      agent_id = a.agent_id;
      session_id = a.session_id;
      requested_tool = a.requested_tool;
      risk_level = a.risk_level;
      risk_category = a.risk_category;
      summary = a.summary;
      full_payload_redacted = a.full_payload_redacted;
      payload_hash = content_hash w a.full_payload_redacted;
      resource_scope = a.resource_scope;
      state = a.state;
      options = a.options;
      decision_scope = none;
      decision_actor_device_id = none;
      decision_metadata = dict [];
      requested_at = requested_at;
      expires_at = a.expires_at;
      decided_at = none;
    })
    get_approval a.approval_id

  unfoldable pub resolve_approval :
      String → ApprovalState → Option String → Option String → Json → Action (Unit {0})
  resolve_approval approval_id state decision_scope decision_actor_device_id decision_metadata = do
    decided_at ← now_utc w
    update_where approvals approval_id
        (resolved state decision_scope decision_actor_device_id decision_metadata decided_at)

-- ===== src/Runtime/Asked.antt =====
-- What a runtime's request for an approval leaves when it returned: a new row that waits, with what was
-- asked for, and that offers to deny it.
use agentic_control_tower.Prelude.{◌≡◌, ℕ, none, some, [], last?}
use agentic_control_tower.World.{World}
use agentic_control_tower.Json.{dict}
use agentic_control_tower.Exec.Returns.{Returns}
use agentic_control_tower.Store.Rows.{ApprovalRow, pending}
use agentic_control_tower.Store.State.{Store}
use agentic_control_tower.Store.Security.{content_hash}
use agentic_control_tower.Store.Sql.{row_at}
use agentic_control_tower.Store.Approvals.{approvals, Approval, NewApproval, approval_from_row}
use agentic_control_tower.Store.Logged.{}
use agentic_control_tower.Approvals.{ApprovalPayload, approval_options_from_scopes}
use agentic_control_tower.Approvals.Endpoints.{ToolPayload}
use agentic_control_tower.Runtime.Still.{Still}

-- The row that is inserted for `n`.
abbrev row_of : World → NewApproval → ℕ → ApprovalRow
row_of w n requested_at = record {
  approval_id = n.approval_id;
  action_id = n.action_id;
  node_id = n.node_id;
  agent_id = n.agent_id;
  session_id = n.session_id;
  requested_tool = n.requested_tool;
  risk_level = n.risk_level;
  risk_category = n.risk_category;
  summary = n.summary;
  full_payload_redacted = n.full_payload_redacted;
  payload_hash = content_hash w n.full_payload_redacted;
  resource_scope = n.resource_scope;
  state = n.state;
  options = n.options;
  decision_scope = none;
  decision_actor_device_id = none;
  decision_metadata = dict [];
  requested_at = requested_at;
  expires_at = n.expires_at;
  decided_at = none;
}

record Filed (w : World) (n : NewApproval) (a : Approval) (s t : Store) : Type 0 where
  time : ℕ
  fresh : row_at approvals n.approval_id s ≡ none
  stored : row_at approvals n.approval_id t ≡ some (row_of w n time)
  seen : a ≡ approval_from_row (row_of w n time)

-- Between `s` and `t` the approval `a` was asked for by `p`, under a new identifier: its row waits, and
-- holds the tool, the summary, the payload with its hash, the risk, the agent and the session that the
-- runtime gave; its last option is to deny it.
pub record Asked (w : World) (p : ToolPayload) (a : Approval) (s t : Store) : Type 0 where
  pub row : ApprovalRow
  pub fresh : row_at approvals a.approval_id s ≡ none
  pub stored : row_at approvals a.approval_id t ≡ some row
  pub seen : a ≡ approval_from_row row
  pub waits : row.state ≡ pending
  pub undecided : (row.decided_at ≡ none) × (row.decision_actor_device_id ≡ none)
  pub tool : (row.requested_tool ≡ p.requested_tool) × (row.risk_level ≡ p.risk_level)
  pub about :
      (row.summary ≡ p.summary)
      × (row.full_payload_redacted ≡ p.payload_redacted)
      × (row.payload_hash ≡ content_hash w p.payload_redacted)
  pub asker : (row.agent_id ≡ p.agent_id) × (row.session_id ≡ p.session_id)
  pub deniable : last? row.options ≡ some "deny"

-- What `create_approval_request` is given by the endpoint.
record From (q : ApprovalPayload) (p : ToolPayload) : Type 0 where
  tool : (q.requested_tool ≡ p.requested_tool) × (q.risk_level ≡ p.risk_level)
  about : (q.summary ≡ p.summary) × (q.full_payload_redacted ≡ p.payload_redacted)
  asker : (q.agent_id ≡ p.agent_id) × (q.session_id ≡ p.session_id)
  options : q.options ≡ approval_options_from_scopes p.suggested_scopes

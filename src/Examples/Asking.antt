-- ===== src/Examples/Asking.antt =====
-- A request of a runtime for an approval.
use agentic_control_tower.Prelude.{none, [], ◌∷◌}
use agentic_control_tower.World.{pos}
use agentic_control_tower.Json.{null}
use agentic_control_tower.Exec.Returns.{Returns}
use agentic_control_tower.Store.Rows.{low, pending}
use agentic_control_tower.Store.State.{Store}
use agentic_control_tower.Store.Approvals.{Approval, approval_from_row}
use agentic_control_tower.Approvals.Endpoints.{ToolPayload, hermes_approval_requested}
use agentic_control_tower.Runtime.Asked.{Asked}
use agentic_control_tower.Examples.World.{toy, settings, signed_by}
use agentic_control_tower.Examples.States.{two_approvals, approval}
use agentic_control_tower.Examples.Help.{result_of}

abbrev shell_wanted : ToolPayload
shell_wanted = record {
  requested_tool = "shell";
  risk_level = low;
  summary = "list files";
  payload_redacted = null;
  agent_id = "agent";
  session_id = "sess";
  expires_in_seconds = pos 60;
  suggested_scopes = "once" ∷ "forever" ∷ [];
  action_id = none;
  node_id = none;
  risk_category = none;
  resource_scope = none;
}

abbrev wanted : Store
wanted =
    (hermes_approval_requested toy settings (signed_by "dev" "n1") shell_wanted two_approvals).1

abbrev offered : Approval
offered =
    result_of (approval_from_row (approval "a1" pending))
      (hermes_approval_requested toy settings (signed_by "dev" "n1") shell_wanted two_approvals).0

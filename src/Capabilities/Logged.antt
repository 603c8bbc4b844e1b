-- ===== src/Capabilities/Logged.antt =====
-- The check of a device's capability writes nothing but audit events.
use agentic_control_tower.Prelude.{String, Option}
use agentic_control_tower.World.{World}
use agentic_control_tower.Exec.Along.{Along}
use agentic_control_tower.Store.Rows.{SubjectType}
use agentic_control_tower.Store.State.{Settings}
use agentic_control_tower.Store.Grants.{has_active_capability_grant, list_capability_grants}
use agentic_control_tower.Store.Sql.{list_where}
use agentic_control_tower.Store.Logged.{Logged, logged_rules}
use agentic_control_tower.Capabilities.{
  VerifiedDevice, require_device_capability, audit_capability_denial,
}

module _ (w : World) (settings : Settings) where
  has_active-Logged :
      (subject_type : SubjectType) (subject_id capability node_id : String)
      (agent_id : Option String)
      → Along Logged
          (has_active_capability_grant w subject_type subject_id capability node_id agent_id)
  unfolding has_active_capability_grant list_capability_grants list_where
  has_active-Logged subject_type subject_id capability node_id agent_id = search logged_rules

  pub require_device_capability-Logged :
      (dev : VerifiedDevice) (capability id : String) (node_id agent_id : Option String)
      → Along Logged (require_device_capability w settings dev capability id node_id agent_id)
  unfolding require_device_capability audit_capability_denial
  require_device_capability-Logged dev capability id node_id agent_id =
      search (logged_rules, has_active-Logged) depth 12

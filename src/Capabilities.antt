-- ===== src/Capabilities.antt =====
-- capabilities.py: what a device or a runtime may do, by its own permissions and by grants.
pub mod Laws
pub mod Logged
use Prim.Native.String.{◌++◌ as concat}
use agentic_control_tower.Prelude.{
  String, Bool, true, false, Option, none, some, List, [], ◌∷◌, ◌++◌, ◌==◌, ◌&&◌, ◌||◌, contains,
  or_else, truthy, if◌then◌else◌,
}
use agentic_control_tower.World.{World}
use agentic_control_tower.Json.{dict, str}
use agentic_control_tower.Exec.{pure, raise, http, gets, ◌>>=◌, ◌>>◌}
use agentic_control_tower.Store.Rows.{Capability, device, runtime, agent, node, Refs}
use agentic_control_tower.Store.State.{Action, Settings}
use agentic_control_tower.Store.Audit.{append_audit_event, no_refs}
use agentic_control_tower.Store.Grants.{has_active_capability_grant}
use agentic_control_tower.Store.Agents.{nodes, agent_at}
use agentic_control_tower.Store.Sql.{row_at}

-- signing.py
pub record VerifiedDevice : Type 0 where
  pub device_id : String
  pub node_id : String
  pub permissions : List String

-- `dictionary.get(key)`
abbrev pub lookup_text : String → List (String × String) → Option String
lookup_text k [] = none
lookup_text k ((j, v) ∷ rest) = if j == k then some v else lookup_text k rest

abbrev pub device_permission_by_capability : List (String × String)
device_permission_by_capability =
    ("approvals", "approve")
    ∷ ("tui", "tui")
    ∷ ("tua", "intervene")
    ∷ ("browser_assistance", "browser_assist")
    ∷ ("voice", "voice")
    ∷ ("notifications", "read_state")
    ∷ []

abbrev pub agent_or_node_capabilities : List (String × String)
agent_or_node_capabilities =
    ("tui", "tui")
    ∷ ("tua", "tua")
    ∷ ("browser_assistance", "browser_assist")
    ∷ ("voice", "voice")
    ∷ []

-- `permission and permission in device.permissions`
abbrev pub permitted : Option String → List String → Bool
permitted none permissions = false
permitted (some permission) permissions = contains permission permissions

abbrev pub lacks : Option String → String → String
lacks (some permission) capability = concat "device lacks " (concat permission " permission")
lacks none capability = concat "device lacks " (concat capability " capability")

-- `item.get("name") == name and item.get("status") == "available"` for one of the items
unfoldable pub has_available : String → List Capability → Bool
has_available name [] = false
has_available name (c ∷ rest) = c.name == name && c.status == "available" || has_available name rest

module _ (w : World) (settings : Settings) where
  unfoldable pub audit_capability_denial :
      String → String → String → String → String → Option String → Option String → Action (Unit {0})
  audit_capability_denial request_id actor_type actor_id capability reason node_id agent_id = do
    append_audit_event w "capability_check_denied" actor_type actor_id
        (or_else node_id settings.node_id) request_id
        (dict (("capability", str capability) ∷ ("reason", str reason) ∷ []))
        (record no_refs { agent_id = agent_id })
    pure tt

  unfoldable pub require_device_capability :
      VerifiedDevice → String → String → Option String → Option String → Action (Unit {0})
  unfolding audit_capability_denial
  require_device_capability dev capability request_id node_id agent_id =
      let permission = lookup_text capability device_permission_by_capability in
      if permitted permission dev.permissions then pure tt else do
        allowed ←
            has_active_capability_grant w device dev.device_id capability
              (or_else node_id settings.node_id) agent_id
        if allowed then pure tt else do
          audit_capability_denial request_id "device" dev.device_id capability
              "device_lacks_capability" node_id agent_id
          raise (http 403 (lacks permission capability))

  abbrev pub node_capabilities : String → Action (List Capability)
  node_capabilities node_id =
      gets λ s. elim (row_at nodes node_id s) [ none ↦ [] | some n ↦ n.capabilities ]

  abbrev pub agent_capabilities : String → String → Action (List Capability)
  agent_capabilities node_id agent_id =
      gets λ s. elim (agent_at node_id agent_id s.agents) [ none ↦ [] | some a ↦ a.capabilities ]

  unfoldable pub record_has_capability : String → String → String → Action Bool
  unfolding has_available
  record_has_capability node_id agent_id capability = do
    of_node ← node_capabilities node_id
    of_agent ← agent_capabilities node_id agent_id
    let name = or_else (lookup_text capability agent_or_node_capabilities) capability
    pure (has_available name (of_node ++ of_agent))

  -- `agent_id and …`
  abbrev pub for_agent : Option String → (String → Action Bool) → Action Bool
  for_agent none m = pure false
  for_agent (some a) m = if a == "" then pure false else m a

  unfoldable pub require_runtime_capability :
      String → String → String → Option String → Option String → Action (Unit {0})
  unfolding audit_capability_denial record_has_capability
  require_runtime_capability capability request_id actor_id node_id agent_id =
      let resolved = or_else node_id settings.node_id in
      if contains capability ("approvals" ∷ "notifications" ∷ []) then pure tt else do
        recorded ← for_agent agent_id (λ a. record_has_capability resolved a capability)
        if recorded then pure tt else do
          of_runtime ← has_active_capability_grant w runtime actor_id capability resolved agent_id
          if of_runtime then pure tt else do
            of_agent ←
                for_agent agent_id
                  (λ a. has_active_capability_grant w agent a capability resolved agent_id)
            if of_agent then pure tt else do
              of_node ← has_active_capability_grant w node resolved capability resolved agent_id
              if of_node then pure tt else do
                audit_capability_denial request_id "hermes" actor_id capability
                    "runtime_capability_not_granted" (some resolved) agent_id
                raise (http 403 (concat "runtime lacks " (concat capability " capability")))

-- ===== src/Runtime/Still.antt =====
-- The methods of the runtimes' endpoints that leave the approvals as they are.
use agentic_control_tower.Prelude.{◌≡◌, refl, ◌∙◌, String, Option, none, some}
use agentic_control_tower.World.{World, ℤ}
use agentic_control_tower.Json.{Json}
use agentic_control_tower.Exec.{modify}
use agentic_control_tower.Exec.Along.{Preorder, Along, along_rules}
use agentic_control_tower.Store.Rows.{AgentRow, Refs}
use agentic_control_tower.Store.State.{Store, Action, Settings}
use agentic_control_tower.Store.Security.{new_id, now_utc, expires_in}
use agentic_control_tower.Store.Audit.{append_audit_event}
use agentic_control_tower.Store.Events.{create_event}
use agentic_control_tower.Store.Agents.{upsert_agent, get_agent}
use agentic_control_tower.Store.Approvals.{}
use agentic_control_tower.Store.Logged.{
  Logged, now_utc-Logged, new_id-Logged, append_audit_event-Logged, create_event-Logged,
}
use agentic_control_tower.Capabilities.{require_runtime_capability}
use agentic_control_tower.Signing.{HttpRequest, request_id}
use agentic_control_tower.Signing.Logged.{request_id-Logged}
use agentic_control_tower.LocalBinding.{verify_hermes_local_request, reject_caller}
use agentic_control_tower.Approvals.{}
use agentic_control_tower.Approvals.Endpoints.{action_id_of}
use agentic_control_tower.Runtime.{set_agent_runtime_state}

-- The approvals are the same.
pub record Still (s t : Store) : Type 0 where
  pub approvals : t.approval_requests ≡ s.approval_requests

pub Still-preorder : Preorder Still
Still-preorder = record {
  same = λ s. record { approvals = refl };
  join = λ s t u f g. record { approvals = g.approvals ∙ f.approvals };
}

still : {A : Type 0} {m : Action A} → Along Logged m → Along Still m
still h = record { at = λ s. record { approvals = (h.at s).approval_requests } }

modify-Still : (f : Store → Store) → ((s : Store) → Still s (f s)) → Along Still (modify f)
unfolding modify
modify-Still f h = record { at = h }

module _ (w : World) where
  pub audit-Still :
      (event_type actor_type actor_id node_id id : String) (payload : Json) (refs : Refs)
      → Along Still (append_audit_event w event_type actor_type actor_id node_id id payload refs)
  audit-Still event_type actor_type actor_id node_id id payload refs =
      still (append_audit_event-Logged w event_type actor_type actor_id node_id id payload refs)

  pub event-Still :
      (node_id event_type : String) (payload : Json) (agent_id session_id : Option String)
      → Along Still (create_event w node_id event_type payload agent_id session_id)
  event-Still node_id event_type payload agent_id session_id =
      still (create_event-Logged w node_id event_type payload agent_id session_id)

  pub now_utc-Still : Along Still (now_utc w)
  now_utc-Still = still (now_utc-Logged w)

  pub new_id-Still : (prefix : String) → Along Still (new_id w prefix)
  new_id-Still prefix = still (new_id-Logged w prefix)

  pub request_id-Still : (r : HttpRequest) → Along Still (request_id w r)
  request_id-Still r = still (request_id-Logged w r)

  ruleset still_rules = (
    along_rules, Still-preorder, modify-Still, audit-Still, event-Still, now_utc-Still,
    new_id-Still, request_id-Still,
  )

  pub expires_in-Still : (seconds : ℤ) → Along Still (expires_in w seconds)
  unfolding expires_in
  expires_in-Still seconds = search still_rules

  upsert_agent-Still : (a : AgentRow) → Along Still (upsert_agent w a)
  unfolding upsert_agent get_agent
  upsert_agent-Still a = search still_rules depth 8

  pub set_agent-Still :
      (node_id agent_id : String) (session_id : Option String) (status : String)
      (tool : Option String)
      → Along Still (set_agent_runtime_state w node_id agent_id session_id status tool)
  unfolding set_agent_runtime_state
  set_agent-Still node_id agent_id session_id status tool =
      search (still_rules, upsert_agent-Still) depth 8

module _ (w : World) (settings : Settings) (r : HttpRequest) where
  pub caller-Still : Along Still (verify_hermes_local_request w settings r)
  unfolding verify_hermes_local_request reject_caller
  caller-Still = search still_rules depth 8

  pub action_id-Still : (o : Option String) → Along Still (action_id_of w settings r o)
  unfolding action_id_of
  action_id-Still none = search still_rules
  action_id-Still (some a) = search still_rules

  pub capability-Still :
      (id agent : String) (node_id agent_id : Option String)
      → Along Still (require_runtime_capability w settings "approvals" id agent node_id agent_id)
  unfolding require_runtime_capability
  capability-Still id agent node_id agent_id = search still_rules

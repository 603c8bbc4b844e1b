-- ===== src/History/Callers.antt =====
-- The verification of callers and the checks of capabilities keep the history.
use agentic_control_tower.History.Stores.{create_event-History}
use agentic_control_tower.Prelude.{ℕ, String, Bool, Option, none, some}
use agentic_control_tower.World.{World}
use agentic_control_tower.Exec.Along.{Along}
use agentic_control_tower.Store.State.{Action, Settings}
use agentic_control_tower.Capabilities.{
  VerifiedDevice, audit_capability_denial, require_device_capability, require_runtime_capability,
  record_has_capability, for_agent,
}
use agentic_control_tower.Signing.{
  HttpRequest, request_id, audit_auth_failure, reject, known_device, parsed_timestamp,
  verify_signed_request,
}
use agentic_control_tower.LocalBinding.{reject_caller, verify_hermes_local_request}
use agentic_control_tower.History.{History}
use agentic_control_tower.History.Primitives.{append_audit_event-History, clock_rules}
use agentic_control_tower.History.Stores.{record_request_nonce-History}
use agentic_control_tower.History.Tables.{has_active_capability_grant-History}

ruleset audit_rules = (clock_rules, append_audit_event-History)

module _ (w : World) where
  pub request_id-History : (r : HttpRequest) → Along (History w) (request_id w r)
  unfolding request_id
  request_id-History r = search clock_rules

module _ (w : World) (settings : Settings) where
  denial-History :
      (id type actor capability reason : String) (node_id agent_id : Option String)
      → Along
          (History w)
          (audit_capability_denial w settings id type actor capability reason node_id agent_id)
  unfolding audit_capability_denial
  denial-History id type actor capability reason node_id agent_id = search audit_rules

  pub require_device_capability-History :
      (dev : VerifiedDevice) (capability id : String) (node_id agent_id : Option String)
      → Along (History w) (require_device_capability w settings dev capability id node_id agent_id)
  unfolding require_device_capability
  require_device_capability-History dev capability id node_id agent_id =
      search (clock_rules, denial-History, has_active_capability_grant-History) depth 10

  for_agent-History :
      (agent : Option String) (m : String → Action Bool)
      → ((a : String) → Along (History w) (m a))
      → Along (History w) (for_agent w settings agent m)
  for_agent-History none m h = search clock_rules
  for_agent-History (some a) m h = search (clock_rules, h)

  record_has_capability-History :
      (node agent capability : String)
      → Along (History w) (record_has_capability w settings node agent capability)
  unfolding record_has_capability
  record_has_capability-History node agent capability = search clock_rules

  pub require_runtime_capability-History :
      (capability id actor : String) (node_id agent_id : Option String)
      → Along
          (History w)
          (require_runtime_capability w settings capability id actor node_id agent_id)
  unfolding require_runtime_capability
  require_runtime_capability-History capability id actor node_id agent_id =
      search
        (
          clock_rules, denial-History, has_active_capability_grant-History, for_agent-History,
          record_has_capability-History,
        )
        depth 20

module _ (w : World) (settings : Settings) (r : HttpRequest) where
  audit_auth_failure-History :
      (id reason : String) → Along (History w) (audit_auth_failure w settings r id reason)
  unfolding audit_auth_failure
  audit_auth_failure-History id reason = search audit_rules

  reject-History :
      {A : Type 0} (id reason : String) (code : ℕ) (detail : String)
      → Along {A = A} (History w) (reject w settings r id reason code detail)
  unfolding reject
  reject-History id reason code detail = search (clock_rules, audit_auth_failure-History)

  known_device-History : (id : String) → Along (History w) (known_device w settings r id)
  unfolding known_device
  known_device-History id = search (clock_rules, reject-History) depth 8

  parsed_timestamp-History : (id : String) → Along (History w) (parsed_timestamp w settings r id)
  unfolding parsed_timestamp
  parsed_timestamp-History id = search (clock_rules, reject-History) depth 8

  pub verify_signed_request-History : Along (History w) (verify_signed_request w settings r)
  unfolding verify_signed_request
  verify_signed_request-History =
      search
        (
          clock_rules, request_id-History, reject-History, known_device-History,
          parsed_timestamp-History, record_request_nonce-History,
        )
        depth 20

  reject_caller-History : (id : String) → Along (History w) (reject_caller w settings r id)
  unfolding reject_caller
  reject_caller-History id = search audit_rules depth 8

  pub verify_hermes_local_request-History :
      Along (History w) (verify_hermes_local_request w settings r)
  unfolding verify_hermes_local_request
  verify_hermes_local_request-History =
      search (clock_rules, request_id-History, reject_caller-History) depth 8

pub ruleset endpoint_rules = (
  clock_rules, append_audit_event-History, create_event-History, request_id-History,
  verify_signed_request-History, verify_hermes_local_request-History,
  require_device_capability-History, require_runtime_capability-History,
)

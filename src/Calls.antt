-- ===== src/Calls.antt =====
-- The endpoints as calls: what a client or a local runtime may send, and a run of many calls. A
-- call that raises leaves the state that it reached, and the next call starts from there.
pub mod Sessions
use agentic_control_tower.Prelude.{String, Bool, Option, List, [], ◌∷◌}
use agentic_control_tower.World.{World, ℤ}
use agentic_control_tower.Exec.{forget}
use agentic_control_tower.Store.Rows.{ApprovalState}
use agentic_control_tower.Store.State.{Store, Action, Settings}
use agentic_control_tower.Signing.{HttpRequest}
use agentic_control_tower.Approvals.{ApprovalPayload}
use agentic_control_tower.Approvals.Endpoints
use agentic_control_tower.Approvals.Endpoints.{ToolPayload, ResponsePayload}
use agentic_control_tower.Pairing
use agentic_control_tower.Pairing.{PairingPayload}
use agentic_control_tower.Notifications
use agentic_control_tower.Notifications.{NotifyPayload}
use agentic_control_tower.Inventory
use agentic_control_tower.Runtime
use agentic_control_tower.Runtime.Context
use agentic_control_tower.Runtime.Context.{ContextPayload}
use agentic_control_tower.Feed
use agentic_control_tower.Calls.Sessions.{SessionCall, handle_session}

pub data Call : Type 0 where
  create_approval : ApprovalPayload → Call
  hermes_approval_requested : ToolPayload → Call
  hermes_approval_status : String → Call
  list_approvals : Option ApprovalState → Call
  get_approval : String → Call
  decide_approval : String → Bool → String → Call
  approve_once : String → Call
  deny_approval : String → Call
  expire_approval : String → Call
  cancel_approval : String → Call
  create_approval_response : String → ResponsePayload → Call
  start_pairing : String → List String → Option ℤ → Call
  get_pairing : String → Call
  complete_pairing : PairingPayload → Call
  refresh_token : String → Call
  revoke_device : String → Call
  mobile_notify : NotifyPayload → Call
  runtime_notification : NotifyPayload → Call
  runtime_approval_requested : ToolPayload → Call
  runtime_approval_result : String → Call
  runtime_cancel_approval : String → Call
  runtime_register_context : ContextPayload → Call
  list_sessions : Option String → Option String → Call
  get_session : String → String → Call
  get_session_activity : String → String → Call
  list_missions : Option String → Option String → Call
  get_mission : String → Call
  list_events : Option String → ℤ → Call
  session_call : SessionCall → Call

module _ (w : World) (settings : Settings) where
  unfoldable pub handle : HttpRequest → Call → Action (Unit {0})
  handle r (create_approval p) = forget (Endpoints.create_approval w settings r p)
  handle r (hermes_approval_requested p) =
      forget (Endpoints.hermes_approval_requested w settings r p)
  handle r (hermes_approval_status id) = forget (Endpoints.hermes_approval_status w settings r id)
  handle r (list_approvals state) = forget (Endpoints.list_all_approvals w settings r state)
  handle r (get_approval id) = forget (Endpoints.read_approval w settings r id)
  handle r (decide_approval id approve scope) =
      forget (Endpoints.decide_approval w settings r id approve scope)
  handle r (approve_once id) = forget (Endpoints.approve_approval_once w settings r id)
  handle r (deny_approval id) = forget (Endpoints.deny_approval w settings r id)
  handle r (expire_approval id) = forget (Endpoints.expire_approval w settings r id)
  handle r (cancel_approval id) = forget (Endpoints.cancel_approval w settings r id)
  handle r (create_approval_response id p) = forget (Endpoints.create_response w settings r id p)
  handle r (start_pairing name permissions ttl) =
      forget (Pairing.start_pairing w settings r name permissions ttl)
  handle r (get_pairing id) = forget (Pairing.get_pairing w settings r id)
  handle r (complete_pairing p) = forget (Pairing.complete_pairing w settings r p)
  handle r (refresh_token token) = forget (Pairing.refresh_tokens w settings r token)
  handle r (revoke_device id) = forget (Pairing.revoke w settings r id)
  handle r (mobile_notify p) = forget (Notifications.mobile_notify w settings r p)
  handle r (runtime_notification p) = forget (Notifications.runtime_notification w settings r p)
  handle r (runtime_approval_requested p) =
      forget (Runtime.runtime_approval_requested w settings r p)
  handle r (runtime_approval_result id) = forget (Runtime.runtime_approval_result w settings r id)
  handle r (runtime_cancel_approval id) = forget (Runtime.runtime_cancel_approval w settings r id)
  handle r (runtime_register_context p) = forget (Context.runtime_register_context w settings r p)
  handle r (list_sessions node agent) = forget (Inventory.list_sessions w settings r node agent)
  handle r (get_session id node) = forget (Inventory.get_session w settings r id node)
  handle r (get_session_activity id node) =
      forget (Inventory.get_session_activity w settings r id node)
  handle r (list_missions node agent) = forget (Inventory.list_missions w settings r node agent)
  handle r (get_mission id) = forget (Inventory.get_mission w settings r id)
  handle r (list_events after limit) = forget (Feed.list_events w settings r after limit)
  handle r (session_call call) = handle_session w settings r call

  unfoldable pub serve : List (HttpRequest × Call) → Store → Store
  serve [] s = s
  serve ((r, call) ∷ rest) s = serve rest (handle r call s).1

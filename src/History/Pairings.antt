-- ===== src/History/Pairings.antt =====
-- The endpoints of pairing, tokens and devices keep the history.
use agentic_control_tower.History.Callers.{endpoint_rules}
use agentic_control_tower.Prelude.{String, Option, List}
use agentic_control_tower.World.{World, ℤ}
use agentic_control_tower.Exec.Along.{Along}
use agentic_control_tower.Store.Rows.{PairingRow}
use agentic_control_tower.Store.State.{Settings}
use agentic_control_tower.Store.Agents.{get_node}
use agentic_control_tower.Store.Pairing.{get_pairing_session}
use agentic_control_tower.Store.Sql.Laws.{Along-fetch}
use agentic_control_tower.Signing.{HttpRequest}
use agentic_control_tower.Approvals.Endpoints.{}
use agentic_control_tower.Pairing.{
  PairingPayload, expire_pairing_if_needed, issue_tokens, start_pairing, get_pairing,
  reject_pairing, register_device, complete_pairing, refresh_tokens, revoke,
}
use agentic_control_tower.Notifications.{}
use agentic_control_tower.History.{History}
use agentic_control_tower.History.Primitives.{clock_rules}
use agentic_control_tower.History.Stores.{create_device-History, revoke_device-History}
use agentic_control_tower.History.Tables.{
  create_auth_token-History, verify_refresh_token-History, create_pairing_session-History,
  set_pairing_status-History,
}
use agentic_control_tower.History.Callers.{}

module _ (w : World) where
  get_pairing_session-History : (id : String) → Along (History w) (get_pairing_session id)
  unfolding get_pairing_session
  get_pairing_session-History id = search (clock_rules, Along-fetch)

  get_node-History : (id : String) → Along (History w) (get_node id)
  unfolding get_node
  get_node-History id = search (clock_rules, Along-fetch)

  expire_pairing-History : (p : PairingRow) → Along (History w) (expire_pairing_if_needed w p)
  unfolding expire_pairing_if_needed
  expire_pairing-History p =
      search (clock_rules, set_pairing_status-History, get_pairing_session-History) depth 10

  issue_tokens-History : (device : String) → Along (History w) (issue_tokens w device)
  unfolding issue_tokens
  issue_tokens-History device = search (clock_rules, create_auth_token-History) depth 10

module _ (w : World) (settings : Settings) (r : HttpRequest) where
  pub start_pairing-History :
      (name : String) (permissions : List String) (ttl : Option ℤ)
      → Along (History w) (start_pairing w settings r name permissions ttl)
  unfolding start_pairing
  start_pairing-History name permissions ttl =
      search (endpoint_rules, create_pairing_session-History) depth 12

  pub get_pairing-History : (id : String) → Along (History w) (get_pairing w settings r id)
  unfolding get_pairing
  get_pairing-History id =
      search (clock_rules, get_pairing_session-History, expire_pairing-History) depth 8

  reject_pairing-History : (p : PairingRow) → Along (History w) (reject_pairing w settings r p)
  unfolding reject_pairing
  reject_pairing-History p = search endpoint_rules depth 8

  register_device-History :
      (p : PairingRow) (payload : PairingPayload)
      → Along (History w) (register_device w settings r p payload)
  unfolding register_device
  register_device-History p payload =
      search
        (
          endpoint_rules, create_device-History, issue_tokens-History, set_pairing_status-History,
          get_node-History,
        )
        depth 20

  pub complete_pairing-History :
      (payload : PairingPayload) → Along (History w) (complete_pairing w settings r payload)
  unfolding complete_pairing
  complete_pairing-History payload =
      search
        (
          endpoint_rules, get_pairing_session-History, expire_pairing-History,
          reject_pairing-History, register_device-History,
        )
        depth 12

  pub refresh_tokens-History :
      (token : String) → Along (History w) (refresh_tokens w settings r token)
  unfolding refresh_tokens
  refresh_tokens-History token =
      search (endpoint_rules, verify_refresh_token-History, issue_tokens-History) depth 14

  pub revoke-History : (id : String) → Along (History w) (revoke w settings r id)
  unfolding revoke
  revoke-History id = search (endpoint_rules, revoke_device-History) depth 12

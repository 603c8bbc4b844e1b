-- ===== src/History/Contexts.antt =====
-- Registering a context and reading sessions and missions keep the history: the first writes agents,
-- sessions, missions and events, the others write nothing but the nonce of the request.
use agentic_control_tower.Prelude.{String, Option, none, some}
use agentic_control_tower.World.{World}
use agentic_control_tower.Exec.Along.{Along}
use agentic_control_tower.Store.SessionRows.{SessionRow, MissionRow}
use agentic_control_tower.Store.State.{Settings}
use agentic_control_tower.Store.Missions.{upsert_session, upsert_mission, get_session, get_mission}
use agentic_control_tower.Store.Events.{list_events_after}
use agentic_control_tower.Store.Missions
use agentic_control_tower.Store.Sql.Laws.{Along-fetch, Along-list_where}
use agentic_control_tower.Inventory
use agentic_control_tower.Signing.{HttpRequest}
use agentic_control_tower.Runtime.Context.{
  ContextPayload, register_session, register_mission, register_context, runtime_register_context,
}
use agentic_control_tower.History.{History}
use agentic_control_tower.History.Primitives.{clock_rules, append_audit_event-History}
use agentic_control_tower.History.Stores.{create_event-History}
use agentic_control_tower.History.Tables.{table_rules, upsert_agent-History}
use agentic_control_tower.History.Callers.{endpoint_rules}

module _ (w : World) where
  upsert_session-History : (q : SessionRow) → Along (History w) (upsert_session w q)
  unfolding upsert_session get_session
  upsert_session-History q = search table_rules depth 10

  upsert_mission-History : (m : MissionRow) → Along (History w) (upsert_mission w m)
  unfolding upsert_mission get_mission
  upsert_mission-History m = search table_rules depth 10

  register_session-History :
      (node : String) (p : ContextPayload) (id : Option String)
      → Along (History w) (register_session w node p id)
  unfolding register_session
  register_session-History node p none = search clock_rules
  register_session-History node p (some id) = search (clock_rules, upsert_session-History) depth 8

  register_mission-History :
      (node : String) (p : ContextPayload) (id : Option String)
      → Along (History w) (register_mission w node p id)
  unfolding register_mission
  register_mission-History node p none = search clock_rules
  register_mission-History node p (some id) =
      search (clock_rules, upsert_mission-History, create_event-History) depth 8

  register_context-History :
      (settings : Settings) (p : ContextPayload) (id : String)
      → Along (History w) (register_context w settings p id)
  unfolding register_context
  register_context-History settings p id =
      search
        (
          clock_rules, upsert_agent-History, register_session-History, register_mission-History,
          append_audit_event-History, create_event-History,
        )
        depth 14

  pub runtime_register_context-History :
      (settings : Settings) (r : HttpRequest) (p : ContextPayload)
      → Along (History w) (runtime_register_context w settings r p)
  unfolding runtime_register_context
  runtime_register_context-History settings r p =
      search (endpoint_rules, register_context-History) depth 8

  module _ (settings : Settings) (r : HttpRequest) where
    pub list_sessions-History :
        (of_node of_agent : Option String)
        → Along (History w) (Inventory.list_sessions w settings r of_node of_agent)
    unfolding Inventory.list_sessions Missions.list_sessions
    list_sessions-History of_node of_agent = search endpoint_rules depth 8

    pub get_session-History :
        (id node : String) → Along (History w) (Inventory.get_session w settings r id node)
    unfolding Inventory.get_session Missions.get_session
    get_session-History id node = search endpoint_rules depth 8

    pub activity-History :
        (id node : String) → Along (History w) (Inventory.get_session_activity w settings r id node)
    unfolding Inventory.get_session_activity Missions.get_session list_events_after
    activity-History id node = search endpoint_rules depth 10

    pub list_missions-History :
        (of_node of_agent : Option String)
        → Along (History w) (Inventory.list_missions w settings r of_node of_agent)
    unfolding Inventory.list_missions Missions.list_missions
    list_missions-History of_node of_agent = search (endpoint_rules, Along-list_where) depth 8

    pub get_mission-History :
        (id : String) → Along (History w) (Inventory.get_mission w settings r id)
    unfolding Inventory.get_mission Missions.get_mission
    get_mission-History id = search (endpoint_rules, Along-fetch) depth 8
